-- ===== src/Prelude/Int.antt =====
-- Signed results: the C `int8_t`, with the values that the constants of the program have.
use riotsensors.Prelude.{ℕ, ◌-◌, ◌%◌, ◌^◌, Bool, true, false, ltb, if◌then◌else◌}

-- `negsuc n` is -(n + 1).
pub data ℤ : Type 0 where
  pos : ℕ → ℤ
  negsuc : ℕ → ℤ

abbrev pub is_negative : ℤ → Bool
is_negative (pos n) = false
is_negative (negsuc n) = true

-- The conversion of a `uint8_t` to `int8_t`: two's complement.
abbrev pub to_int8 : ℕ → ℤ
to_int8 w = if ltb w 128 then pos w else negsuc (255 - w)

-- The conversion of an `int8_t` to the byte that represents it.
abbrev pub to_byte : ℤ → ℕ
to_byte (pos n) = n
to_byte (negsuc n) = 255 - n

-- The `int32_t` that a bit pattern stands for.
abbrev pub to_int32 : ℕ → ℤ
to_int32 w = if ltb w (2 ^ 31) then pos w else negsuc (2 ^ 32 - 1 - w)

-- The conversion of an `int` to `uint8_t`.
abbrev pub to_uint8 : ℤ → ℕ
to_uint8 (pos n) = n % 256
to_uint8 (negsuc n) = 255 - n % 256
