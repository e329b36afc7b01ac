-- ===== src/CString.antt =====
-- The C string functions that the program calls. A `char *` is the list of the bytes in memory from
-- the pointer on; the string is what stands before the first NUL (or before the end of the list).
pub mod Laws
pub mod Numbers
use riotsensors.Prelude.Int.{ℤ, pos, negsuc}
use riotsensors.Prelude.{
  ℕ, zero, suc, ◌+◌, ◌-◌, ◌*◌, List, [], ◌∷◌, ◌++◌, Bool, true, false, ◌&&◌, ◌||◌, leb, ◌==◌,
  if◌then◌else◌, length, bytes_eq,
}

unfoldable pub c_str : List ℕ → List ℕ
c_str [] = []
c_str (b ∷ bs) = if b == 0 then [] else b ∷ c_str bs

unfoldable pub strlen : List ℕ → ℕ
strlen p = length (c_str p)

-- strcmp(p, q) == 0
unfoldable pub strcmp_eq : List ℕ → List ℕ → Bool
strcmp_eq p q = bytes_eq (c_str p) (c_str q)

-- A block with its first bytes overwritten; what would be written behind the block is not part of it.
unfoldable pub overwrite : List ℕ → List ℕ → List ℕ
overwrite [] block = block
overwrite (b ∷ bs) [] = []
overwrite (b ∷ bs) (d ∷ ds) = b ∷ overwrite bs ds

-- strcpy(block, p): the string and its NUL.
unfoldable pub strcpy : List ℕ → List ℕ → List ℕ
unfolding overwrite
strcpy block p = overwrite (c_str p ++ 0 ∷ []) block

-- isalnum in the C locale.
unfoldable pub isalnum : ℕ → Bool
isalnum c = (leb b'0' c && leb c b'9') || (leb b'A' c && leb c b'Z') || (leb b'a' c && leb c b'z')

-- isspace in the C locale.
unfoldable pub isspace : ℕ → Bool
isspace c = c == 32 || (leb 9 c && leb c 13)

unfoldable pub isdigit : ℕ → Bool
isdigit c = leb b'0' c && leb c b'9'

unfoldable pub skip_spaces : List ℕ → List ℕ
skip_spaces [] = []
skip_spaces (c ∷ s) = if isspace c then skip_spaces s else c ∷ s

-- The number that the digits at the front of a string stand for, and the rest.
unfoldable pub digits_from : ℕ → List ℕ → ℕ × List ℕ
digits_from acc [] = (acc, [])
digits_from acc (c ∷ s) = if isdigit c then digits_from (acc * 10 + (c - b'0')) s else (acc, c ∷ s)

abbrev pub starts_with_digit : List ℕ → Bool
starts_with_digit [] = false
starts_with_digit (c ∷ s) = isdigit c

abbrev pub at_most : ℕ → ℕ → ℕ
at_most bound n = if leb n bound then n else bound

abbrev pub negative : ℕ → ℤ
negative zero = pos 0
negative (suc n) = negsuc n

-- A sign before the digits: whether it is a minus, and what follows it.
abbrev pub sign_of : List ℕ → Bool × List ℕ
sign_of [] = (false, [])
sign_of (c ∷ s) = if c == b'-' then (true, s) else if c == b'+' then (false, s) else (false, c ∷ s)

-- From the digits on, whose number stays between -`long_max` - 1 and `long_max`; where there are no
-- digits, nothing of the string is taken.
abbrev pub strtol_number : ℕ → List ℕ → Bool × List ℕ → ℤ × List ℕ
strtol_number long_max s (minus, t) =
    if starts_with_digit t
    then (let (n, rest) = digits_from 0 t in
        (if minus then negative (at_most (long_max + 1) n) else pos (at_most long_max n), rest))
    else (pos 0, s)

-- strtol(p, &end, 10): the number, and the string that `end` points to.
unfoldable pub strtol : ℕ → List ℕ → ℤ × List ℕ
strtol long_max p = strtol_number long_max (c_str p) (sign_of (skip_spaces (c_str p)))
