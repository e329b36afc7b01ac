-- ===== src/Packets/Bytes.antt =====
-- Integers in the memory of a host, and `htons`/`ntohs`, which the packets go through.
use mathlib.Core.List.{reverse, reverse-cons, reverse-reverse}
use native.Mathlib.Nat.{pow-suc}
use riotsensors.Prelude.{
  ℕ, zero, suc, ◌+◌, ◌*◌, ◌/◌, ◌%◌, ◌^◌, ◌<◌, ◌≡◌, refl, ap, ◌∙◌, List, [], ◌∷◌, arith, length,
  length-append,
}

pub data Host : Type 0 where
  little_endian big_endian : Host

-- The bytes of an integer, the lowest first.
unfoldable pub le_bytes : ℕ → ℕ → List ℕ
le_bytes zero n = []
le_bytes (suc k) n = n % 256 ∷ le_bytes k (n / 256)

unfoldable pub le_value : List ℕ → ℕ
le_value [] = 0
le_value (b ∷ bs) = b + 256 * le_value bs

-- An integer of `k` bytes as it stands in memory.
unfoldable pub store_uint : Host → ℕ → ℕ → List ℕ
unfolding le_bytes
store_uint little_endian k n = le_bytes k n
store_uint big_endian k n = reverse (le_bytes k n)

unfoldable pub load_uint : Host → List ℕ → ℕ
unfolding le_value
load_uint little_endian bs = le_value bs
load_uint big_endian bs = le_value (reverse bs)

-- A little-endian host swaps the two bytes.
unfoldable pub htons : Host → ℕ → ℕ
htons little_endian x = x % 256 * 256 + x / 256 % 256
htons big_endian x = x % 65536

abbrev pub ntohs : Host → ℕ → ℕ
ntohs = htons

pub length-le_bytes : (k n : ℕ) → length (le_bytes k n) ≡ k
unfolding le_bytes
length-le_bytes zero n = refl
length-le_bytes (suc k) n = ap suc (length-le_bytes k (n / 256))

length-reverse : (xs : List ℕ) → length (reverse xs) ≡ length xs
length-reverse [] = refl
length-reverse (x ∷ xs) =
    omega
      (arith, ap length (reverse-cons x xs), length-append (reverse xs) (x ∷ []), length-reverse xs)

pub length-store_uint : (h : Host) (k n : ℕ) → length (store_uint h k n) ≡ k
unfolding store_uint
length-store_uint little_endian k n = length-le_bytes k n
length-store_uint big_endian k n = length-reverse (le_bytes k n) ∙ length-le_bytes k n

le_value-le_bytes : (k n : ℕ) → n < 256 ^ k → le_value (le_bytes k n) ≡ n
unfolding le_value le_bytes
le_value-le_bytes zero n h = omega arith
le_value-le_bytes (suc k) n h =
    omega (arith, le_value-le_bytes k (n / 256) (omega (arith, pow-suc 256 k)))

-- An integer is read back on the host that stored it.
pub load_uint-store_uint : (h : Host) (k n : ℕ) → n < 256 ^ k → load_uint h (store_uint h k n) ≡ n
unfolding load_uint store_uint
load_uint-store_uint little_endian k n lt = le_value-le_bytes k n lt
load_uint-store_uint big_endian k n lt =
    ap le_value (reverse-reverse (le_bytes k n)) ∙ le_value-le_bytes k n lt

-- A 16-bit length put in network order by any host is read by any other as it was.
pub ntohs-load-store :
    (sender receiver : Host) (n : ℕ)
    → n < 65536
    → ntohs receiver (load_uint receiver (store_uint sender 2 (htons sender n))) ≡ n
unfolding load_uint store_uint htons
ntohs-load-store little_endian little_endian n h = omega arith
ntohs-load-store little_endian big_endian n h = omega arith
ntohs-load-store big_endian little_endian n h = omega arith
ntohs-load-store big_endian big_endian n h = omega arith
