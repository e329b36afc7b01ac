-- ===== src/CoapServer/Decimals.antt =====
-- `std::stoi` and `strtol` of decimal numbers.
use riotsensors.Prelude.{
  ℕ, suc, ◌+◌, ◌-◌, ◌*◌, ◌/◌, ◌%◌, ◌^◌, ◌≤◌, ◌<◌, ◌≡◌, inl, inr, refl, ap, ◌∙◌, List, [], ◌∷◌, true,
  false, arith, ltb, leb, ◌==◌, Bool-cases, length, ltb→lt,
}
use riotsensors.Prelude.Int.{pos}
use riotsensors.CString.{c_str, isspace, isdigit, skip_spaces, digits_from, strtol}
use riotsensors.Rest.Writer.{digit, decimal}
use riotsensors.CoapServer.Query.{value, stoi}

-- Digits, and the number that they are.
abbrev AllDigits : List ℕ → Type 0
AllDigits [] = Unit {0}
AllDigits (n ∷ ns) = (n < 10) × AllDigits ns

abbrev digits : List ℕ → List ℕ
digits [] = []
digits (n ∷ ns) = digit n ∷ digits ns

abbrev number : ℕ → List ℕ → ℕ
number acc [] = acc
number acc (n ∷ ns) = number (acc * 10 + n) ns

digits_from-digits :
    (acc : ℕ) (ns : List ℕ) → AllDigits ns → digits_from acc (digits ns) ≡ (number acc ns, [])
unfolding digits_from isdigit
digits_from-digits acc [] all = refl
digits_from-digits acc (n ∷ ns) all =
    let is : isdigit (digit n) ≡ true = ground arith in
    let minus : digit n - b'0' ≡ n = omega arith in
    rw (is, minus) (digits_from-digits (acc * 10 + n) ns all.1)

c_str-digits : (ns : List ℕ) → AllDigits ns → c_str (digits ns) ≡ digits ns
unfolding c_str
c_str-digits [] all = refl
c_str-digits (n ∷ ns) all =
    let nonzero : (digit n == 0) ≡ false = ground arith in
    rw nonzero (ap (λ s. digit n ∷ s) (c_str-digits ns all.1))

strtol-digits :
    (long_max n : ℕ) (ns : List ℕ)
    → AllDigits (n ∷ ns)
    → number 0 (n ∷ ns) ≤ long_max
    → strtol long_max (digits (n ∷ ns)) ≡ (pos (number 0 (n ∷ ns)), [])
unfolding strtol skip_spaces isspace isdigit
strtol-digits long_max n ns all small =
    let text : c_str (digits (n ∷ ns)) ≡ digits (n ∷ ns) = c_str-digits (n ∷ ns) all in
    let no_space : isspace (digit n) ≡ false = ground arith in
    let no_minus : (digit n == b'-') ≡ false = ground arith in
    let no_plus : (digit n == b'+') ≡ false = ground arith in
    let is : isdigit (digit n) ≡ true = ground arith in
    let read = digits_from-digits 0 (n ∷ ns) all in
    let fits : leb (number 0 (n ∷ ns)) long_max ≡ true = ground arith in
    rw (text, no_space, no_minus, no_plus, is, read, fits) refl

-- The digits of a byte.
decimal-digits :
    (i : ℕ)
    → i < 256
    → (n : ℕ) × (ns : List ℕ) × AllDigits (n ∷ ns)
      × (number 0 (n ∷ ns) ≡ i)
      × (decimal i ≡ digits (n ∷ ns))
unfolding decimal
decimal-digits i small = elim (Bool-cases (ltb i 10)) [
  | inl one ↦ (i, [], (ltb→lt i 10 one, tt), omega arith, rw one refl)
  | inr two ↦ elim (Bool-cases (ltb i 100)) [
    | inl lt ↦ (
      i / 10,
      i % 10 ∷ [],
      (omega (arith, ltb→lt i 100 lt), (omega arith, tt)),
      omega arith,
      rw (two, lt) refl,
    )
    | inr three ↦ (
      i / 100,
      i / 10 % 10 ∷ i % 10 ∷ [],
      (omega arith, (omega arith, (omega arith, tt))),
      omega arith,
      rw (two, three) refl,
    )
  ]
]

-- The id of a lambda in decimal is read back.
pub strtol-decimal :
    (long_max i : ℕ) → i < 256 → 255 ≤ long_max → strtol long_max (decimal i) ≡ (pos i, [])
strtol-decimal long_max i small large =
    let (n, ns, all, same, e) = decimal-digits i small in
    ap (strtol long_max) e
    ∙ strtol-digits long_max n ns all (omega arith)
    ∙ ap (λ m. (pos m, [])) same

pub stoi-decimal :
    (long_max i : ℕ) → i < 256 → 255 ≤ long_max → stoi long_max (decimal i) ≡ value (pos i)
unfolding stoi
stoi-decimal long_max i small large =
    let (n, ns, all, _, e) = decimal-digits i small in
    let text : c_str (decimal i) ≡ digits (n ∷ ns) = ap c_str e ∙ c_str-digits (n ∷ ns) all in
    let something : (0 == suc (length (digits ns))) ≡ false = ground arith in
    let in_range : ltb i (2 ^ 31) ≡ true = ground arith in
    rw (strtol-decimal long_max i small large, text, something, in_range) refl
