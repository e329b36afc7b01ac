-- ===== src/CString/Numbers.antt =====
-- Which strings `strtol` reads as a small number.
use riotsensors.Prelude.{
  ℕ, zero, suc, ◌+◌, ◌-◌, ◌*◌, ◌≤◌, ◌≡◌, ◌≢◌, refl, ap, ◌∙◌, ◌⊎◌, ◌↔◌, inl, inr, List, [], ◌∷◌,
  ◌++◌, Bool, true, false, arith, leb, ◌==◌, ==_iff, Bool-cases, replicate, if◌then◌else◌,
}
use riotsensors.Prelude.Int.{ℤ, pos, negsuc}
use riotsensors.CString.{
  c_str, isspace, isdigit, skip_spaces, digits_from, starts_with_digit, at_most, negative, sign_of,
  strtol_number, strtol,
}

abbrev pub AllSpaces : List ℕ → Type 0
AllSpaces [] = Unit {0}
AllSpaces (c ∷ s) = (isspace c ≡ true) × AllSpaces s

-- Zeros and one digit.
abbrev pub padded : ℕ → ℕ → List ℕ
padded pad n = replicate pad b'0' ++ (b'0' + n) ∷ []

grows : (acc : ℕ) (s : List ℕ) (v : ℕ) → digits_from acc s ≡ (v, []) → acc ≤ v
unfolding digits_from
grows acc [] v e = omega (arith, ap (λ t. t.0) e)
grows acc (c ∷ s) v e = elim (Bool-cases (isdigit c)) [
  | inl digit ↦ omega (arith, grows (acc * 10 + (c - b'0')) s v (rw digit at e))
  | inr other ↦
      let q : ◌≡◌ {A = ℕ × List ℕ} (acc, c ∷ s) (v, []) = rw other at e in cc (ap (λ t. t.1) q)
]

isdigit_ge : (c : ℕ) → isdigit c ≡ true → b'0' ≤ c
unfolding isdigit
isdigit_ge c h = ground arith

-- Once a digit that is not zero has been read, each more makes a number of two digits or more.
one_more :
    (acc : ℕ) (s : List ℕ) (v : ℕ)
    → 1 ≤ acc
    → v ≤ 9
    → digits_from acc s ≡ (v, [])
    → (acc ≡ v) × (s ≡ [])
unfolding digits_from
one_more acc [] v low high e = (ap (λ t. t.0) e, refl)
one_more acc (c ∷ s) v low high e = elim (Bool-cases (isdigit c)) [
  | inl digit ↦ absurd (omega (arith, grows (acc * 10 + (c - b'0')) s v (rw digit at e)))
  | inr other ↦
      let q : ◌≡◌ {A = ℕ × List ℕ} (acc, c ∷ s) (v, []) = rw other at e in cc (ap (λ t. t.1) q)
]

digits_sound :
    (s : List ℕ) (v : ℕ)
    → 1 ≤ v
    → v ≤ 9
    → digits_from 0 s ≡ (v, [])
    → (pad : ℕ) × (s ≡ padded pad v)
unfolding digits_from
digits_sound [] v low high e = absurd (omega (arith, ap (λ t. t.0) e))
digits_sound (c ∷ s) v low high e = elim (Bool-cases (isdigit c)) [
  | inr other ↦
      let q : ◌≡◌ {A = ℕ × List ℕ} (0, c ∷ s) (v, []) = rw other at e in cc (ap (λ t. t.1) q)
  | inl digit ↦ elim (Bool-cases (c == b'0')) [
    | inl zero_digit ↦
        let z : c ≡ b'0' = (==_iff _ _).0 zero_digit in
        let q : digits_from (0 * 10 + (c - b'0')) s ≡ (v, []) = rw digit at e in
        let (pad, p) = digits_sound s v low high (ap (λ n. digits_from n s) (omega arith) ∙ q) in
        (suc pad, ap (λ t. t ∷ s) z ∙ ap (λ t. b'0' ∷ t) p)
    | inr other ↦
        let ne : c ≢ b'0' = λ z. cc ((==_iff c b'0').1 z, other) in
        let ge = isdigit_ge c digit in
        let (m, p) = one_more (0 * 10 + (c - b'0')) s v (omega arith) high (rw digit at e) in
        (0, ap (λ t. t ∷ s) (omega arith) ∙ ap (λ t. (b'0' + v) ∷ t) p)
  ]
]

digits_complete : (pad v : ℕ) → v ≤ 9 → digits_from 0 (padded pad v) ≡ (v, [])
unfolding digits_from isdigit
digits_complete zero v high = ground arith
digits_complete (suc pad) v high = digits_complete pad v high

skip_spaces_sound :
    (s : List ℕ) → (spaces : List ℕ) × AllSpaces spaces × (s ≡ spaces ++ skip_spaces s)
unfolding skip_spaces
skip_spaces_sound [] = ([], tt, refl)
skip_spaces_sound (c ∷ s) = elim (Bool-cases (isspace c)) [
  | inl space ↦
      let (sp, all, e) = skip_spaces_sound s in (c ∷ sp, (space, all), rw space (ap (λ t. c ∷ t) e))
  | inr other ↦ ([], tt, rw other refl)
]

skip_spaces_complete :
    (spaces s : List ℕ) → AllSpaces spaces → skip_spaces s ≡ s → skip_spaces (spaces ++ s) ≡ s
unfolding skip_spaces
skip_spaces_complete [] s all e = e
skip_spaces_complete (c ∷ spaces) s all e = rw all.0 (skip_spaces_complete spaces s all.1 e)

-- White space, a plus sign or none, pad, and one digit.
pub record IsNumeral (n : ℕ) (s : List ℕ) : Type 0 where
  pub spaces : List ℕ
  pub sign : List ℕ
  pub pad : ℕ
  pub all : AllSpaces spaces
  pub plus : (sign ≡ []) ⊎ (sign ≡ b'+' ∷ [])
  pub parts : s ≡ spaces ++ (sign ++ padded pad n)

abbrev magnitude : ℤ → ℕ
magnitude (pos k) = k
magnitude (negsuc k) = 0

magnitude-negative : (k : ℕ) → magnitude (negative k) ≡ 0
magnitude-negative zero = refl
magnitude-negative (suc k) = refl

module _ (long_max n : ℕ) (large : 10 ≤ long_max) (low : 1 ≤ n) (high : n ≤ 9) where
  number_sound :
      (s : List ℕ) (minus : Bool) (u : List ℕ)
      → strtol_number long_max s (minus, u) ≡ (pos n, [])
      → (minus ≡ false) × (digits_from 0 u ≡ (n, []))
  number_sound s minus u e = elim (Bool-cases (starts_with_digit u)) [
    | inr none ↦
        let q : ◌≡◌ {A = ℤ × List ℕ} (pos 0, s) (pos n, []) = rw none at e in
        let z : pos 0 ≡ pos n = ap (λ t. t.0) q in absurd (omega (arith, ap magnitude z))
    | inl some_digit ↦ read minus (rw some_digit at e)
  ]
    where
      at_most_small : (v : ℕ) → at_most long_max v ≡ n → v ≡ n
      at_most_small v h = ground arith

      read :
          (minus : Bool)
          → ◌≡◌ {A = ℤ × List ℕ}
              (
                if minus
                    then negative (at_most (long_max + 1) (digits_from 0 u).0)
                    else pos (at_most long_max (digits_from 0 u).0),
                (digits_from 0 u).1,
              )
              (pos n, [])
          → (minus ≡ false) × (digits_from 0 u ≡ (n, []))
      read true q = absurd (
          omega (
            arith,
            ap (λ t. magnitude t.0) q,
            magnitude-negative (at_most (long_max + 1) (digits_from 0 u).0),
          ))
      read false q =
          let v : (digits_from 0 u).0 ≡ n =
            at_most_small (digits_from 0 u).0 (ap (λ t. magnitude t.0) q) in
          let rest : (digits_from 0 u).1 ≡ [] = ap (λ t. t.1) q in (refl, cc (v, rest))

  strtol_sound : (p : List ℕ) → strtol long_max p ≡ (pos n, []) → IsNumeral n (c_str p)
  unfolding strtol digits_from
  strtol_sound p e =
      let (spaces, all, split) = skip_spaces_sound (c_str p) in
      signed (skip_spaces (c_str p)) spaces all split e
    where
      signed :
          (t spaces : List ℕ)
          → AllSpaces spaces
          → c_str p ≡ spaces ++ t
          → strtol_number long_max (c_str p) (sign_of t) ≡ (pos n, [])
          → IsNumeral n (c_str p)
      signed [] spaces all split q =
          absurd (omega (arith, ap (λ t. t.0) (number_sound (c_str p) false [] q).1))
      signed (c ∷ t) spaces all split q = elim (Bool-cases (c == b'-')) [
        | inl minus ↦ cc (number_sound (c_str p) true t (rw minus at q)).0
        | inr not_minus ↦ elim (Bool-cases (c == b'+')) [
          | inl plus ↦
              let (pad, r) =
                digits_sound t n low high
                  (number_sound (c_str p) false t (rw (not_minus, plus) at q)).1 in
              record {
                spaces = spaces;
                sign = b'+' ∷ [];
                pad = pad;
                all = all;
                plus = inr refl;
                parts =
                    split
                    ∙ ap (λ x. spaces ++ x)
                        (ap (λ x. x ∷ t) ((==_iff c b'+').0 plus) ∙ ap (λ x. b'+' ∷ x) r);
              }
          | inr not_plus ↦
              let (pad, r) =
                digits_sound (c ∷ t) n low high
                  (number_sound (c_str p) false (c ∷ t) (rw (not_minus, not_plus) at q)).1 in
              record {
                spaces = spaces;
                sign = [];
                pad = pad;
                all = all;
                plus = inl refl;
                parts = split ∙ ap (λ x. spaces ++ x) r;
              }
        ]
      ]

  number_complete :
      (s : List ℕ) (pad : ℕ) → strtol_number long_max s (false, padded pad n) ≡ (pos n, [])
  unfolding isdigit
  number_complete s pad = rw (starts pad, digits_complete pad n high, fits) refl
    where
      starts : (pad : ℕ) → starts_with_digit (padded pad n) ≡ true
      starts zero = ground arith
      starts (suc pad) = refl

      fits : leb n long_max ≡ true
      fits = ground arith

  signed_complete :
      (sign : List ℕ) (pad : ℕ)
      → (sign ≡ []) ⊎ (sign ≡ b'+' ∷ [])
      → (skip_spaces (sign ++ padded pad n) ≡ sign ++ padded pad n)
        × (sign_of (sign ++ padded pad n) ≡ (false, padded pad n))
  unfolding skip_spaces isspace
  signed_complete sign zero (inl e) = rw e (ground arith, ground arith)
  signed_complete sign (suc pad) (inl e) = rw e (refl, refl)
  signed_complete sign pad (inr e) = rw e (refl, refl)

  strtol_complete : (p : List ℕ) → IsNumeral n (c_str p) → strtol long_max p ≡ (pos n, [])
  unfolding strtol
  strtol_complete p m =
      let (skipped, signed) = signed_complete m.sign m.pad m.plus in
      ap (λ t. strtol_number long_max (c_str p) (sign_of t))
        (ap skip_spaces m.parts
          ∙ skip_spaces_complete m.spaces (m.sign ++ padded m.pad n) m.all skipped)
      ∙ ap (strtol_number long_max (c_str p)) signed
      ∙ number_complete (c_str p) m.pad

  pub strtol_iff : (p : List ℕ) → (strtol long_max p ≡ (pos n, [])) ↔ IsNumeral n (c_str p)
  strtol_iff p = (strtol_sound p, strtol_complete p)
