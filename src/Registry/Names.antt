-- ===== src/Registry/Names.antt =====
-- The names that `lambda_registry_register` accepts, and what it stores of them.
use native.Mathlib.Decide.{dec_lt}
use riotsensors.Prelude.{
  length-append, ℕ, ◌≤◌, ◌<◌, ◌≡◌, refl, ◌↔◌, ◌⊎◌, List, [], ◌∷◌, ◌++◌, true, arith, length, ap,
}
use riotsensors.CString.{c_str, strlen, isalnum}
use riotsensors.CString.Laws.{c_str-strcpy, c_str-strcpy_full}
use riotsensors.Registry.{Block, new_lambda, all_alnum, name_accepted}
use riotsensors.Registry.Lookup.{name_of}

-- An ASCII letter or digit.
abbrev pub IsAlnum : ℕ → Type 0
IsAlnum c = ((b'0' ≤ c) × (c ≤ b'9')) ⊎ ((b'A' ≤ c) × (c ≤ b'Z')) ⊎ ((b'a' ≤ c) × (c ≤ b'z'))

abbrev pub AllAlnum : List ℕ → Type 0
AllAlnum [] = Unit {0}
AllAlnum (c ∷ cs) = IsAlnum c × AllAlnum cs

-- One to twelve letters and digits.
abbrev pub IsName : List ℕ → Type 0
IsName s = (1 ≤ length s) × (length s ≤ 12) × AllAlnum s

isalnum_iff : (c : ℕ) → (isalnum c ≡ true) ↔ IsAlnum c
unfolding isalnum
isalnum_iff c = (λ h. ground arith, λ h. ground arith)

all_alnum_sound : (s : List ℕ) → all_alnum s ≡ true → AllAlnum s
unfolding all_alnum
all_alnum_sound [] h = tt
all_alnum_sound (c ∷ s) h = ((isalnum_iff c).0 (ground arith), all_alnum_sound s (ground arith))

all_alnum_complete : (s : List ℕ) → AllAlnum s → all_alnum s ≡ true
unfolding all_alnum
all_alnum_complete [] h = refl
all_alnum_complete (c ∷ s) h = ground (arith, (isalnum_iff c).1 h.0, all_alnum_complete s h.1)

-- The tests of the name in `lambda_registry_register` accept exactly the names of one to twelve
-- ASCII letters and digits.
pub name_accepted_iff : (name : List ℕ) → (name_accepted name ≡ true) ↔ IsName (c_str name)
unfolding name_accepted strlen
name_accepted_iff name = (
  λ h. (ground arith, ground arith, all_alnum_sound (c_str name) (ground arith)),
  λ h. ground (arith, all_alnum_complete (c_str name) h.2),
)

module _ {ℓ} {A : Type ℓ} (id : ℕ) (name : List ℕ) (type cache : ℕ) (arg : A) (block : Block)
    (sized : length block.name ≡ 12) where
  -- A name of at most eleven characters is read back from the structure as it was passed.
  pub name_of-new_lambda :
      length (c_str name) < 12 → name_of (new_lambda id name type cache arg block) ≡ c_str name
  unfolding strlen
  name_of-new_lambda short = c_str-strcpy block.name name _ (omega arith)

  -- A name of twelve characters is read on into the type, the cache policy and what follows.
  pub name_of-new_lambda_full :
      length (c_str name) ≡ 12
      → name_of (new_lambda id name type cache arg block)
        ≡ c_str name ++ c_str (type ∷ cache ∷ block.beyond)
  unfolding strlen
  name_of-new_lambda_full full = c_str-strcpy_full block.name name _ (omega arith)

  -- If the stored name is shorter than its array, it is the name that was passed.
  pub name_of-new_lambda_short :
      length (c_str name) ≤ 12
      → length (name_of (new_lambda id name type cache arg block)) < 12
      → name_of (new_lambda id name type cache arg block) ≡ c_str name
  name_of-new_lambda_short fits short = elim (dec_lt (length (c_str name)) 12) [
    | yes lt ↦ name_of-new_lambda lt
    | no ge ↦ absurd (
        omega (
          arith,
          ap length (name_of-new_lambda_full (omega arith)),
          length-append (c_str name) (c_str (type ∷ cache ∷ block.beyond)),
        ))
  ]
