-- ===== src/Registry/Lookup.antt =====
-- What the two lookups return, and what the loops that clear the array leave.
use riotsensors.Prelude.{
  ℕ, zero, suc, ◌+◌, ◌≤◌, ◌<◌, ◌≡◌, ◌≢◌, refl, sym, ap, ◌∙◌, ◌⊎◌, inl, inr, List, [], ◌∷◌, true,
  Option, none, some, arith, length, get_or, set, length-set, get_or-set_ne, get_or-set_default,
  Bool-cases,
}
use native.Mathlib.Decide.{ℕ_discrete}
use riotsensors.CString.{c_str}
use riotsensors.CString.Laws.{strcmp_eq_sound, strcmp_eq_complete}
use riotsensors.Registry.{RegisteredLambda, name_mem, clear_slots, name_matches, find_name}

-- The name of a lambda as a C string.
abbrev pub name_of {ℓ} : {A : Type ℓ} → RegisteredLambda A → List ℕ
name_of l = c_str (name_mem l)

module _ {ℓ} {A : Type ℓ} where
  name_matches_sound :
      (name : List ℕ) (l : RegisteredLambda A)
      → name_matches name (some l) ≡ true
      → name_of l ≡ c_str name
  name_matches_sound name l h = strcmp_eq_sound (name_mem l) name h

  -- A lambda that the loop returns stands in one of the slots and has the name.
  pub find_name_sound :
      (n : ℕ) (slots : List (Option (RegisteredLambda A))) (name : List ℕ) {l : RegisteredLambda A}
      → find_name n slots name ≡ some l
      → (i : ℕ) × (i < n) × (get_or slots i none ≡ some l) × (name_of l ≡ c_str name)
  unfolding find_name
  find_name_sound zero slots name h = cc
  find_name_sound (suc n) [] name h = cc
  find_name_sound (suc n) (none ∷ slots) name h =
      let (i, lt, e, m) = find_name_sound n slots name h in (suc i, omega arith, e, m)
  find_name_sound (suc n) (some k ∷ slots) name {l} h =
      elim (Bool-cases (name_matches name (some k))) [
        | inl hit ↦ (
          0,
          omega arith,
          rw hit at h,
          let e : some k ≡ some l = rw hit at h in
              ap name_or (sym e) ∙ name_matches_sound name k hit,
        )
        | inr miss ↦
            let (i, lt, e, m) = find_name_sound n slots name (rw miss at h) in
            (suc i, omega arith, e, m)
      ]
    where
      name_or : Option (RegisteredLambda A) → List ℕ
      name_or none = []
      name_or (some l) = name_of l

  -- Where the loop finds nothing, no slot that it passed holds the name.
  pub find_name-none :
      (n : ℕ) (slots : List (Option (RegisteredLambda A))) (name : List ℕ) (i : ℕ)
      (l : RegisteredLambda A)
      → find_name n slots name ≡ none
      → i < n
      → get_or slots i none ≡ some l
      → name_of l ≢ c_str name
  unfolding find_name
  find_name-none zero slots name i l h lt e same = elim lt [ ]
  find_name-none (suc n) [] name i l h lt e same = cc
  find_name-none (suc n) (none ∷ slots) name zero l h lt e same = cc
  find_name-none (suc n) (some k ∷ slots) name zero l h lt e same =
      ground (arith, strcmp_eq_complete (name_mem k) name)
  find_name-none (suc n) (s ∷ slots) name (suc i) l h lt e same =
      elim (Bool-cases (name_matches name s)) [
        | inl hit ↦ matched s (rw hit at h) hit
        | inr miss ↦ find_name-none n slots name i l (rw miss at h) (omega arith) e same
      ]
    where
      matched : (s : Option (RegisteredLambda A)) → s ≡ none → name_matches name s ≡ true → ⊥
      matched none p q = cc
      matched (some k) p q = cc

  pub length-clear_slots :
      (n i : ℕ) (slots : List (Option (RegisteredLambda A)))
      → length (clear_slots n i slots) ≡ length slots
  unfolding clear_slots
  length-clear_slots zero i slots = refl
  length-clear_slots (suc n) i slots =
      length-clear_slots n (i + 1) (set slots i none) ∙ length-set slots i none

  -- A slot outside the range stays.
  pub clear_slots_out :
      (n i : ℕ) (slots : List (Option (RegisteredLambda A))) (j : ℕ)
      → (j < i) ⊎ (i + n ≤ j)
      → get_or (clear_slots n i slots) j none ≡ get_or slots j none
  unfolding clear_slots
  clear_slots_out zero i slots j h = refl
  clear_slots_out (suc n) i slots j h =
      clear_slots_out n (i + 1) (set slots i none) j (omega arith)
      ∙ get_or-set_ne slots i j none none (omega arith)

  -- A slot that is NULL stays NULL.
  pub clear_slots_keep :
      (n i : ℕ) (slots : List (Option (RegisteredLambda A))) (j : ℕ)
      → get_or slots j none ≡ none
      → get_or (clear_slots n i slots) j none ≡ none
  unfolding clear_slots
  clear_slots_keep zero i slots j h = h
  clear_slots_keep (suc n) i slots j h =
      clear_slots_keep n (i + 1) (set slots i none) j
        (ground (arith, get_or-set_default slots i j none))

  -- A slot in the range is NULL.
  pub clear_slots_in :
      (n i : ℕ) (slots : List (Option (RegisteredLambda A))) (j : ℕ)
      → i ≤ j
      → j < i + n
      → get_or (clear_slots n i slots) j none ≡ none
  unfolding clear_slots
  clear_slots_in zero i slots j h lt = absurd (omega arith)
  clear_slots_in (suc n) i slots j h lt = elim (ℕ_discrete i j) [
    | yes e ↦
        clear_slots_keep n (i + 1) (set slots i none) j
          (ground (arith, get_or-set_default slots i j none))
    | no ne ↦ clear_slots_in n (i + 1) (set slots i none) j (omega arith) (omega arith)
  ]
