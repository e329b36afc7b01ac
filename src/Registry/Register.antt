-- ===== src/Registry/Register.antt =====
-- `lambda_registry_register` against a description of its outcomes.
use riotsensors.Prelude.{
  ℕ, zero, suc, ◌+◌, ◌≤◌, ◌<◌, ◌≡◌, refl, ap, sym, inl, inr, List, [], ◌∷◌, Option, none, some,
  arith, leb, get_or, set, Bool-cases, Option-cases,
}
use riotsensors.Prelude.Int.{ℤ, to_int8}
use riotsensors.CString.{c_str}
use riotsensors.Constants.{
  rs_register_invalname, rs_register_duplicate, rs_register_limit_reached, rs_register_nomem,
}
use riotsensors.Registry.{
  RegisteredLambda, Block, Registry, slot, new_lambda, store_lambda, name_accepted,
  get_registered_lambda_by_name, lambda_registry_register,
}
use riotsensors.Registry.Lookup.{name_of, find_name_sound, find_name-none}
use riotsensors.Registry.Names.{IsName, name_accepted_iff}

-- A registered lambda has this name.
abbrev pub IsTaken {ℓ} : {A : Type ℓ} → Registry A → List ℕ → Type ℓ
IsTaken {A} r s =
    (i : ℕ) × (l : RegisteredLambda A) × (i < r.counter) × (slot r i ≡ some l) × (name_of l ≡ s)

abbrev pub stored {ℓ} : {A : Type ℓ} → Registry A → List ℕ → ℕ → ℕ → A → Block → Registry A
stored r name type cache arg block = record {
  slots = set r.slots r.counter (some (new_lambda r.counter name type cache arg block));
  counter = r.counter + 1;
}

module _ {ℓ} {A : Type ℓ} (r : Registry A) (name : List ℕ) (type cache : ℕ) (arg : A)
    (malloc : Option Block) where
  -- The outcomes of a registration, each under its condition, in the order of precedence.
  pub data Registers (result : Registry A × ℤ) : Type ℓ where
    limit_reached : 255 ≤ r.counter → result ≡ (r, rs_register_limit_reached) → Registers result
    invalid_name :
        r.counter < 255
        → ¬ IsName (c_str name)
        → result ≡ (r, rs_register_invalname)
        → Registers result
    duplicate :
        r.counter < 255
        → IsName (c_str name)
        → IsTaken r (c_str name)
        → result ≡ (r, rs_register_duplicate)
        → Registers result
    no_memory :
        r.counter < 255
        → IsName (c_str name)
        → ¬ IsTaken r (c_str name)
        → malloc ≡ none
        → result ≡ (r, rs_register_nomem)
        → Registers result
    registered :
        r.counter < 255
        → IsName (c_str name)
        → ¬ IsTaken r (c_str name)
        → (block : Block) → malloc ≡ some block
        → result ≡ (stored r name type cache arg block, to_int8 r.counter)
        → Registers result

set_same {ℓ} :
    {A : Type ℓ} (xs : List (Option A)) (i : ℕ) → get_or xs i none ≡ none → set xs i none ≡ xs
set_same [] i e = refl
set_same (x ∷ xs) zero e = ap (λ y. y ∷ xs) (sym e)
set_same (x ∷ xs) (suc i) e = ap (◌∷◌ x) (set_same xs i e)

module _ {ℓ} {A : Type ℓ} (r : Registry A) (name : List ℕ) (type cache : ℕ) (arg : A) where
  -- What `store_lambda` does, where the slot at the counter is NULL.
  store_lambda-Registers :
      (malloc : Option Block)
      → r.counter < 255
      → slot r r.counter ≡ none
      → IsName (c_str name)
      → ¬ IsTaken r (c_str name)
      → Registers r name type cache arg malloc (store_lambda r name type cache arg malloc)
  store_lambda-Registers none lt e ok free =
      no_memory lt ok free refl
        (ap (λ s. (record r { slots = s }, rs_register_nomem)) (set_same r.slots r.counter e))
  store_lambda-Registers (some block) lt e ok free = registered lt ok free block refl (ground arith)

  not-IsTaken : get_registered_lambda_by_name r name ≡ none → ¬ IsTaken r (c_str name)
  unfolding get_registered_lambda_by_name
  not-IsTaken e (i, l, lt, at, same) = find_name-none r.counter r.slots name i l e lt at same

  by_name-IsTaken :
      {l : RegisteredLambda A}
      → get_registered_lambda_by_name r name ≡ some l
      → IsTaken r (c_str name)
  unfolding get_registered_lambda_by_name
  by_name-IsTaken {l} e =
      let (i, lt, at, same) = find_name_sound r.counter r.slots name e in (i, l, lt, at, same)

  -- If the slot at the counter is NULL, a registration has exactly one of five outcomes, in
  -- this order of precedence: limit reached at 255, invalid name unless it is one to twelve
  -- letters and digits, duplicate if a registered lambda has the name, no memory, each leaving
  -- the registry as it was, and otherwise the lambda stored at the counter, which grows by one
  -- and is returned as an `int8_t`.
  pub lambda_registry_register-Registers :
      (malloc : Option Block)
      → slot r r.counter ≡ none
      → Registers r name type cache arg malloc
          (lambda_registry_register r name type cache arg malloc)
  unfolding lambda_registry_register
  lambda_registry_register-Registers malloc e = elim (Bool-cases (leb 255 r.counter)) [
    | inl full ↦ rw full (limit_reached (ground arith) refl)
    | inr room ↦ rw room (elim (Bool-cases (name_accepted name)) [
      | inr bad ↦
          rw bad (invalid_name (ground arith) (λ ok. cc ((name_accepted_iff name).1 ok, bad)) refl)
      | inl good ↦ rw good (elim (Option-cases (get_registered_lambda_by_name r name)) [
        | inl free ↦
            rw (free, lambda_registry_register)
              (store_lambda-Registers malloc (ground arith) e ((name_accepted_iff name).0 good)
                (not-IsTaken free))
        | inr (l, found) ↦
            rw (found, lambda_registry_register)
              (duplicate (ground arith) ((name_accepted_iff name).0 good) (by_name-IsTaken found)
                refl)
      ])
    ])
  ]

  -- A registration under an accepted and free name, with a place left and memory, is stored.
  pub register_stored :
      (block : Block)
      → slot r r.counter ≡ none
      → r.counter < 255
      → IsName (c_str name)
      → ¬ IsTaken r (c_str name)
      → lambda_registry_register r name type cache arg (some block)
        ≡ (stored r name type cache arg block, to_int8 r.counter)
  register_stored block e room ok free = outcome (lambda_registry_register-Registers (some block) e)
    where
      outcome :
          {result : Registry A × ℤ}
          → Registers r name type cache arg (some block) result
          → result ≡ (stored r name type cache arg block, to_int8 r.counter)
      outcome (limit_reached full _) = absurd (omega arith)
      outcome (invalid_name _ bad _) = absurd (bad ok)
      outcome (duplicate _ _ taken _) = absurd (free taken)
      outcome (no_memory _ _ _ m _) = cc
      outcome (registered _ _ _ b m f) = cc (m, f)
