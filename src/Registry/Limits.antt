-- ===== src/Registry/Limits.antt =====
-- Where the registry does not do what its header says: names of twelve characters, and ids from 128.
use riotsensors.Prelude.{
  ℕ, ◌-◌, ◌≤◌, ◌<◌, ◌≡◌, ◌≢◌, refl, ap, ◌∙◌, List, ◌∷◌, ◌++◌, none, some, arith, length,
  length-append, Option-cases, inl, inr,
}
use riotsensors.Prelude.Int.{ℤ, pos, negsuc}
use riotsensors.CString.{c_str}
use riotsensors.Registry.{
  RegisteredLambda, Block, Registry, get_registered_lambda_by_id, get_registered_lambda_by_name,
  lambda_registry_register, find_name, new_lambda,
}
use riotsensors.Registry.Lookup.{name_of, find_name_sound}
use riotsensors.Registry.Names.{IsName, name_of-new_lambda_full}
use riotsensors.Registry.Register.{IsTaken, register_stored}
use riotsensors.Registry.Invariant.{IsValid}
use riotsensors.Registry.Contract.{new_by_id, other_by_name}

module _ {ℓ} {A : Type ℓ} (r : Registry A) (name : List ℕ) (type cache : ℕ) (arg : A)
    (block : Block) where
  abbrev outcome : Registry A × ℤ
  outcome = lambda_registry_register r name type cache arg (some block)

  free_by_name : ¬ IsTaken r (c_str name) → get_registered_lambda_by_name r name ≡ none
  unfolding get_registered_lambda_by_name
  free_by_name free = elim (Option-cases (find_name r.counter r.slots name)) [
    | inl nothing ↦ nothing
    | inr (l, found) ↦
        let (i, lt, at, same) = find_name_sound r.counter r.slots name found in
        absurd (free (i, l, lt, at, same))
  ]

  longer_name :
      length block.name ≡ 12
      → length (c_str name) ≡ 12
      → type ≢ 0
      → c_str name ≢ name_of (new_lambda r.counter name type cache arg block)
  unfolding c_str
  longer_name sized full ne same = omega (
    arith,
    ap length (
        same
        ∙ name_of-new_lambda_full r.counter name type cache arg block sized full
        ∙ ap (λ t. c_str name ++ t) typed),
    length-append (c_str name) (type ∷ c_str (cache ∷ block.beyond)),
  )
    where
      typed : c_str (type ∷ cache ∷ block.beyond) ≡ type ∷ c_str (cache ∷ block.beyond)
      typed = ground arith

  -- In a valid registry with fewer than 128 ids given out, a name of twelve letters and digits
  -- that is not taken, registered with a non-zero type and with memory, is reported as
  -- registered, and the lookup by this name then finds nothing.
  pub twelve_characters_lost :
      IsValid r
      → r.counter < 128
      → IsName (c_str name)
      → length (c_str name) ≡ 12
      → type ≢ 0
      → ¬ IsTaken r (c_str name)
      → length block.name ≡ 12
      → (outcome.1 ≡ pos r.counter) × (get_registered_lambda_by_name outcome.0 name ≡ none)
  twelve_characters_lost v room ok full ne free sized =
      let e =
        register_stored r name type cache arg block (v.above r.counter (omega arith)) (omega arith)
          ok free in
      rw e (
        ground arith,
        other_by_name r name type cache arg block v (omega arith) ok.1 free sized name
              (longer_name sized full ne)
            ∙ free_by_name free,
      )

  -- In a valid registry with 128 to 254 ids given out, the registration of an accepted name
  -- that is not taken, with memory, returns a negative number, the counter less 256, although
  -- the lambda is stored under the counter with its type and argument.
  pub high_id_reported_negative :
      IsValid r
      → 128 ≤ r.counter
      → r.counter < 255
      → IsName (c_str name)
      → ¬ IsTaken r (c_str name)
      → length block.name ≡ 12
      → (outcome.1 ≡ negsuc (255 - r.counter))
        × (l : RegisteredLambda A) × (get_registered_lambda_by_id outcome.0 r.counter ≡ some l)
        × (l.type ≡ type)
        × (l.arg ≡ arg)
  high_id_reported_negative v high room ok free sized =
      let e =
        register_stored r name type cache arg block (v.above r.counter (omega arith)) room ok
          free in
      rw e (
        ground arith,
        new_lambda r.counter name type cache arg block,
        new_by_id r name type cache arg block v room ok.1 free sized,
        refl,
        refl,
      )
