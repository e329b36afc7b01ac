-- ===== src/Registry/Invariant.antt =====
-- The well-formedness of the registry, kept by every history of calls of its interface.
use native.Mathlib.Decide.{dec_lt}
use riotsensors.Prelude.{
  ℕ, ◌≤◌, ◌<◌, ◌≡◌, ap, sym, ◌∙◌, ◌⊎◌, inl, inr, List, [], ◌∷◌, ◌||◌, Option, none, some, arith,
  leb, ◌==◌, length, get_or, set, Bool-cases, if◌then◌else◌, length-set, get_or-set,
  length-replicate, get_or-replicate, get_or_out, get_or-set_default,
}
use riotsensors.CString.{c_str}
use riotsensors.CString.Laws.{length-strcpy}
use riotsensors.Registry.{
  RegisteredLambda, Block, Registry, slot, initial, new_lambda, init_lambda_registry,
  free_lambda_registry, lambda_registry_register, lambda_registry_unregister,
}
use riotsensors.Registry.Lookup.{name_of, length-clear_slots, clear_slots_in, clear_slots_keep}
use riotsensors.Registry.{clear_slots, remove_slot}
use riotsensors.Prelude.Int.{ℤ}
use riotsensors.Registry.Names.{name_of-new_lambda_short}
use riotsensors.Registry.Register.{
  Registers, limit_reached, invalid_name, duplicate, no_memory, registered, stored, IsTaken,
  lambda_registry_register-Registers,
}

pub record IsValid {ℓ} {A : Type ℓ} (r : Registry A) : Type ℓ where
  -- The array has its 255 places, and the counter stays in it.
  pub sized : length r.slots ≡ 255
  pub within : r.counter ≤ 255
  -- Nothing is stored from the counter on.
  pub above : (i : ℕ) → r.counter ≤ i → slot r i ≡ none
  -- A lambda's id is its place; its name array has 12 bytes.
  pub own_id : (i : ℕ) (l : RegisteredLambda A) → slot r i ≡ some l → l.id ≡ i
  pub array : (i : ℕ) (l : RegisteredLambda A) → slot r i ≡ some l → length l.name ≡ 12
  -- Names of fewer than 12 characters are distinct.
  pub unique :
      (i j : ℕ) (l m : RegisteredLambda A)
      → slot r i ≡ some l
      → slot r j ≡ some m
      → length (name_of l) < 12
      → name_of l ≡ name_of m
      → i ≡ j

-- A call of the interface; `malloc` returns the memory given, or NULL.
pub data Call {ℓ} (A : Type ℓ) : Type ℓ where
  init free : Call A
  register : List ℕ → ℕ → ℕ → A → Option Block → Call A
  unregister : ℕ → Call A

-- `malloc` returns blocks of the size that is asked for.
abbrev pub IsAllocated : Option Block → Type 0
IsAllocated none = Unit {0}
IsAllocated (some b) = length b.name ≡ 12

abbrev pub IsSound {ℓ} : {A : Type ℓ} → Call A → Type 0
IsSound (register name type cache arg malloc) = IsAllocated malloc
IsSound _ = Unit {0}

unfoldable pub step {ℓ} : {A : Type ℓ} → Registry A → Call A → Registry A
step r init = init_lambda_registry r
step r free = free_lambda_registry r
step r (register name type cache arg malloc) =
    (lambda_registry_register r name type cache arg malloc).0
step r (unregister id) = (lambda_registry_unregister r id).0

unfoldable pub run {ℓ} : {A : Type ℓ} → Registry A → List (Call A) → Registry A
run r [] = r
run r (c ∷ cs) = run (step r c) cs

abbrev pub AllSound {ℓ} : {A : Type ℓ} → List (Call A) → Type 0
AllSound [] = Unit {0}
AllSound (c ∷ cs) = IsSound c × AllSound cs

module _ {ℓ} {A : Type ℓ} where
  -- A registry all of whose slots are NULL.
  pub cleared-IsValid :
      (r : Registry A)
      → length r.slots ≡ 255
      → r.counter ≤ 255
      → ((i : ℕ) → slot r i ≡ none)
      → IsValid r
  cleared-IsValid r sized within empty = record {
    sized = sized;
    within = within;
    above = λ i _. empty i;
    own_id = λ i l e. cc (empty i);
    array = λ i l e. cc (empty i);
    unique = λ i j l m e _ _ _. cc (empty i);
  }

  pub initial-IsValid : IsValid (initial {A = A})
  initial-IsValid =
      cleared-IsValid initial (length-replicate {A = Option (RegisteredLambda A)} 255 none)
        (omega arith) (λ i. get_or-replicate 255 i none)

  pub init-IsValid : (r : Registry A) → IsValid r → IsValid (init_lambda_registry r)
  unfolding init_lambda_registry
  init-IsValid r v =
      cleared-IsValid _ (length-clear_slots 255 0 r.slots ∙ v.sized) v.within (λ i. cleared i)
    where
      cleared : (i : ℕ) → get_or (clear_slots 255 0 r.slots) i none ≡ none
      cleared i = elim (dec_lt i 255) [
        | yes lt ↦ clear_slots_in 255 0 r.slots i (omega arith) (omega arith)
        | no ge ↦
            clear_slots_keep 255 0 r.slots i (get_or_out r.slots i none (omega (arith, v.sized)))
      ]

  pub free-IsValid : (r : Registry A) → IsValid r → IsValid (free_lambda_registry r)
  unfolding free_lambda_registry
  free-IsValid r v =
      cleared-IsValid _ (length-clear_slots r.counter 0 r.slots ∙ v.sized) (omega arith)
        (λ i. cleared i)
    where
      cleared : (i : ℕ) → get_or (clear_slots r.counter 0 r.slots) i none ≡ none
      cleared i = elim (dec_lt i r.counter) [
        | yes lt ↦ clear_slots_in r.counter 0 r.slots i (omega arith) (omega arith)
        | no ge ↦ clear_slots_keep r.counter 0 r.slots i (v.above i (omega arith))
      ]

  pub stored-IsValid :
      (r : Registry A) (name : List ℕ) (type cache : ℕ) (arg : A) (block : Block)
      → IsValid r
      → r.counter < 255
      → length (c_str name) ≤ 12
      → ¬ IsTaken r (c_str name)
      → length block.name ≡ 12
      → IsValid (stored r name type cache arg block)
  stored-IsValid r name type cache arg block v room fits fresh sized = record {
    sized = length-set r.slots r.counter _ ∙ v.sized;
    within = omega arith;
    above = λ i h. ground (arith, at i, v.above i (omega arith));
    own_id = λ i l e. ground (arith, at i, v.own_id i l);
    array = λ i l e. array_of i l (place i l e);
    unique = λ i j l m e f short same. distinct i j l m (place i l e) (place j m f) short same;
  }
    where
      new : RegisteredLambda A
      new = new_lambda r.counter name type cache arg block

      at :
          (i : ℕ)
          → slot (stored r name type cache arg block) i
            ≡ (if r.counter == i then some new else slot r i)
      at i = get_or-set r.slots r.counter i (some new) none (omega (arith, v.sized))

      Place : ℕ → RegisteredLambda A → Type ℓ
      Place i l = ((i ≡ r.counter) × (l ≡ new)) ⊎ ((i < r.counter) × (slot r i ≡ some l))

      place :
          (i : ℕ) (l : RegisteredLambda A)
          → slot (stored r name type cache arg block) i ≡ some l
          → Place i l
      place i l e = elim (Bool-cases (r.counter == i)) [
        | inl hit ↦
            let p : slot (stored r name type cache arg block) i ≡ some new = rw hit at (at i) in
            inl (ground arith, cc (p, e))
        | inr miss ↦
            let p : slot (stored r name type cache arg block) i ≡ slot r i = rw miss at (at i) in
            elim (dec_lt i r.counter) [
              | yes lt ↦ inr (lt, sym p ∙ e)
              | no ge ↦ cc (p, e, v.above i (omega arith))
            ]
      ]

      new_name :
          (l : RegisteredLambda A) → l ≡ new → length (name_of l) < 12 → name_of l ≡ c_str name
      new_name l e short =
          ap name_of e
          ∙ name_of-new_lambda_short r.counter name type cache arg block sized fits (rw e at short)

      array_of : (i : ℕ) (l : RegisteredLambda A) → Place i l → length l.name ≡ 12
      array_of i l (inl (_, e)) = rw e (length-strcpy block.name name ∙ sized)
      array_of i l (inr (_, e)) = v.array i l e

      distinct :
          (i j : ℕ) (l m : RegisteredLambda A)
          → Place i l
          → Place j m
          → length (name_of l) < 12
          → name_of l ≡ name_of m
          → i ≡ j
      distinct i j l m (inl (e, _)) (inl (f, _)) short same = omega arith
      distinct i j l m (inr (_, e)) (inr (_, f)) short same = v.unique i j l m e f short same
      distinct i j l m (inl (_, e)) (inr (lt, f)) short same =
          absurd (fresh (j, m, lt, f, sym same ∙ new_name l e short))
      distinct i j l m (inr (lt, e)) (inl (_, f)) short same =
          absurd (fresh (i, l, lt, e, same ∙ new_name m f (rw same at short)))

  pub removed-IsValid :
      (r : Registry A) (id : ℕ) → IsValid r → IsValid (record r { slots = set r.slots id none })
  removed-IsValid r id v = record {
    sized = length-set r.slots id none ∙ v.sized;
    within = v.within;
    above = λ i h. ground (arith, get_or-set_default r.slots id i none, v.above i h);
    own_id = λ i l e. v.own_id i l (kept i l e);
    array = λ i l e. v.array i l (kept i l e);
    unique = λ i j l m e f short same. v.unique i j l m (kept i l e) (kept j m f) short same;
  }
    where
      kept :
          (i : ℕ) (l : RegisteredLambda A)
          → get_or (set r.slots id none) i none ≡ some l
          → slot r i ≡ some l
      kept i l e = ground (arith, get_or-set_default r.slots id i none)

  pub unregister-IsValid :
      (r : Registry A) (id : ℕ) → IsValid r → IsValid (lambda_registry_unregister r id).0
  unfolding lambda_registry_unregister
  unregister-IsValid r id v = elim (Bool-cases (leb 255 id || leb r.counter id)) [
    | inl out ↦ rw out v
    | inr in_range ↦ rw in_range (removal (slot r id))
  ]
    where
      removal : (o : Option (RegisteredLambda A)) → IsValid (remove_slot r id o).0
      removal none = v
      removal (some l) = removed-IsValid r id v

  pub step-IsValid : (r : Registry A) (c : Call A) → IsSound c → IsValid r → IsValid (step r c)
  unfolding step
  step-IsValid r init s v = init-IsValid r v
  step-IsValid r free s v = free-IsValid r v
  step-IsValid r (register name type cache arg malloc) s v = registration (
      lambda_registry_register-Registers r name type cache arg malloc
        (v.above r.counter (omega arith)))
    where
      registration :
          {result : Registry A × ℤ}
          → Registers r name type cache arg malloc result
          → IsValid result.0
      registration (limit_reached _ e) = rw e v
      registration (invalid_name _ _ e) = rw e v
      registration (duplicate _ _ _ e) = rw e v
      registration (no_memory _ _ _ _ e) = rw e v
      registration (registered room ok fresh block m e) =
          rw e (stored-IsValid r name type cache arg block v room ok.1 fresh (rw m at s))
  step-IsValid r (unregister id) s v = unregister-IsValid r id v

  -- Every sequence of calls of init, free, register and unregister, with `malloc` returning
  -- NULL or a block of the size asked for, keeps a registry valid: 255 slots, a counter of at
  -- most 255, nothing stored from the counter on, each lambda under its own id, and names of
  -- fewer than twelve characters distinct.
  pub run-IsValid :
      (r : Registry A) (cs : List (Call A)) → AllSound cs → IsValid r → IsValid (run r cs)
  unfolding run
  run-IsValid r [] s v = v
  run-IsValid r (c ∷ cs) s v = run-IsValid (step r c) cs s.1 (step-IsValid r c s.0 v)
