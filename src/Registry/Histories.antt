-- ===== src/Registry/Histories.antt =====
-- Histories of calls: ids are handed out in order, and none twice before the registry is freed.
use riotsensors.Prelude.{
  ℕ, ◌+◌, ◌≤◌, ◌<◌, ◌≡◌, refl, ap, sym, ◌∙◌, inl, inr, List, [], ◌∷◌, ◌||◌, Option, none, some,
  arith, leb, Bool-cases,
}
use riotsensors.Prelude.Int.{pos, to_int8}
use riotsensors.Registry.{
  RegisteredLambda, Block, Registry, slot, remove_slot, init_lambda_registry,
  lambda_registry_register, lambda_registry_unregister,
}
use riotsensors.Registry.Register.{
  Registers, limit_reached, invalid_name, duplicate, no_memory, registered, stored,
  lambda_registry_register-Registers,
}
use riotsensors.Registry.Invariant.{
  IsValid, AllSound, IsAllocated, Call, init, free, register, unregister, step, run, step-IsValid,
  run-IsValid,
}

-- No call of the history is `free`.
abbrev pub NeverFrees {ℓ} : {A : Type ℓ} → List (Call A) → Type 0
NeverFrees [] = Unit {0}
NeverFrees (free ∷ cs) = ⊥
NeverFrees (_ ∷ cs) = NeverFrees cs

module _ {ℓ} {A : Type ℓ} where
  counter-unregister :
      (r : Registry A) (id : ℕ) → (lambda_registry_unregister r id).0.counter ≡ r.counter
  unfolding lambda_registry_unregister
  counter-unregister r id = elim (Bool-cases (leb 255 id || leb r.counter id)) [
    | inl out ↦ rw out
    | inr in_range ↦ rw in_range (removal (slot r id))
  ]
    where
      removal : (o : Option (RegisteredLambda A)) → (remove_slot r id o).0.counter ≡ r.counter
      removal none = refl
      removal (some l) = refl

  module _ (r : Registry A) (name : List ℕ) (type cache : ℕ) (arg : A) (malloc : Option Block)
      (v : IsValid r) where
    outcome :
        Registers r name type cache arg malloc
          (lambda_registry_register r name type cache arg malloc)
    outcome =
        lambda_registry_register-Registers r name type cache arg malloc
          (v.above r.counter (omega arith))

    counter-register : r.counter ≤ (lambda_registry_register r name type cache arg malloc).0.counter
    counter-register = elim outcome [
      | limit_reached _ e ↦ rw e (omega arith)
      | invalid_name _ _ e ↦ rw e (omega arith)
      | duplicate _ _ _ e ↦ rw e (omega arith)
      | no_memory _ _ _ _ e ↦ rw e (omega arith)
      | registered _ _ _ _ _ e ↦ rw e (omega arith)
    ]

    -- A reported id is the counter, which moves on.
    reported_id :
        (r' : Registry A) (id : ℕ)
        → lambda_registry_register r name type cache arg malloc ≡ (r', pos id)
        → (id ≡ r.counter) × (r'.counter ≡ id + 1)
    reported_id r' id f = elim outcome [
      | limit_reached _ e ↦ cc (e, f)
      | invalid_name _ _ e ↦ cc (e, f)
      | duplicate _ _ _ e ↦ cc (e, f)
      | no_memory _ _ _ _ e ↦ cc (e, f)
      | registered _ _ _ block _ e ↦
          let q : (stored r name type cache arg block, to_int8 r.counter) ≡ (r', pos id) =
            sym e ∙ f in
          place r'.counter (ap (λ x. x.0.counter) q) (ap (λ x. x.1) q)
    ]
      where
        place :
            (n : ℕ)
            → r.counter + 1 ≡ n
            → to_int8 r.counter ≡ pos id
            → (id ≡ r.counter) × (n ≡ id + 1)
        place n moved here = (ground arith, ground arith)

  counter-step :
      (r : Registry A) (c : Call A) (cs : List (Call A))
      → IsValid r
      → NeverFrees (c ∷ cs)
      → (r.counter ≤ (step r c).counter) × NeverFrees cs
  unfolding step init_lambda_registry
  counter-step r init cs v n = (omega arith, n)
  counter-step r free cs v n = absurd n
  counter-step r (register name type cache arg malloc) cs v n =
      (counter-register r name type cache arg malloc v, n)
  counter-step r (unregister id) cs v n = (omega (arith, counter-unregister r id), n)

  counter-run :
      (r : Registry A) (cs : List (Call A))
      → IsValid r
      → AllSound cs
      → NeverFrees cs
      → r.counter ≤ (run r cs).counter
  unfolding run
  counter-run r [] v s n = omega arith
  counter-run r (c ∷ cs) v s n =
      let (le, n') = counter-step r c cs v n in
      omega (arith, counter-run (step r c) cs (step-IsValid r c s.0 v) s.1 n')

-- Two registrations that report an id, from a valid registry and with any calls but `free`
-- between them (with sound memory), report ids in strictly ascending order: an id that was
-- unregistered is not handed out again.
pub ids_ascend {ℓ} :
    {A : Type ℓ} (r r1 r2 : Registry A) (cs : List (Call A)) (name1 name2 : List ℕ)
    (type1 cache1 type2 cache2 : ℕ) (arg1 arg2 : A) (malloc1 malloc2 : Option Block) (id1 id2 : ℕ)
    → IsValid r
    → IsAllocated malloc1
    → AllSound cs
    → NeverFrees cs
    → lambda_registry_register r name1 type1 cache1 arg1 malloc1 ≡ (r1, pos id1)
    → lambda_registry_register (run r1 cs) name2 type2 cache2 arg2 malloc2 ≡ (r2, pos id2)
    → id1 < id2
unfolding step
ids_ascend r r1 r2 cs name1 name2 type1 cache1 type2 cache2 arg1 arg2 malloc1 malloc2 id1 id2 v s
      sound never e1 e2 =
    omega (
      arith,
      reported_id r name1 type1 cache1 arg1 malloc1 v r1 id1 e1,
      counter-run r1 cs v1 sound never,
      reported_id (run r1 cs) name2 type2 cache2 arg2 malloc2 (run-IsValid r1 cs sound v1) r2 id2
          e2,
    )
  where
    v1 : IsValid r1
    v1 = rw (ap (λ x. x.0) e1) at (step-IsValid r (register name1 type1 cache1 arg1 malloc1) s v)
