-- ===== src/Registry/Slots.antt =====
-- Where a lambda that is in the array after a call comes from.
use riotsensors.Prelude.{
  ℕ, ◌≡◌, ◌≢◌, ap, sym, ◌∙◌, ◌⊎◌, inl, inr, List, Option, none, some, arith, ◌==◌, ==_iff,
  Bool-cases, Option-cases, if◌then◌else◌, get_or-set,
}
use riotsensors.Prelude.Int.{ℤ}
use riotsensors.Registry.{
  RegisteredLambda, Block, Registry, slot, new_lambda, lambda_registry_register,
  lambda_registry_unregister, get_registered_lambda_by_id,
}
use riotsensors.Registry.Register.{
  Registers, limit_reached, invalid_name, duplicate, no_memory, registered, stored,
  lambda_registry_register-Registers,
}
use riotsensors.Registry.Invariant.{IsValid, unregister-IsValid}
use riotsensors.Registry.Contract.{by_id-slot}
use riotsensors.Registry.Removal.{unregister-Removes, unregister_unknown}

module _ {ℓ} {A : Type ℓ} (r : Registry A) (v : IsValid r) where
  -- After a registration a lambda was there before, or it is the new one at the counter.
  pub slot-register :
      (name : List ℕ) (type cache : ℕ) (arg : A) (malloc : Option Block) (i : ℕ)
      {l : RegisteredLambda A}
      → slot (lambda_registry_register r name type cache arg malloc).0 i ≡ some l
      → (slot r i ≡ some l) ⊎ ((i ≡ r.counter) × (l.arg ≡ arg))
  slot-register name type cache arg malloc i {l} at = origin (
      lambda_registry_register-Registers r name type cache arg malloc
        (v.above r.counter (omega arith)))
    where
      q : Registry A × ℤ
      q = lambda_registry_register r name type cache arg malloc

      same : {x : ℤ} → q ≡ (r, x) → slot r i ≡ some l
      same e = ap (λ t. slot t.0 i) (sym e) ∙ at

      origin :
          Registers r name type cache arg malloc q
          → (slot r i ≡ some l) ⊎ ((i ≡ r.counter) × (l.arg ≡ arg))
      origin (limit_reached _ e) = inl (same e)
      origin (invalid_name _ _ e) = inl (same e)
      origin (duplicate _ _ _ e) = inl (same e)
      origin (no_memory _ _ _ _ e) = inl (same e)
      origin (registered room _ _ block _ e) =
          placed (get_or-set r.slots r.counter i (some new) none (omega (arith, v.sized)))
            (ap (λ t. slot t.0 i) (sym e) ∙ at)
        where
          new : RegisteredLambda A
          new = new_lambda r.counter name type cache arg block

          placed :
              slot (stored r name type cache arg block) i
                ≡ (if r.counter == i then some new else slot r i)
              → slot (stored r name type cache arg block) i ≡ some l
              → (slot r i ≡ some l) ⊎ ((i ≡ r.counter) × (l.arg ≡ arg))
          placed here e' = elim (Bool-cases (r.counter == i)) [
            | inl hit ↦
                let p : slot (stored r name type cache arg block) i ≡ some new = rw hit at here in
                let same_lambda : new ≡ l = cc (p, e') in
                inr (sym ((==_iff r.counter i).0 hit), sym (ap (λ t. t.arg) same_lambda))
            | inr miss ↦
                let p : slot (stored r name type cache arg block) i ≡ slot r i = rw miss at here in
                inl (sym p ∙ e')
          ]

  -- After an unregistration a lambda was there before, at another id.
  pub slot-unregister :
      (id i : ℕ) {l : RegisteredLambda A}
      → slot (lambda_registry_unregister r id).0 i ≡ some l
      → (slot r i ≡ some l) × (i ≢ id)
  slot-unregister id i {l} at = elim (Option-cases (get_registered_lambda_by_id r id)) [
    | inl unknown ↦
        let here : slot r i ≡ some l =
          ap (λ t. slot t.0 i) (sym (unregister_unknown r id v unknown)) ∙ at in
        (here, λ p. cc (unknown, by_id-slot r id v, ap (slot r) p, here))
    | inr (m, known) ↦
        let (r', e, gone, _) = unregister-Removes r id m v known in
        let valid : IsValid r' = rw (ap (λ t. t.0) e) at (unregister-IsValid r id v) in
        let here : get_registered_lambda_by_id r' i ≡ some l =
          by_id-slot r' i valid ∙ ap (λ t. slot t.0 i) (sym e) ∙ at in
        let ne : i ≢ id = λ p. cc (gone.removed, ap (get_registered_lambda_by_id r') p, here) in
        (sym (by_id-slot r i v) ∙ sym (gone.others i ne) ∙ here, ne)
  ]
