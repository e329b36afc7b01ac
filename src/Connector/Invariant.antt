-- ===== src/Connector/Invariant.antt =====
-- The pointers between the registry and the heap stay sound, whatever packets arrive.
use riotsensors.Prelude.{
  refl, ℕ, ◌<◌, ◌≡◌, sym, ◌∙◌, inl, inr, Option, none, some, arith, ◌==◌, length, Bool-cases,
  Option-cases, get_elem?, set, get_elem?-set, get_elem?-lt, get_elem?-some, length-set,
}
use riotsensors.Registry.{RegisteredLambda, slot, get_registered_lambda_by_id}
use riotsensors.Registry.Invariant.{IsValid as IsValidRegistry}
use riotsensors.Registry.Contract.{by_id-slot}
use riotsensors.Connector.State.{
  Cond, destroyed, signals, if_ready, broadcast, LinuxLambda, Connector, update, for_lambda,
}

-- A condition variable that can be waited on.
abbrev pub IsReady : Cond → Type 0
IsReady destroyed = ⊥
IsReady (signals n) = Unit {0}

pub broadcast-IsReady : (w : Cond) → IsReady w → IsReady (broadcast w)
broadcast-IsReady (signals n) h = tt
broadcast-IsReady destroyed h = h

pub if_ready-IsReady : {R : Type 0} (w : Cond) (o : Option R) → IsReady w → if_ready w o ≡ o
if_ready-IsReady destroyed o h = absurd h
if_ready-IsReady (signals n) o h = refl

pub record IsValid {D : Type 0} (c : Connector D) : Type 0 where
  pub registry : IsValidRegistry c.registry
  -- A registered lambda's argument points to a block, which no other lambda shares.
  pub allocated :
      (i : ℕ) (l : RegisteredLambda ℕ) → slot c.registry i ≡ some l → l.arg < length c.heap
  pub separate :
      (i j : ℕ) (l m : RegisteredLambda ℕ)
      → slot c.registry i ≡ some l
      → slot c.registry j ≡ some m
      → l.arg ≡ m.arg
      → i ≡ j
  -- Its condition variable has not been destroyed.
  pub ready :
      (i : ℕ) (l : RegisteredLambda ℕ) (a : LinuxLambda D)
      → slot c.registry i ≡ some l
      → get_elem? c.heap l.arg ≡ some a
      → IsReady a.wait_result

-- What a handler leaves is valid, if its behaviour is defined.
abbrev pub Keeps : {D : Type 0} → Option (Connector D) → Type 0
Keeps none = Unit {0}
Keeps (some c) = IsValid c

pub Keeps-if_ready :
    {D : Type 0} (w : Cond) (o : Option (Connector D)) → Keeps o → Keeps (if_ready w o)
Keeps-if_ready destroyed o k = tt
Keeps-if_ready (signals n) o k = k

module _ {D : Type 0} (c : Connector D) (v : IsValid c) where
  -- A write through the argument of a lambda that leaves its condition variable ready.
  pub set-IsValid :
      (p : ℕ) (a : LinuxLambda D)
      → p < length c.heap
      → IsReady a.wait_result
      → IsValid (record c { heap = set c.heap p a })
  set-IsValid p a lt ok = record {
    registry = v.registry;
    allocated = λ i l e. omega (arith, v.allocated i l e, length-set c.heap p a);
    separate = v.separate;
    ready = λ i l b e f. elim (Bool-cases (p == l.arg)) [
      | inl hit ↦
          let q : some a ≡ some b = sym (rw hit at (get_elem?-set c.heap p l.arg a lt)) ∙ f in
          let same : a ≡ b = cc q in rw (← same) ok
      | inr miss ↦
          let q : get_elem? (set c.heap p a) l.arg ≡ get_elem? c.heap l.arg =
            rw miss at (get_elem?-set c.heap p l.arg a lt) in
          v.ready i l b e (sym q ∙ f)
    ];
  }

  pub read_IsReady :
      (id : ℕ) (l : RegisteredLambda ℕ)
      → get_registered_lambda_by_id c.registry id ≡ some l
      → (a : LinuxLambda D) × (get_elem? c.heap l.arg ≡ some a) × IsReady a.wait_result
  read_IsReady id l at =
      let here : slot c.registry id ≡ some l = sym (by_id-slot c.registry id v.registry) ∙ at in
      let (a, e) = get_elem?-some c.heap l.arg (v.allocated id l here) in
      (a, e, v.ready id l a here e)

  -- A write through the pointer of a lambda that a lookup returned.
  pub update-Keeps :
      (id : ℕ) (l : RegisteredLambda ℕ) (f : LinuxLambda D → LinuxLambda D)
      → get_registered_lambda_by_id c.registry id ≡ some l
      → ((a : LinuxLambda D) → IsReady a.wait_result → IsReady (f a).wait_result)
      → Keeps (update c l.arg f)
  update-Keeps id l f at keep =
      let (a, e, ok) = read_IsReady id l at in
      rw e (
        Keeps-if_ready a.wait_result _
          (set-IsValid l.arg (f a) (get_elem?-lt c.heap l.arg e) (keep a ok)))

  pub for_lambda-Keeps :
      (id : ℕ) (f : RegisteredLambda ℕ → Option (Connector D))
      → ((l : RegisteredLambda ℕ)
          → get_registered_lambda_by_id c.registry id ≡ some l
          → Keeps (f l))
      → Keeps (for_lambda c (get_registered_lambda_by_id c.registry id) f)
  for_lambda-Keeps id f keep = elim (Option-cases (get_registered_lambda_by_id c.registry id)) [
    | inl e ↦ rw e v
    | inr (l, e) ↦ rw e (keep l e)
  ]
