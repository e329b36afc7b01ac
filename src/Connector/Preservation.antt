-- ===== src/Connector/Preservation.antt =====
-- Every branch of `handle_received_packet` keeps the pointers between the registry and the heap sound.
use riotsensors.Prelude.{
  ℕ, ◌+◌, ◌<◌, ◌≡◌, ◌≢◌, sym, ◌∙◌, ◌⊎◌, inl, inr, List, [], ◌∷◌, ◌++◌, Bool, true, false, Option,
  none, some, arith, ◌==◌, ==_iff, length, Bool-cases, Option-cases, if◌then◌else◌, get_elem?, set,
  get_elem?-set_ne, ltb, get_elem?-snoc, get_elem?-lt, length-set, length-append,
}
use riotsensors.Packets.{
  StringResult, ntoh_rs_packet_lambda_result_string_t, ntoh_rs_packet_registered_t,
}
use riotsensors.Packets.Layout.{byte_at, read_registered, read_string}
use riotsensors.Registry.{
  Block, lambda_registry_register, lambda_registry_unregister, RegisteredLambda, slot,
  get_registered_lambda_by_id,
}
use riotsensors.Registry.Invariant.{IsAllocated, register, step, step-IsValid, unregister-IsValid}
use riotsensors.Registry.Contract.{by_id-slot}
use riotsensors.Registry.Slots.{slot-register, slot-unregister}
use riotsensors.Packets.{Host, Doubles}
use riotsensors.Connector.State.{
  Return, Cond, destroyed, signals, if_ready, broadcast, LinuxLambda, Connector, Garbage, Memory,
  new_linux_lambda, update, store_result,
}
use riotsensors.Connector.Call.{handle_all}
use riotsensors.Connector.Handler.{
  on_registered, on_unregistered, on_result_int, on_result_double, on_result_string,
  on_result_error, handle_received_packet, register_with, replace_string, store_string,
  unregister_in,
}
use riotsensors.Connector.Invariant.{
  IsReady, broadcast-IsReady, IsValid, Keeps, set-IsValid, read_IsReady, update-Keeps,
  Keeps-if_ready, for_lambda-Keeps,
}

Keeps-if :
    {D : Type 0} (b : Bool) (x y : Option (Connector D))
    → Keeps x
    → Keeps y
    → Keeps (if b then x else y)
Keeps-if true x y h k = h
Keeps-if false x y h k = k

module _ {D : Type 0} (c : Connector D) (v : IsValid c) where
  registered-IsValid :
      (name : List ℕ) (type cache : ℕ) (block : Option Block) (a : LinuxLambda D)
      → IsAllocated block
      → IsReady a.wait_result
      → IsValid (record {
        registry = (lambda_registry_register c.registry name type cache (length c.heap) block).0;
        heap = c.heap ++ a ∷ [];
      })
  unfolding step
  registered-IsValid name type cache block a s ok = record {
    registry =
        step-IsValid c.registry (register name type cache (length c.heap) block) s v.registry;
    allocated = λ i l e. elim (origin i e) [
      | inl old ↦ omega (arith, v.allocated i l old, grown)
      | inr (_, new) ↦ omega (arith, new, grown)
    ];
    separate = λ i j l m e f same. elim (origin i e) [
      | inl old_i ↦ elim (origin j f) [
        | inl old_j ↦ v.separate i j l m old_i old_j same
        | inr (_, new_j) ↦ absurd (omega (arith, v.allocated i l old_i, new_j, same))
      ]
      | inr (at_i, new_i) ↦ elim (origin j f) [
        | inl old_j ↦ absurd (omega (arith, v.allocated j m old_j, new_i, same))
        | inr (at_j, _) ↦ at_i ∙ sym at_j
      ]
    ];
    ready = λ i l b e f. elim (Bool-cases (length c.heap == l.arg)) [
      | inl hit ↦
          let q : some a ≡ some b = sym (rw hit at (get_elem?-snoc c.heap a l.arg)) ∙ f in
          let same : a ≡ b = cc q in rw (← same) ok
      | inr miss ↦
          let q : get_elem? c.heap l.arg ≡ some b =
            sym (rw miss at (get_elem?-snoc c.heap a l.arg)) ∙ f in
          elim (origin i e) [
            | inl old ↦ v.ready i l b old q
            | inr (_, new) ↦ cc (miss, (==_iff (length c.heap) l.arg).1 (sym new))
          ]
    ];
  }
    where
      grown : length (c.heap ++ a ∷ []) ≡ length c.heap + 1
      grown = length-append c.heap (a ∷ [])

      origin :
          (i : ℕ) {l : RegisteredLambda ℕ}
          → slot (lambda_registry_register c.registry name type cache (length c.heap) block).0 i
            ≡ some l
          → (slot c.registry i ≡ some l) ⊎ ((i ≡ c.registry.counter) × (l.arg ≡ length c.heap))
      origin i e = slot-register c.registry v.registry name type cache (length c.heap) block i e

  on_registered-Keeps :
      (mem : Memory D) (bytes : List ℕ) → IsAllocated mem.block → Keeps (on_registered c mem bytes)
  unfolding on_registered
  on_registered-Keeps mem bytes s = elim (Bool-cases (length bytes == 15)) [
    | inr bad ↦ rw bad v
    | inl good ↦ rw good (stored mem.fresh)
  ]
    where
      stored :
          (g : Option (Garbage D))
          → Keeps (register_with c (ntoh_rs_packet_registered_t (read_registered bytes)) mem g)
      stored none = tt
      stored (some g) = registered-IsValid _ _ _ mem.block (new_linux_lambda g) s tt

  unregistered-IsValid :
      (id : ℕ) (l : RegisteredLambda ℕ) (b : LinuxLambda D)
      → get_registered_lambda_by_id c.registry id ≡ some l
      → IsValid (record {
        registry = (lambda_registry_unregister c.registry id).0;
        heap = set c.heap l.arg b;
      })
  unregistered-IsValid id l b at = record {
    registry = unregister-IsValid c.registry id v.registry;
    allocated = λ i m e. omega (arith, v.allocated i m (left i e).0, length-set c.heap l.arg b);
    separate = λ i j m n e f same. v.separate i j m n (left i e).0 (left j f).0 same;
    ready = λ i m a e f.
        let (old, ne) = left i e in
        let miss : l.arg ≢ m.arg = λ same. ne (sym (v.separate id i l m here old same)) in
        v.ready i m a old (sym (get_elem?-set_ne c.heap l.arg m.arg b miss) ∙ f);
  }
    where
      here : slot c.registry id ≡ some l
      here = sym (by_id-slot c.registry id v.registry) ∙ at

      left :
          (i : ℕ) {m : RegisteredLambda ℕ}
          → slot (lambda_registry_unregister c.registry id).0 i ≡ some m
          → (slot c.registry i ≡ some m) × (i ≢ id)
      left i e = slot-unregister c.registry v.registry id i e

  destroyed-Keeps :
      (w : Cond) (c' : Connector D) (id : ℕ)
      → IsValid (record c' { registry = (lambda_registry_unregister c'.registry id).0 })
      → Keeps (unregister_in c id (if_ready w (some c')))
  destroyed-Keeps destroyed c' id k = tt
  destroyed-Keeps (signals n) c' id k = k

  on_unregistered-Keeps : (bytes : List ℕ) → Keeps (on_unregistered c bytes)
  unfolding on_unregistered
  on_unregistered-Keeps bytes = elim (Bool-cases (length bytes == 14)) [
    | inr bad ↦ rw bad v
    | inl good ↦ rw good (
        for_lambda-Keeps c v (byte_at bytes 1) _ λ l at.
          let (a, e, _) = read_IsReady c v (byte_at bytes 1) l at in
          rw e (
            destroyed-Keeps a.wait_result _ (byte_at bytes 1)
              (unregistered-IsValid (byte_at bytes 1) l _ at)))
  ]

  store_result-Keeps :
      (id : ℕ) (l : RegisteredLambda ℕ) (r : Return D)
      → get_registered_lambda_by_id c.registry id ≡ some l
      → Keeps (update c l.arg (store_result r))
  store_result-Keeps id l r at =
      update-Keeps c v id l (store_result r) at (λ a ok. broadcast-IsReady a.wait_result ok)

  module _ (h : Host) (d : Doubles D) where
    on_result_int-Keeps : (bytes : List ℕ) → Keeps (on_result_int h d c bytes)
    unfolding on_result_int
    on_result_int-Keeps bytes = elim (Bool-cases (length bytes == 18)) [
      | inr bad ↦ rw bad v
      | inl good ↦
          rw good (for_lambda-Keeps c v (byte_at bytes 1) _ λ l at. store_result-Keeps _ l _ at)
    ]

    on_result_double-Keeps : (bytes : List ℕ) → Keeps (on_result_double h d c bytes)
    unfolding on_result_double
    on_result_double-Keeps bytes = elim (Bool-cases (length bytes == 22)) [
      | inr bad ↦ rw bad v
      | inl good ↦
          rw good (for_lambda-Keeps c v (byte_at bytes 1) _ λ l at. store_result-Keeps _ l _ at)
    ]

    on_result_error-Keeps : (bytes : List ℕ) → Keeps (on_result_error h d c bytes)
    unfolding on_result_error
    on_result_error-Keeps bytes = elim (Bool-cases (length bytes == 15)) [
      | inr bad ↦ rw bad v
      | inl good ↦ rw good (
          for_lambda-Keeps c v (byte_at bytes 1) _
            λ l at. update-Keeps c v _ l _ at (λ a ok. broadcast-IsReady a.wait_result ok))
    ]

    replace_string-wait_result :
        (mem : Memory D) (s : StringResult) (a b : LinuxLambda D)
        → replace_string h d mem s a ≡ some b
        → b.wait_result ≡ broadcast a.wait_result
    replace_string-wait_result mem s a b e = ground arith

    replaced :
        (mem : Memory D) (p : ℕ) (s : StringResult) (a : LinuxLambda D)
        → p < length c.heap
        → IsReady a.wait_result
        → Keeps (store_string h d c p (replace_string h d mem s a))
    replaced mem p s a lt ok = elim (Option-cases (replace_string h d mem s a)) [
      | inl e ↦ rw e tt
      | inr (b, e) ↦ rw e (
          set-IsValid c v p b lt
            (rw (replace_string-wait_result mem s a b e) (broadcast-IsReady a.wait_result ok)))
    ]

    on_result_string-Keeps :
        (mem : Memory D) (bytes : List ℕ) → Keeps (on_result_string h d c mem bytes)
    unfolding on_result_string
    on_result_string-Keeps mem bytes = elim (Bool-cases (ltb (length bytes) 17)) [
      | inl bad ↦ rw bad v
      | inr good ↦ rw good (elim (Bool-cases mem.copy) [
        | inr full ↦ rw full tt
        | inl copied ↦ rw copied (
            for_lambda-Keeps c v (byte_at bytes 1) _ λ l at.
              let (a, e, ok) = read_IsReady c v (byte_at bytes 1) l at in
              rw e (
                Keeps-if_ready a.wait_result _ (
                  replaced mem l.arg (ntoh_rs_packet_lambda_result_string_t h (read_string h bytes))
                    a (get_elem?-lt c.heap l.arg e) ok)))
      ])
    ]

    handle_received_packet-Keeps :
        (mem : Memory D) (bytes : List ℕ)
        → IsAllocated mem.block
        → Keeps (handle_received_packet h d c mem bytes)
    unfolding handle_received_packet
    handle_received_packet-Keeps mem bytes s = Keeps-if (ltb (length bytes) 1) _ _ v (
        Keeps-if (tag == 1) _ _ (on_registered-Keeps mem bytes s) (
          Keeps-if (tag == 2) _ _ (on_unregistered-Keeps bytes) (
            Keeps-if (tag == 6) _ _ (on_result_int-Keeps bytes) (
              Keeps-if (tag == 7) _ _ (on_result_double-Keeps bytes) (
                Keeps-if (tag == 8) _ _ (on_result_string-Keeps mem bytes)
                  (Keeps-if (tag == 5) _ _ (on_result_error-Keeps bytes) v))))))
      where
        tag : ℕ
        tag = byte_at bytes 0

-- Whatever packet arrives, if its handling is defined it leaves a valid connector: a valid registry,
-- each lambda with a block of its own on the heap, and a condition variable that can be waited on.
pub handle_received_packet-IsValid :
    {D : Type 0} (h : Host) (d : Doubles D) (c c' : Connector D) (mem : Memory D) (bytes : List ℕ)
    → IsValid c
    → IsAllocated mem.block
    → handle_received_packet h d c mem bytes ≡ some c'
    → IsValid c'
handle_received_packet-IsValid h d c c' mem bytes v s e =
    rw e at (handle_received_packet-Keeps c v h d mem bytes s)

abbrev pub AllAllocated : {D : Type 0} → List (Memory D × List ℕ) → Type 0
AllAllocated [] = Unit {0}
AllAllocated ((mem, bytes) ∷ rest) = IsAllocated mem.block × AllAllocated rest

-- For any valid connector and any packets that are handled in order, with `malloc` returning NULL
-- or a block of the size asked for: if no step is undefined, the connector is valid afterwards:
-- its registry is valid, every registered lambda has a block of the heap of its own, and the
-- condition variable in it has not been destroyed.
pub handle_all-IsValid :
    {D : Type 0} (h : Host) (d : Doubles D) (c c' : Connector D)
    (packets : List (Memory D × List ℕ))
    → IsValid c
    → AllAllocated packets
    → handle_all h d c packets ≡ some c'
    → IsValid c'
unfolding handle_all
handle_all-IsValid h d c c' [] v s e =
    let q : some c ≡ some c' = e in let p : c ≡ c' = cc q in rw p at v
handle_all-IsValid h d c c' ((mem, bytes) ∷ rest) v s e =
    elim (Option-cases (handle_received_packet h d c mem bytes)) [
      | inl f ↦ let g : none ≡ some c' = rw (f, handle_all) at e in cc g
      | inr (c1, f) ↦
          handle_all-IsValid h d c1 c' rest
            (handle_received_packet-IsValid h d c c1 mem bytes v s.0 f) s.1
            (rw (f, handle_all) at e)
    ]
