-- ===== src/Rest/Registered.antt =====
-- The lambda of a call that does not fail.
use riotsensors.Prelude.{
  ℕ, ◌≡◌, refl, ap, sym, ◌∙◌, inl, inr, List, [], ◌∷◌, Bool, true, false, Option, none, some,
  Bool-cases, Option-cases, get_elem?, set,
}
use riotsensors.Prelude.Int.{ℤ, pos, is_negative}
use riotsensors.Constants.{rs_call_success}
use riotsensors.Registry.{RegisteredLambda, get_registered_lambda_by_id}
use riotsensors.Registry.Contract.{by_id-slot}
use riotsensors.Packets.{Host, Doubles}
use riotsensors.Connector.State.{Return, LinuxLambda, Connector}
use riotsensors.Connector.Call.{
  Reply, Wait, is_error, is_same, is_registered, handle_all, after_wait, wait_lambda_result,
  timed_out_result, replied, wait_for, send_and_wait, call_lambda_by_id, reply, call_by_id_request,
}
use riotsensors.Connector.Invariant.{IsValid}
use riotsensors.Connector.Answers.{
  Answers, not_found as unknown, wrong_type, from_cache, cache_empty, asks,
  call_lambda_by_id-Answers,
}

pair_of : {A : Type 0} {a b : A} → some a ≡ some b → a ≡ b
pair_of e = cc e

module _ {D : Type 0} where
  -- What a wait returns leaves the registry alone.
  after_wait_registry :
      (c : Connector D) (l : RegisteredLambda ℕ) (timed_out : Bool) (o : Option (LinuxLambda D))
      {x : Connector D × ℤ × Option (Return D)}
      → after_wait c l timed_out o ≡ some x
      → x.0.registry ≡ c.registry
  after_wait_registry c l timed_out none e = cc
  after_wait_registry c l false (some a) {x} e =
      let q : some (c, rs_call_success, some a.ret) ≡ some x = e in
      ap (λ t. t.0.registry) (sym (pair_of q))
  after_wait_registry c l true (some a) {x} e = elim (Bool-cases (is_error a.last_call_error)) [
    | inl failed ↦
        let q : some (
          record c { heap = set c.heap l.arg (record a { last_call_error = pos 0 }) },
          a.last_call_error,
          none,
        )
            ≡ some x =
          rw failed at e in
        ap (λ t. t.0.registry) (sym (pair_of q))
    | inr fine ↦
        let q : some (c, (timed_out_result l a).0, (timed_out_result l a).1) ≡ some x =
          rw fine at e in
        ap (λ t. t.0.registry) (sym (pair_of q))
  ]

  replied_inv :
      (sent : List (List ℕ)) (o : Option (Connector D × ℤ × Option (Return D))) {c : Connector D}
      {r : Reply D}
      → replied sent o ≡ some (c, r)
      → (code : ℤ) × (result : Option (Return D)) × (o ≡ some (c, code, result))
  replied_inv sent none e = cc
  replied_inv sent (some (c1, code, result)) {c} {r} e =
      let q : some (c1, record { code = code; result = result; sent = sent }) ≡ some (c, r) = e in
      (code, result, ap (λ t. some (t.0, code, result)) (pair_of q))

module _ {D : Type 0} (h : Host) (d : Doubles D) (c : Connector D) (l : RegisteredLambda ℕ)
    (request : List ℕ → Option (List ℕ)) (w : Wait D) where
  wait_for-registered :
      (packet : List ℕ) (o : Option (Connector D)) {c' : Connector D} {r : Reply D}
      → wait_for h d l packet w.timed_out o ≡ some (c', r)
      → is_registered c'.registry l ≡ true
  unfolding wait_lambda_result
  wait_for-registered packet none e = cc
  wait_for-registered packet (some c1) {c'} {r} e =
      elim (Bool-cases (is_registered c1.registry l)) [
        | inl there ↦
            let (code, result, q) =
              replied_inv (packet ∷ []) (wait_lambda_result c1 l w.timed_out) (rw there at e) in
            ap (λ t. is_registered t l)
              (after_wait_registry c1 l w.timed_out (get_elem? c1.heap l.arg) q)
            ∙ there
        | inr gone ↦ let q : none ≡ some (c', r) = rw gone at e in cc q
      ]

  send_and_wait-registered :
      (o : Option (List ℕ)) {c' : Connector D} {r : Reply D}
      → send_and_wait h d c l request w o ≡ some (c', r)
      → is_registered c'.registry l ≡ true
  send_and_wait-registered none e = cc
  send_and_wait-registered (some block) {c'} {r} e = elim (Option-cases (request block)) [
    | inl overflow ↦ let q : none ≡ some (c', r) = rw overflow at e in cc q
    | inr (packet, made) ↦ wait_for-registered packet (handle_all h d c w.during) (rw made at e)
  ]

module _ {D : Type 0} (h : Host) (d : Doubles D) (c : Connector D) (v : IsValid c) where
  is_same_inv :
      (l : RegisteredLambda ℕ) (o : Option (RegisteredLambda ℕ))
      → is_same l o ≡ true
      → (m : RegisteredLambda ℕ) × (o ≡ some m)
  is_same_inv l none e = cc
  is_same_inv l (some m) e = (m, refl)

  -- After a call that does not fail, the lambda is still registered under its id.
  pub call_lambda_by_id-registered :
      (id type : ℕ) (w : Wait D) {c' : Connector D} {r : Reply D}
      → call_lambda_by_id h d c id type w ≡ some (c', r)
      → is_negative r.code ≡ false
      → (l : RegisteredLambda ℕ) × (get_registered_lambda_by_id c'.registry id ≡ some l)
  call_lambda_by_id-registered id type w {c'} {r} e fine =
      cases (call_lambda_by_id-Answers h d c v id type w)
    where
      code_of :
          {code : ℤ} {result : Option (Return D)}
          → call_lambda_by_id h d c id type w ≡ reply c code result
          → (c' ≡ c) × (r.code ≡ code)
      code_of p = let q = pair_of (sym e ∙ p) in (ap (λ t. t.0) q, ap (λ t. t.1.code) q)

      cases :
          Answers h d c type
            (λ _. some (call_by_id_request id type))
            w
            (get_registered_lambda_by_id c.registry id)
            (call_lambda_by_id h d c id type w)
          → (l : RegisteredLambda ℕ) × (get_registered_lambda_by_id c'.registry id ≡ some l)
      cases (unknown _ p) = let q = code_of p in cc (ap is_negative q.1, fine)
      cases (wrong_type l at other p) = let q = code_of p in cc (ap is_negative q.1, fine)
      cases (from_cache l a at typed policy here hit p) =
          let q = code_of p in (l, ap (λ t. get_registered_lambda_by_id t.registry id) q.0 ∙ at)
      cases (cache_empty l a at typed policy here miss p) =
          let q = code_of p in cc (ap is_negative q.1, fine)
      cases (asks l a at typed policy here miss p) =
          let same =
            send_and_wait-registered h d c l (λ _. some (call_by_id_request id type)) w w.request
              (sym p ∙ e) in
          let own : l.id ≡ id =
            v.registry.own_id id l (sym (by_id-slot c.registry id v.registry) ∙ at) in
          let (m, there) = is_same_inv l (get_registered_lambda_by_id c'.registry l.id) same in
          (m, ap (get_registered_lambda_by_id c'.registry) (sym own) ∙ there)
