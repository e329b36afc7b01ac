-- ===== src/Connector/Waits.antt =====
-- Calls that send a packet and wait: `wait_lambda_result` of rs_connector.c, with the packets that
-- `handle_received_packet` handles meanwhile.
use riotsensors.Prelude.{
  sym, ℕ, ◌^◌, ◌<◌, ◌≡◌, ◌≢◌, refl, ap, ◌∙◌, ◌⊎◌, inl, inr, List, [], ◌∷◌, ◌++◌, true, false, none,
  some, arith, ◌==◌, ==_iff, Bool-cases, Option-cases, get_elem?, if_both,
}
use riotsensors.Prelude.Int.{pos}
use riotsensors.Constants.{rs_call_success, rs_call_cache, rs_call_cache_timeout}
use riotsensors.Registry.{RegisteredLambda, Registry, get_registered_lambda_by_id}
use riotsensors.Registry.Invariant.{IsAllocated}
use riotsensors.Packets.{Host, Doubles, IntResult, hton_rs_packet_lambda_result_int_t}
use riotsensors.Packets.Layout.{int_bytes}
use riotsensors.Packets.RoundTrip.{IsNameArray}
use riotsensors.Connector.State.{ret_i, LinuxLambda, Connector, Memory}
use riotsensors.Connector.Handler.{handle_received_packet}
use riotsensors.Connector.Call.{
  Wait, check_lambda_cache, timed_out_result, wait_lambda_result, reply, replied,
  call_by_id_request, handle_all, call_lambda_by_id, is_same, is_registered,
}
use riotsensors.Connector.Invariant.{IsValid, read_IsReady, if_ready-IsReady}
use riotsensors.Registry.Contract.{by_id-slot}
use riotsensors.Connector.Preservation.{
  AllAllocated, handle_all-IsValid, handle_received_packet-IsValid,
}
use riotsensors.Connector.Results.{Stores, int_result-Stores}

still :
    (r r' : Registry ℕ) (id : ℕ)
    → r' ≡ r
    → get_registered_lambda_by_id r' id ≡ get_registered_lambda_by_id r id
still r r' id e = ap (λ s. get_registered_lambda_by_id s id) e

module _ {D : Type 0} where
  -- A lambda whose cache policy makes every call ask the board.
  unasked_false :
      (l : RegisteredLambda ℕ) (a : LinuxLambda D)
      → l.cache ≢ 2
      → l.cache ≢ 3
      → check_lambda_cache l a ≡ (pos 0, none)
  unfolding check_lambda_cache
  unasked_false l a not_once not_only = elim (Bool-cases (l.cache == 2)) [
    | inl once ↦ absurd (not_once ((==_iff _ _).0 once))
    | inr other ↦ elim (Bool-cases (l.cache == 3)) [
      | inl only ↦ absurd (not_only ((==_iff _ _).0 only))
      | inr timeout ↦ rw (other, timeout) (if_both (l.cache == 1) _ _ _ (λ _. refl) (λ _. refl))
    ]
  ]

module _ {D : Type 0} (h : Host) (d : Doubles D) where
  pub handle_all-append :
      (c : Connector D) (before after : List (Memory D × List ℕ)) {c' : Connector D}
      → handle_all h d c before ≡ some c'
      → handle_all h d c (before ++ after) ≡ handle_all h d c' after
  unfolding handle_all
  handle_all-append c [] after {c'} e =
      let q : some c ≡ some c' = e in let p : c ≡ c' = cc q in rw p refl
  handle_all-append c ((mem, bytes) ∷ before) after {c'} e =
      elim (Option-cases (handle_received_packet h d c mem bytes)) [
        | inl fault ↦ let q : none ≡ some c' = rw (fault, handle_all) at e in cc q
        | inr (c1, ok) ↦
            rw (ok, handle_all) (handle_all-append c1 before after (rw (ok, handle_all) at e))
      ]

  -- What the answer is made of, once the packets of the wait are handled.
  pub asked :
      (c : Connector D) (id expected_type : ℕ) (w : Wait D) (l : RegisteredLambda ℕ)
      {block : List ℕ} {c' : Connector D}
      → IsValid c
      → get_registered_lambda_by_id c.registry id ≡ some l
      → l.type ≡ expected_type
      → l.cache ≢ 2
      → l.cache ≢ 3
      → w.request ≡ some block
      → handle_all h d c w.during ≡ some c'
      → get_registered_lambda_by_id c'.registry id ≡ some l
      → call_lambda_by_id h d c id expected_type w
        ≡ replied (call_by_id_request id expected_type ∷ []) (wait_lambda_result c' l w.timed_out)
  unfolding call_lambda_by_id
  asked c id expected_type w l {c' = c'} v at typed not_once not_only block handled kept =
      let (a, here, ok) = read_IsReady c v id l at in
      let same : (l.type == expected_type) ≡ true = (==_iff _ _).1 typed in
      let own : l.id ≡ id =
        v.registry.own_id id l (sym (by_id-slot c.registry id v.registry) ∙ at) in
      let registered : is_registered c'.registry l ≡ true =
        ap (is_same l) (ap (get_registered_lambda_by_id c'.registry) own ∙ kept)
        ∙ (==_iff l.arg l.arg).1 refl in
      rw (at, same, here, unasked_false l a not_once not_only, block, handled, registered)
        (if_ready-IsReady a.wait_result _ ok)

  -- For a valid connector, a registered integer lambda whose policy is neither CALL_ONCE nor
  -- ONLY, memory for the request, and a wait in which any packets are handled and then an
  -- integer result for the lambda, still registered, wakes the call: the call returns
  -- RS_CALL_SUCCESS and the value of that packet, has sent only its request, and the value is
  -- cached with no error while the rest of the heap is unchanged.
  pub fresh_result :
      (c c1 : Connector D) (w : Wait D) (l : RegisteredLambda ℕ) (p : IntResult) (mem : Memory D)
      (before : List (Memory D × List ℕ)) {block : List ℕ}
      → IsValid c
      → AllAllocated before
      → get_registered_lambda_by_id c.registry p.base.lambda_id ≡ some l
      → l.type ≡ 1
      → l.cache ≢ 2
      → l.cache ≢ 3
      → w.request ≡ some block
      → w.timed_out ≡ false
      → w.during ≡ before ++ (mem, int_bytes h (hton_rs_packet_lambda_result_int_t p)) ∷ []
      → handle_all h d c before ≡ some c1
      → get_registered_lambda_by_id c1.registry p.base.lambda_id ≡ some l
      → p.base.ptype ≡ 6
      → IsNameArray p.base.name
      → p.result < 256 ^ 4
      → (c' : Connector D) × (call_lambda_by_id h d c p.base.lambda_id 1 w
          ≡ some (
            c',
            record {
              code = rs_call_success;
              result = some (ret_i p.result);
              sent = call_by_id_request p.base.lambda_id 1 ∷ [];
            },
          ))
        × Stores c1 c' l (ret_i p.result)
  unfolding wait_lambda_result handle_all
  fresh_result c c1 w l p mem before v s at typed not_once not_only block woken packets ran kept_in
        tag named lt =
      let v1 = handle_all-IsValid h d c c1 before v s ran in
      let (c', e, kept) = int_result-Stores h d c1 v1 mem p l tag named lt kept_in in
      let (a, here, _, _, value) = kept.stored in
      (
        c',
        asked c p.base.lambda_id 1 w l v at typed not_once not_only block (handled c' e)
              (still c1.registry c'.registry p.base.lambda_id kept.registry ∙ kept_in)
            ∙ rw (woken, here, value) refl,
        kept,
      )
    where
      handled :
          (c' : Connector D)
          → handle_received_packet h d c1 mem (int_bytes h (hton_rs_packet_lambda_result_int_t p))
            ≡ some c'
          → handle_all h d c w.during ≡ some c'
      handled c' e = rw packets (handle_all-append c before _ ran ∙ rw (e, handle_all) refl)

  cached_answer :
      (c : Connector D) (id : ℕ) (w : Wait D) (l : RegisteredLambda ℕ) (a : LinuxLambda D)
      → get_registered_lambda_by_id c.registry id ≡ some l
      → l.type ≡ 1
      → (l.cache ≡ 2) ⊎ (l.cache ≡ 3)
      → get_elem? c.heap l.arg ≡ some a
      → a.data_cached ≡ true
      → call_lambda_by_id h d c id 1 w ≡ reply c rs_call_cache (some a.ret)
  unfolding call_lambda_by_id check_lambda_cache
  cached_answer c id w l a at typed (inl once) here hit = rw (at, typed, here, once, hit) refl
  cached_answer c id w l a at typed (inr only) here hit = rw (at, typed, here, only, hit) refl

  -- After an integer result for a registered integer lambda of a valid connector, a call under
  -- CALL_ONCE or ONLY returns RS_CALL_CACHE and the value of that packet, sends nothing and
  -- changes nothing, whatever would happen in a wait.
  pub cached_result :
      (c : Connector D) (w : Wait D) (l : RegisteredLambda ℕ) (p : IntResult) (mem : Memory D)
      → IsValid c
      → get_registered_lambda_by_id c.registry p.base.lambda_id ≡ some l
      → l.type ≡ 1
      → p.base.ptype ≡ 6
      → IsNameArray p.base.name
      → p.result < 256 ^ 4
      → (c' : Connector D) × (handle_received_packet h d c mem
            (int_bytes h (hton_rs_packet_lambda_result_int_t p))
          ≡ some c')
        × ((l.cache ≡ 2) ⊎ (l.cache ≡ 3)
            → call_lambda_by_id h d c' p.base.lambda_id 1 w
              ≡ reply c' rs_call_cache (some (ret_i p.result)))
  cached_result c w l p mem v at typed tag named lt =
      let (c', e, kept) = int_result-Stores h d c v mem p l tag named lt at in
      let (a, here, hit, _, value) = kept.stored in
      (
        c',
        e,
        λ policy.
            cached_answer c' p.base.lambda_id w l a
              (still c.registry c'.registry p.base.lambda_id kept.registry ∙ at) typed policy here
              hit
            ∙ rw value refl,
      )

  -- After an integer result for a registered integer lambda of the policy ON_TIMEOUT in a valid
  -- connector, a call that sends its request and times out without a packet returns
  -- RS_CALL_CACHE_TIMEOUT and the value of the earlier packet, and changes nothing.
  pub result_on_timeout :
      (c : Connector D) (w : Wait D) (l : RegisteredLambda ℕ) (p : IntResult) (mem : Memory D)
      {block : List ℕ}
      → IsValid c
      → IsAllocated mem.block
      → get_registered_lambda_by_id c.registry p.base.lambda_id ≡ some l
      → l.type ≡ 1
      → l.cache ≡ 4
      → w.request ≡ some block
      → w.during ≡ []
      → w.timed_out ≡ true
      → p.base.ptype ≡ 6
      → IsNameArray p.base.name
      → p.result < 256 ^ 4
      → (c' : Connector D) × (handle_received_packet h d c mem
            (int_bytes h (hton_rs_packet_lambda_result_int_t p))
          ≡ some c')
        × (call_lambda_by_id h d c' p.base.lambda_id 1 w
            ≡ some (
              c',
              record {
                code = rs_call_cache_timeout;
                result = some (ret_i p.result);
                sent = call_by_id_request p.base.lambda_id 1 ∷ [];
              },
            ))
  unfolding wait_lambda_result timed_out_result handle_all
  result_on_timeout c w l p mem v s at typed policy block none_during late tag named lt =
      let (c', e, kept) = int_result-Stores h d c v mem p l tag named lt at in
      let (a, here, hit, no_error, value) = kept.stored in
      let v' = handle_received_packet-IsValid h d c c' mem _ v s e in
      (
        c',
        e,
        asked c' p.base.lambda_id 1 w l {c' = c'} v'
              (still c.registry c'.registry p.base.lambda_id kept.registry ∙ at) typed
              (λ q. omega (arith, policy, q)) (λ q. omega (arith, policy, q)) block
              (rw none_during refl)
              (still c.registry c'.registry p.base.lambda_id kept.registry ∙ at)
            ∙ rw (late, here, no_error, policy, hit, value) refl,
      )
