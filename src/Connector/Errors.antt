-- ===== src/Connector/Errors.antt =====
-- Error packets of a board during a wait: `handle_received_packet` and `wait_lambda_result` of
-- rs_connector.c.
use riotsensors.Prelude.{
  ℕ, ◌≡◌, ◌≢◌, refl, ap, ◌∙◌, List, [], ◌∷◌, true, false, none, some, arith, ==_iff, length,
  length-append, get_elem?, get_elem?-set, get_elem?-lt, set,
}
use riotsensors.Prelude.Int.{pos, to_int8}
use riotsensors.Constants.{rs_call_success}
use riotsensors.Registry.{RegisteredLambda, get_registered_lambda_by_id}
use riotsensors.Packets.{
  Host, Doubles, ErrorResult, hton_rs_packet_lambda_result_error_t,
  ntoh_rs_packet_lambda_result_error_t,
}
use riotsensors.Packets.Layout.{error_bytes, read_error, result_bytes}
use riotsensors.Packets.RoundTrip.{IsNameArray, error_round_trip}
use riotsensors.Connector.State.{LinuxLambda, Connector, Memory, broadcast}
use riotsensors.Connector.Handler.{handle_received_packet, on_result_error}
use riotsensors.Connector.Call.{
  Wait, is_error, wait_lambda_result, call_by_id_request, handle_all, call_lambda_by_id,
}
use riotsensors.Connector.Invariant.{IsValid, IsReady, read_IsReady, if_ready-IsReady}
use riotsensors.Connector.Waits.{asked}

module _ {D : Type 0} where
  -- The block of a lambda after an error packet.
  abbrev with_error : ErrorResult → LinuxLambda D → LinuxLambda D
  with_error p a = record a {
    last_call_error = to_int8 p.error_code;
    wait_result = broadcast a.wait_result;
  }

  get_elem?-set_self :
      (xs : List (LinuxLambda D)) (i : ℕ) (a b : LinuxLambda D)
      → get_elem? xs i ≡ some a
      → get_elem? (set xs i b) i ≡ some b
  get_elem?-set_self xs i a b e =
      get_elem?-set xs i i b (get_elem?-lt xs i e) ∙ rw ((==_iff i i).1 refl) refl

module _ {D : Type 0} (h : Host) (d : Doubles D) (c : Connector D) (v : IsValid c) where
  error_stored :
      (mem : Memory D) (p : ErrorResult) (l : RegisteredLambda ℕ) (a : LinuxLambda D)
      → p.base.ptype ≡ 5
      → IsNameArray p.base.name
      → get_registered_lambda_by_id c.registry p.base.lambda_id ≡ some l
      → get_elem? c.heap l.arg ≡ some a
      → handle_received_packet h d c mem (error_bytes (hton_rs_packet_lambda_result_error_t p))
        ≡ some (record c { heap = set c.heap l.arg (with_error p a) })
  unfolding handle_received_packet on_result_error
  error_stored mem p l a tag named at here =
      rw (at, here, code, size, tag) (if_ready-IsReady a.wait_result _ ready)
    where
      ready : IsReady a.wait_result
      ready =
          let (b, e, ok) = read_IsReady c v p.base.lambda_id l at in
          let q : b ≡ a = cc (e, here) in rw q at ok

      code :
          (ntoh_rs_packet_lambda_result_error_t
            (read_error (error_bytes (hton_rs_packet_lambda_result_error_t p)))).error_code
          ≡ p.error_code
      code = ap (λ q. q.error_code) (error_round_trip p named)

      size : length (error_bytes p) ≡ 15
      size = omega (arith, length-append (result_bytes p.base) (p.error_code ∷ []), named)

module _ {D : Type 0} (h : Host) (d : Doubles D) (c : Connector D) (v : IsValid c) (w : Wait D)
    (l : RegisteredLambda ℕ) (p : ErrorResult) (mem : Memory D) {block : List ℕ} where
  -- In a valid connector, a call under a policy other than CALL_ONCE and ONLY which an error
  -- packet wakes returns RS_CALL_SUCCESS and whatever value the block held before, and leaves
  -- the error code stored.
  pub error_woken :
      (a : LinuxLambda D)
      → get_registered_lambda_by_id c.registry p.base.lambda_id ≡ some l
      → l.cache ≢ 2
      → l.cache ≢ 3
      → w.request ≡ some block
      → w.during ≡ (mem, error_bytes (hton_rs_packet_lambda_result_error_t p)) ∷ []
      → w.timed_out ≡ false
      → p.base.ptype ≡ 5
      → IsNameArray p.base.name
      → get_elem? c.heap l.arg ≡ some a
      → call_lambda_by_id h d c p.base.lambda_id l.type w
        ≡ some (
          record c { heap = set c.heap l.arg (with_error p a) },
          record {
            code = rs_call_success;
            result = some a.ret;
            sent = call_by_id_request p.base.lambda_id l.type ∷ [];
          },
        )
  unfolding wait_lambda_result handle_all
  error_woken a at not_once not_only block packets woken tag named here =
      asked h d c p.base.lambda_id l.type w l
        {c' = record c { heap = set c.heap l.arg (with_error p a) }} v at refl not_once not_only
        block (rw packets (rw (error_stored h d c v mem p l a tag named at here, handle_all) refl))
        at
      ∙ rw (woken, get_elem?-set_self c.heap l.arg a (with_error p a) here) refl

  -- In a valid connector, a call under a policy other than CALL_ONCE and ONLY in whose wait an
  -- error packet with a non-zero code arrives, and which times out, returns that code as an
  -- `int8_t` and no value, and leaves the stored error cleared.
  pub error_timed_out :
      (a : LinuxLambda D)
      → get_registered_lambda_by_id c.registry p.base.lambda_id ≡ some l
      → l.cache ≢ 2
      → l.cache ≢ 3
      → w.request ≡ some block
      → w.during ≡ (mem, error_bytes (hton_rs_packet_lambda_result_error_t p)) ∷ []
      → w.timed_out ≡ true
      → p.base.ptype ≡ 5
      → IsNameArray p.base.name
      → is_error (to_int8 p.error_code) ≡ true
      → get_elem? c.heap l.arg ≡ some a
      → (c' : Connector D) × (call_lambda_by_id h d c p.base.lambda_id l.type w
          ≡ some (
            c',
            record {
              code = to_int8 p.error_code;
              result = none;
              sent = call_by_id_request p.base.lambda_id l.type ∷ [];
            },
          ))
        × (get_elem? c'.heap l.arg
            ≡ some (record a { last_call_error = pos 0; wait_result = broadcast a.wait_result }))
  unfolding wait_lambda_result handle_all
  error_timed_out a at not_once not_only block packets late tag named error here = (
    record c {
      heap =
          set (set c.heap l.arg (with_error p a)) l.arg
            (record (with_error p a) { last_call_error = pos 0 });
    },
    asked h d c p.base.lambda_id l.type w l
          {c' = record c { heap = set c.heap l.arg (with_error p a) }} v at refl not_once not_only
          block
          (rw packets (rw (error_stored h d c v mem p l a tag named at here, handle_all) refl)) at
        ∙ rw (late, get_elem?-set_self c.heap l.arg a (with_error p a) here, error) refl,
    get_elem?-set_self (set c.heap l.arg (with_error p a)) l.arg (with_error p a) _
        (get_elem?-set_self c.heap l.arg a (with_error p a) here),
  )
