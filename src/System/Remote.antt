-- ===== src/System/Remote.antt =====
-- A call from Linux that the board answers, and an unregistration on the board.
use riotsensors.Prelude.{
  ℕ, ◌+◌, ◌^◌, ◌<◌, ◌≡◌, ◌≢◌, refl, ◌∙◌, inr, List, [], ◌∷◌, true, false, some, arith, length,
  le→ltb_false,
}
use riotsensors.CString.{strlen, strcpy}
use riotsensors.CString.Laws.{length-strcpy}
use riotsensors.Constants.{rs_call_success, rs_unregister_success}
use riotsensors.Registry.{
  RegisteredLambda, name_mem, get_registered_lambda_by_id, lambda_registry_unregister,
}
use riotsensors.Packets.{Host, Doubles, hton_rs_packet_lambda_result_int_t}
use riotsensors.Packets.Layout.{int_bytes}
use riotsensors.Connector.State.{Connector, Memory, ret_i}
use riotsensors.Connector.Handler as Connector
use riotsensors.Connector.Call.{call_by_id_request, handle_all, call_lambda_by_id}
use riotsensors.Connector.Invariant.{IsValid}
use riotsensors.Connector.Waits.{fresh_result}
use riotsensors.Connector.Ignored.{HasSize, malformed_ignored}
use riotsensors.Board.State.{Board, Lambdas, spt_send_packet}
use riotsensors.Board.Calls.{unregister_lambda}
use riotsensors.Board.Handler as Board
use riotsensors.Board.Answers.{IsShort, int_result_of, int_call_answered}

module _ {D : Type 0} (h : Host) (d : Doubles D) (c : Connector D) (b : Board) where
  -- For a valid connector and a running board that both have an integer lambda under one id,
  -- whose name on the board has fewer than twelve characters, whose function is not NULL and
  -- returns a value of 32 bits, and whose cache policy on Linux is neither CALL_ONCE nor ONLY:
  -- the board answers the request of `call_lambda_by_id` with one packet, and a call in whose
  -- wait this packet arrives returns RS_CALL_SUCCESS and the value of the function, after
  -- sending only the request (hosts of one byte order).
  pub remote_call :
      (m : Lambdas D) (k l : RegisteredLambda ℕ) (stack behind block : List ℕ) (mem : Memory D)
      → IsValid c
      → get_registered_lambda_by_id c.registry k.id ≡ some l
      → l.type ≡ 1
      → l.cache ≢ 2
      → l.cache ≢ 3
      → get_registered_lambda_by_id b.registry k.id ≡ some k
      → k.type ≡ 1
      → k.arg ≢ 0
      → IsShort k
      → b.rs_spt_started ≡ true
      → length stack ≡ 12
      → m.int k.arg k.id < 256 ^ 4
      → (packet : List ℕ) × (c' : Connector D) × (Board.handle_received_packet h d m b stack behind
            (call_by_id_request k.id 1)
          ≡ some (spt_send_packet b packet))
        × (call_lambda_by_id h d c k.id 1
              (record { request = some block; during = (mem, packet) ∷ []; timed_out = false })
            ≡ some (
              c',
              record {
                code = rs_call_success;
                result = some (ret_i (m.int k.arg k.id));
                sent = call_by_id_request k.id 1 ∷ [];
              },
            ))
  unfolding call_by_id_request handle_all
  remote_call m k l stack behind block mem v at typed not_once not_only there typed' set short
        started size lt =
      let p = int_result_of k (m.int k.arg k.id) stack in
      let (c', e, _) =
        fresh_result h d c c
          (record {
            request = some block;
            during = (mem, int_bytes h (hton_rs_packet_lambda_result_int_t p)) ∷ [];
            timed_out = false;
          })
          l p mem [] v tt at typed not_once not_only refl refl refl refl at refl
          (length-strcpy stack (name_mem k) ∙ size) lt in
      (
        int_bytes h (hton_rs_packet_lambda_result_int_t p),
        c',
        int_call_answered h d m b k.id k stack behind there typed' set short started,
        e,
      )

  -- An unregistration on a running board of a registered lambda whose name has fewer than
  -- twelve characters succeeds and sends one packet, and the connector that handles this packet
  -- is left as it was.
  pub unregistration_ignored :
      (id : ℕ) (l : RegisteredLambda ℕ) (stack : List ℕ) (mem : Memory D)
      → get_registered_lambda_by_id b.registry id ≡ some l
      → IsShort l
      → b.rs_spt_started ≡ true
      → length stack ≡ 12
      → (packet : List ℕ) × (unregister_lambda b id stack
          ≡ some (
            record (spt_send_packet b packet) {
              registry = (lambda_registry_unregister b.registry id).0;
            },
            rs_unregister_success,
          ))
        × (Connector.handle_received_packet h d c mem packet ≡ some c)
  unfolding unregister_lambda
  unregistration_ignored id l stack mem at short started size = (
    1 ∷ id ∷ strcpy stack (name_mem l),
    rw (at, started, le→ltb_false 12 (strlen (name_mem l) + 1) (omega (arith, short))) refl,
    malformed_ignored h d c mem (1 ∷ id ∷ strcpy stack (name_mem l)) (inr wrong),
  )
    where
      wrong : ¬ HasSize 1 (length (1 ∷ id ∷ strcpy stack (name_mem l)))
      wrong sized = grind (arith, length-strcpy stack (name_mem l), size)
