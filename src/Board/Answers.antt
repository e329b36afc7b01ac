-- ===== src/Board/Answers.antt =====
-- What the board sends for a packet, by the registry and the application's functions.
use riotsensors.Prelude.{
  ℕ, ◌+◌, ◌<◌, ◌≡◌, ◌≢◌, refl, inl, inr, List, [], ◌∷◌, true, false, none, some, arith, ltb, ◌==◌,
  ==_iff, Bool-cases, le→ltb_false,
}
use riotsensors.Prelude.Int.{ℤ}
use riotsensors.CString.{strlen, strcpy}
use riotsensors.Constants.{rs_call_notfound, rs_call_wrongtype}
use riotsensors.Registry.{RegisteredLambda, name_mem, get_registered_lambda_by_id}
use riotsensors.Packets.{Host, Doubles, IntResult, hton_rs_packet_lambda_result_int_t}
use riotsensors.Packets.Layout.{int_bytes}
use riotsensors.Board.State.{Board, Lambdas, spt_send_packet}
use riotsensors.Board.Calls.{call_lambda_int, send_result_lambda_int}
use riotsensors.Board.Handler.{handle_call_lambda, on_call_by_id, handle_received_packet}

-- A name that fits into a packet.
abbrev pub IsShort : RegisteredLambda ℕ → Type 0
IsShort l = strlen (name_mem l) < 12

-- The packet of an integer result, before its conversion.
abbrev pub int_result_of : RegisteredLambda ℕ → ℕ → List ℕ → IntResult
int_result_of l result stack = record {
  base = record { ptype = 6; lambda_id = l.id; name = strcpy stack (name_mem l) };
  result = result;
}

module _ {D : Type 0} (h : Host) (d : Doubles D) (m : Lambdas D) (b : Board) where
  -- A running board answers a call by id of a registered integer lambda, whose function is not
  -- NULL and whose name has fewer than twelve characters, with one packet: the integer result
  -- with the id and the name of the lambda and the value that its function returns.
  pub int_call_answered :
      (id : ℕ) (l : RegisteredLambda ℕ) (stack behind : List ℕ)
      → get_registered_lambda_by_id b.registry id ≡ some l
      → l.type ≡ 1
      → l.arg ≢ 0
      → IsShort l
      → b.rs_spt_started ≡ true
      → handle_received_packet h d m b stack behind (3 ∷ id ∷ 1 ∷ [])
        ≡ some (
            spt_send_packet b (
              int_bytes h
                (hton_rs_packet_lambda_result_int_t (int_result_of l (m.int l.arg id) stack))))
  unfolding handle_received_packet on_call_by_id handle_call_lambda call_lambda_int
      send_result_lambda_int
  int_call_answered id l stack behind at typed set short started =
      rw (at, (==_iff l.type 1).1 typed, set_test, started, room) refl
    where
      set_test : (l.arg == 0) ≡ false
      set_test = elim (Bool-cases (l.arg == 0)) [
        | inl null ↦ absurd (set ((==_iff _ _).0 null))
        | inr other ↦ other
      ]

      room : ltb 16 (strlen (name_mem l) + 1) ≡ false
      room = le→ltb_false 16 (strlen (name_mem l) + 1) (omega arith)

-- A call that the board cannot make, with the code that it reports.
pub data IsRefused (b : Board) (id type : ℕ) (code : ℤ) : Type 0 where
  unknown_id :
      get_registered_lambda_by_id b.registry id ≡ none
      → code ≡ rs_call_notfound
      → IsRefused b id type code
  other_type :
      (l : RegisteredLambda ℕ)
      → get_registered_lambda_by_id b.registry id ≡ some l
      → l.type ≢ type
      → code ≡ rs_call_wrongtype
      → IsRefused b id type code
