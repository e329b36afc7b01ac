-- ===== src/Board/Handler.antt =====
-- `handle_call_lambda` and `handle_received_packet` of riotmodule/rs.c.
use mathlib.Core.Option
use riotsensors.Prelude.{
  ℕ, List, [], ◌∷◌, ◌++◌, not, Option, none, some, ltb, ◌==◌, if◌then◌else◌, length,
}
use riotsensors.Prelude.Int.{ℤ, to_byte}
use riotsensors.CString.{strcpy}
use riotsensors.Constants.{
  rs_packet_call_by_id, rs_packet_call_by_name, rs_packet_result_error, rs_lambda_int,
  rs_lambda_double, rs_lambda_string,
}
use riotsensors.Packets.{
  Host, Doubles, CallByNamePacket, hton_rs_packet_lambda_result_error_t,
  ntoh_rs_packet_call_by_id_t, ntoh_rs_packet_call_by_name_t,
}
use riotsensors.Packets.Layout.{
  byte_at, error_bytes, sizeof_call_by_id, sizeof_call_by_name, read_call_by_id, read_call_by_name,
}
use riotsensors.Board.State.{Board, Lambdas, spt_send_packet}
use riotsensors.Board.Calls.{
  call_lambda_int, call_lambda_double, call_lambda_string, send_result_lambda_int,
  send_result_lambda_double, send_result_lambda_string, get_lambda_id_from_name,
}

-- "unknown"
abbrev pub unknown : List ℕ
unknown = b'u' ∷ b'n' ∷ b'k' ∷ b'n' ∷ b'o' ∷ b'w' ∷ b'n' ∷ 0 ∷ []

abbrev pub error_packet : ℕ → ℤ → List ℕ → List ℕ
error_packet id code stack = error_bytes (
    hton_rs_packet_lambda_result_error_t (record {
      base = record { ptype = rs_packet_result_error; lambda_id = id; name = strcpy stack unknown };
      error_code = to_byte code;
    }))

-- The end of `handle_call_lambda`.
abbrev pub send_error : Board → ℕ → ℤ → List ℕ → Board
send_error b id code stack =
    if b.rs_spt_started then spt_send_packet b (error_packet id code stack) else b

-- The call has a result exactly if its code is RS_CALL_SUCCESS. The code of `send` is not used.
abbrev pub answer :
    {R : Type 0}
    → Board
    → ℕ
    → List ℕ
    → (R → Option (Board × ℤ))
    → Option (ℤ × Option R)
    → Option Board
answer b id stack send none = none
answer b id stack send (some (code, none)) = some (send_error b id code stack)
answer b id stack send (some (code, some result)) = Option.map (λ s. s.0) (send result)

-- `mypkt.name` as a `char *`: the array, the rest of the packet, and the stack behind it.
abbrev pub called_name : CallByNamePacket → List ℕ → List ℕ
called_name p behind = p.name ++ p.expected_type ∷ behind

module _ {D : Type 0} (h : Host) (d : Doubles D) (m : Lambdas D) (b : Board) where
  unfoldable pub handle_call_lambda : ℕ → ℕ → List ℕ → Option Board
  handle_call_lambda id expected_type stack =
      if expected_type == rs_lambda_int
      then answer b id stack (λ result. send_result_lambda_int h b id result stack)
          (call_lambda_int m b id)
      else if expected_type == rs_lambda_double
      then answer b id stack (λ result. send_result_lambda_double d b id result stack)
          (call_lambda_double m b id)
      else if expected_type == rs_lambda_string
      then answer b id stack (λ result. send_result_lambda_string h b id result stack)
          (call_lambda_string m b id)
      else some b

  unfoldable pub on_call_by_id : List ℕ → List ℕ → Option Board
  on_call_by_id stack bytes =
      if not (length bytes == sizeof_call_by_id)
      then some b
      else (let p = ntoh_rs_packet_call_by_id_t (read_call_by_id bytes) in
          handle_call_lambda p.lambda_id p.expected_type stack)

  unfoldable pub on_call_by_name : List ℕ → List ℕ → List ℕ → Option Board
  on_call_by_name stack behind bytes =
      if not (length bytes == sizeof_call_by_name)
      then some b
      else (let p = ntoh_rs_packet_call_by_name_t (read_call_by_name bytes) in
          let id = get_lambda_id_from_name b (called_name p behind) in
          if id == 255 then some b else handle_call_lambda id p.expected_type stack)

  -- `stack` is where the answer's name is built, `behind` what is behind the copy of the packet.
  unfoldable pub handle_received_packet : List ℕ → List ℕ → List ℕ → Option Board
  handle_received_packet stack behind bytes =
      if ltb (length bytes) 1
      then some b
      else if byte_at bytes 0 == rs_packet_call_by_id
      then on_call_by_id stack bytes
      else if byte_at bytes 0 == rs_packet_call_by_name
      then on_call_by_name stack behind bytes
      else some b
