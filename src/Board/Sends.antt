-- ===== src/Board/Sends.antt =====
-- What `handle_received_packet` of riotmodule/rs.c changes.
use mathlib.Core.Option
use riotsensors.Prelude.{
  ℕ, ◌≡◌, refl, ◌⊎◌, inl, inr, List, [], ◌∷◌, ◌++◌, Bool, true, false, not, Option, none, some, ltb,
  ◌==◌, length, if◌then◌else◌,
}
use riotsensors.Prelude.Int.{ℤ}
use riotsensors.Registry.{RegisteredLambda, get_registered_lambda_by_id}
use riotsensors.Packets.{
  Host, Doubles, CallByIdPacket, CallByNamePacket, ntoh_rs_packet_call_by_id_t,
  ntoh_rs_packet_call_by_name_t,
}
use riotsensors.Packets.Layout.{byte_at, read_call_by_id, read_call_by_name}
use riotsensors.Board.State.{Board, Lambdas, spt_send_packet}
use riotsensors.Board.Calls.{
  call_lambda_int, call_lambda_double, call_lambda_string, send_result_lambda_int,
  send_result_lambda_double, send_result_lambda_string, post_result, send_result,
  get_lambda_id_from_name, int_packet, double_packet, string_packet,
}
use riotsensors.Board.Handler.{
  called_name, error_packet, send_error, answer, handle_call_lambda, on_call_by_id, on_call_by_name,
  handle_received_packet,
}

-- The registry and the state of the line are kept, and all packets but one that may be added.
pub record Sends (b b' : Board) : Type 0 where
  pub registry : b'.registry ≡ b.registry
  pub started : b'.rs_spt_started ≡ b.rs_spt_started
  pub sent :
      (b'.sent ≡ b.sent)
      ⊎ ((packet : List ℕ) × (b'.sent ≡ b.sent ++ packet ∷ []) × (b.rs_spt_started ≡ true))

-- A test whose outcome the proof of a branch may use.
pub if_holds :
    {A : Type 0} (t : Bool) (P : A → Type 0) (x y : A)
    → (t ≡ true → P x)
    → (t ≡ false → P y)
    → P (if t then x else y)
if_holds true P x y p q = p refl
if_holds false P x y p q = q refl

module _ (b : Board) where
  same-Sends : Sends b b
  same-Sends = record { registry = refl; started = refl; sent = inl refl }

  one-Sends : (packet : List ℕ) → b.rs_spt_started ≡ true → Sends b (spt_send_packet b packet)
  one-Sends packet started = record {
    registry = refl;
    started = refl;
    sent = inr (packet, refl, started);
  }

  -- A result of a step that may fail.
  abbrev pub AllSend : Option Board → Type 0
  AllSend none = Unit {0}
  AllSend (some b') = Sends b b'

  send_error-Sends : (id : ℕ) (code : ℤ) (stack : List ℕ) → Sends b (send_error b id code stack)
  send_error-Sends id code stack =
      if_holds b.rs_spt_started (Sends b) _ _ (one-Sends (error_packet id code stack))
        (λ _. same-Sends)

  post_result-Sends :
      (packet : Option (List ℕ))
      → b.rs_spt_started ≡ true
      → AllSend (Option.map (λ s. s.0) (post_result b packet))
  post_result-Sends none started = tt
  post_result-Sends (some packet) started = one-Sends packet started

  pub send_result-Sends :
      (type : ℕ) (packet : RegisteredLambda ℕ → Option (List ℕ))
      (found : Option (RegisteredLambda ℕ))
      → AllSend (Option.map (λ s. s.0) (send_result b type packet found))
  send_result-Sends type packet none = same-Sends
  send_result-Sends type packet (some l) =
      if_holds (not (l.type == type)) (λ s. AllSend (Option.map (λ s. s.0) s)) _ _ (λ _. same-Sends)
        (λ _.
          if_holds b.rs_spt_started (λ s. AllSend (Option.map (λ s. s.0) s)) _ _
            (post_result-Sends (packet l)) (λ _. same-Sends))

  answer-Sends :
      {R : Type 0} (id : ℕ) (stack : List ℕ) (send : R → Option (Board × ℤ))
      (call : Option (ℤ × Option R))
      → ((result : R) → AllSend (Option.map (λ s. s.0) (send result)))
      → AllSend (answer b id stack send call)
  answer-Sends id stack send none sends = tt
  answer-Sends id stack send (some (code, none)) sends = send_error-Sends id code stack
  answer-Sends id stack send (some (code, some result)) sends = sends result

  -- The same as a record, whose argument a goal determines.
  record SendsAlways (o : Option Board) : Type 0 where
    holds : AllSend o

  if-Sends :
      (t : Bool) (x y : Option Board)
      → SendsAlways x
      → SendsAlways y
      → SendsAlways (if t then x else y)
  if-Sends true x y p q = p
  if-Sends false x y p q = q

  nothing-Sends : SendsAlways (some b)
  nothing-Sends = record { holds = same-Sends }

module _ {D : Type 0} (h : Host) (d : Doubles D) (m : Lambdas D) (b : Board) where
  handle_call_lambda-Sends :
      (id type : ℕ) (stack : List ℕ) → SendsAlways b (handle_call_lambda h d m b id type stack)
  unfolding handle_call_lambda send_result_lambda_int send_result_lambda_double
      send_result_lambda_string
  handle_call_lambda-Sends id type stack =
      if-Sends b (type == 1) _ _
        (record {
          holds = answer-Sends b id stack _ (call_lambda_int m b id) (λ r.
              send_result-Sends b 1 (int_packet h r stack)
                (get_registered_lambda_by_id b.registry id));
        })
        (if-Sends b (type == 2) _ _
          (record {
            holds = answer-Sends b id stack _ (call_lambda_double m b id) (λ r.
                send_result-Sends b 2 (double_packet d r stack)
                  (get_registered_lambda_by_id b.registry id));
          })
          (if-Sends b (type == 3) _ _
            (record {
              holds = answer-Sends b id stack _ (call_lambda_string m b id) (λ r.
                  send_result-Sends b 3 (string_packet h r stack)
                    (get_registered_lambda_by_id b.registry id));
            })
            (nothing-Sends b)))

  handle_received_packet-AllSend :
      (stack behind bytes : List ℕ)
      → SendsAlways b (handle_received_packet h d m b stack behind bytes)
  unfolding handle_received_packet on_call_by_id on_call_by_name
  handle_received_packet-AllSend stack behind bytes =
      if-Sends b (ltb (length bytes) 1) _ _ (nothing-Sends b) (
        if-Sends b (byte_at bytes 0 == 3) _ _
          (if-Sends b (not (length bytes == 3)) _ _ (nothing-Sends b)
            (handle_call_lambda-Sends by_id.lambda_id by_id.expected_type stack))
          (if-Sends b (byte_at bytes 0 == 4) _ _
            (if-Sends b (not (length bytes == 14)) _ _ (nothing-Sends b) (
              if-Sends b (id == 255) _ _ (nothing-Sends b)
                (handle_call_lambda-Sends id by_name.expected_type stack)))
            (nothing-Sends b)))
    where
      by_id : CallByIdPacket
      by_id = ntoh_rs_packet_call_by_id_t (read_call_by_id bytes)

      by_name : CallByNamePacket
      by_name = ntoh_rs_packet_call_by_name_t (read_call_by_name bytes)

      id : ℕ
      id = get_lambda_id_from_name b (called_name by_name behind)

  -- Whatever packet a board handles, if this is defined it keeps the registry and the state of
  -- the line, and sends nothing or, if the line is open, one packet.
  pub handle_received_packet-Sends :
      (stack behind bytes : List ℕ) (b' : Board)
      → handle_received_packet h d m b stack behind bytes ≡ some b'
      → Sends b b'
  handle_received_packet-Sends stack behind bytes b' e =
      rw e at (handle_received_packet-AllSend stack behind bytes).holds
