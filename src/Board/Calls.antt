-- ===== src/Board/Calls.antt =====
-- Registration, local calls and results of riotmodule/rs.c.
use mathlib.Core.Option
use riotsensors.Prelude.{
  ℕ, ◌+◌, ◌%◌, ◌^◌, List, [], ◌∷◌, ◌++◌, ◌&&◌, not, Option, none, some, ltb, ◌==◌, if◌then◌else◌,
  take,
}
use riotsensors.Prelude.Int.{ℤ, is_negative}
use riotsensors.CString.{c_str, strlen, strcpy}
use riotsensors.Constants.{
  rs_register_invalparam, rs_unregister_success, rs_unregister_notfound, rs_call_success,
  rs_call_notfound, rs_call_wrongtype, rs_result_success, rs_result_notfound, rs_result_wrongtype,
  rs_packet_registered, rs_packet_result_int, rs_packet_result_double, rs_packet_result_string,
  rs_lambda_int, rs_lambda_double, rs_lambda_string, rs_cache_only,
}
use riotsensors.Registry.{
  RegisteredLambda, Block, Registry, name_mem, get_registered_lambda_by_id,
  get_registered_lambda_by_name, lambda_registry_register, lambda_registry_unregister,
}
use riotsensors.Packets.{
  Host, Doubles, ResultPacket, hton_rs_packet_registered_t, hton_rs_packet_unregistered_t,
  hton_rs_packet_lambda_result_int_t, hton_rs_packet_lambda_result_double_t,
  hton_rs_packet_lambda_result_string_t,
}
use riotsensors.Packets.Layout.{
  registered_bytes, unregistered_bytes, int_bytes, double_bytes, string_bytes,
}
use riotsensors.Board.State.{Board, Lambdas, spt_send_packet}

-- The packet of a registration.
abbrev pub registered_packet : List ℕ → List ℕ → ℕ → ℕ → List ℕ
registered_packet stack name type cache = registered_bytes (
    hton_rs_packet_registered_t (record {
      ptype = rs_packet_registered;
      name = strcpy stack name;
      ltype = type;
      cache = cache;
    }))

-- What follows the call of `lambda_registry_register`.
abbrev pub announce : Board → List ℕ → List ℕ → ℕ → ℕ → Registry ℕ × ℤ → Board × ℤ
announce b stack name type cache (r, res) =
    if is_negative res
    then (record b { registry = r }, res)
    else if b.rs_spt_started
    then (
      spt_send_packet (record b { registry = r }) (registered_packet stack name type cache),
      res,
    )
    else (record b { registry = r }, res)

unfoldable pub register_lambda : Board → List ℕ → ℕ → ℕ → ℕ → Option Block → List ℕ → Board × ℤ
register_lambda b name lambda type cache malloc stack =
    if lambda == 0 && not (cache == rs_cache_only)
    then (b, rs_register_invalparam)
    else announce b stack name type cache
        (lambda_registry_register b.registry name type cache lambda malloc)

-- The three typed registrations.
abbrev pub register_lambda_int : Board → List ℕ → ℕ → ℕ → Option Block → List ℕ → Board × ℤ
register_lambda_int b name lambda cache malloc stack =
    register_lambda b name lambda rs_lambda_int cache malloc stack

abbrev pub register_lambda_double : Board → List ℕ → ℕ → ℕ → Option Block → List ℕ → Board × ℤ
register_lambda_double b name lambda cache malloc stack =
    register_lambda b name lambda rs_lambda_double cache malloc stack

abbrev pub register_lambda_string : Board → List ℕ → ℕ → ℕ → Option Block → List ℕ → Board × ℤ
register_lambda_string b name lambda cache malloc stack =
    register_lambda b name lambda rs_lambda_string cache malloc stack

module _ {R : Type 0} where
  -- A call of the lambda that was looked up, with what it writes to `*result`.
  abbrev pub called : (ℕ → ℕ → R) → ℕ → ℕ → Option (RegisteredLambda ℕ) → Option (ℤ × Option R)
  called f type id none = some (rs_call_notfound, none)
  called f type id (some l) =
      if not (l.type == type)
      then some (rs_call_wrongtype, none)
      else if l.arg == 0
      then none
      else some (rs_call_success, some (f l.arg id))

  abbrev pub called_by_name :
      (ℕ → Option (ℤ × Option R)) → Option (RegisteredLambda ℕ) → Option (ℤ × Option R)
  called_by_name call none = some (rs_call_notfound, none)
  called_by_name call (some l) = call l.id

module _ {D : Type 0} (m : Lambdas D) (b : Board) where
  unfoldable pub call_lambda_int : ℕ → Option (ℤ × Option ℕ)
  call_lambda_int id = called m.int rs_lambda_int id (get_registered_lambda_by_id b.registry id)

  unfoldable pub call_lambda_double : ℕ → Option (ℤ × Option D)
  call_lambda_double id =
      called m.double rs_lambda_double id (get_registered_lambda_by_id b.registry id)

  unfoldable pub call_lambda_string : ℕ → Option (ℤ × Option (List ℕ))
  call_lambda_string id =
      called m.string rs_lambda_string id (get_registered_lambda_by_id b.registry id)

  abbrev pub call_lambda_int_by_name : List ℕ → Option (ℤ × Option ℕ)
  call_lambda_int_by_name name =
      called_by_name call_lambda_int (get_registered_lambda_by_name b.registry name)

  abbrev pub call_lambda_double_by_name : List ℕ → Option (ℤ × Option D)
  call_lambda_double_by_name name =
      called_by_name call_lambda_double (get_registered_lambda_by_name b.registry name)

  abbrev pub call_lambda_string_by_name : List ℕ → Option (ℤ × Option (List ℕ))
  call_lambda_string_by_name name =
      called_by_name call_lambda_string (get_registered_lambda_by_name b.registry name)

-- `room` is what the packet has from its name on; a longer string is written behind it. What falls on
-- the fields behind the name is overwritten by their assignments.
abbrev pub populate_resultbase_from_lambda :
    ℕ → ℕ → List ℕ → RegisteredLambda ℕ → Option ResultPacket
populate_resultbase_from_lambda room ptype stack l =
    if ltb room (strlen (name_mem l) + 1)
    then none
    else some (record { ptype = ptype; lambda_id = l.id; name = strcpy stack (name_mem l) })

-- The packet is built and sent if the serial line is open.
abbrev pub post_result : Board → Option (List ℕ) → Option (Board × ℤ)
post_result b none = none
post_result b (some packet) = some (spt_send_packet b packet, rs_result_success)

abbrev pub send_result :
    Board
    → ℕ
    → (RegisteredLambda ℕ → Option (List ℕ))
    → Option (RegisteredLambda ℕ)
    → Option (Board × ℤ)
send_result b type packet none = some (b, rs_result_notfound)
send_result b type packet (some l) =
    if not (l.type == type)
    then some (b, rs_result_wrongtype)
    else if b.rs_spt_started
    then post_result b (packet l)
    else some (b, rs_result_success)

abbrev pub sent_by_name :
    Board → (ℕ → Option (Board × ℤ)) → Option (RegisteredLambda ℕ) → Option (Board × ℤ)
sent_by_name b send none = some (b, rs_result_notfound)
sent_by_name b send (some l) = send l.id

abbrev pub int_packet : Host → ℕ → List ℕ → RegisteredLambda ℕ → Option (List ℕ)
int_packet h result stack l =
    Option.map
      (λ base.
        int_bytes h (hton_rs_packet_lambda_result_int_t (record { base = base; result = result })))
      (populate_resultbase_from_lambda 16 rs_packet_result_int stack l)

abbrev pub double_packet :
    {D : Type 0} → Doubles D → D → List ℕ → RegisteredLambda ℕ → Option (List ℕ)
double_packet d result stack l =
    Option.map
      (λ base.
        double_bytes d
          (hton_rs_packet_lambda_result_double_t d (record { base = base; result = result })))
      (populate_resultbase_from_lambda 20 rs_packet_result_double stack l)

-- The packet on the stack has room for one character, its NUL.
abbrev pub string_packet : Host → List ℕ → List ℕ → RegisteredLambda ℕ → Option (List ℕ)
string_packet h result stack l =
    if ltb 1 (strlen result + 1)
    then none
    else Option.map
        (λ base. take ((16 + (strlen result + 1)) % 2 ^ 16) (
          string_bytes h (
            hton_rs_packet_lambda_result_string_t h (record {
              base = base;
              result_length = (strlen result + 1) % 2 ^ 16;
              result = c_str result ++ 0 ∷ [];
            }))))
        (populate_resultbase_from_lambda 15 rs_packet_result_string stack l)

module _ (h : Host) (b : Board) where
  unfoldable pub send_result_lambda_int : ℕ → ℕ → List ℕ → Option (Board × ℤ)
  send_result_lambda_int id result stack =
      send_result b rs_lambda_int (int_packet h result stack)
        (get_registered_lambda_by_id b.registry id)

  unfoldable pub send_result_lambda_string : ℕ → List ℕ → List ℕ → Option (Board × ℤ)
  send_result_lambda_string id result stack =
      send_result b rs_lambda_string (string_packet h result stack)
        (get_registered_lambda_by_id b.registry id)

  abbrev pub send_result_lambda_int_by_name : List ℕ → ℕ → List ℕ → Option (Board × ℤ)
  send_result_lambda_int_by_name name result stack =
      sent_by_name b (λ id. send_result_lambda_int id result stack)
        (get_registered_lambda_by_name b.registry name)

  abbrev pub send_result_lambda_string_by_name : List ℕ → List ℕ → List ℕ → Option (Board × ℤ)
  send_result_lambda_string_by_name name result stack =
      sent_by_name b (λ id. send_result_lambda_string id result stack)
        (get_registered_lambda_by_name b.registry name)

unfoldable pub send_result_lambda_double :
    {D : Type 0} → Doubles D → Board → ℕ → D → List ℕ → Option (Board × ℤ)
send_result_lambda_double d b id result stack =
    send_result b rs_lambda_double (double_packet d result stack)
      (get_registered_lambda_by_id b.registry id)

abbrev pub send_result_lambda_double_by_name :
    {D : Type 0} → Doubles D → Board → List ℕ → D → List ℕ → Option (Board × ℤ)
send_result_lambda_double_by_name d b name result stack =
    sent_by_name b (λ id. send_result_lambda_double d b id result stack)
      (get_registered_lambda_by_name b.registry name)

-- The packet of an unregistration has the type of a registration.
abbrev pub unregistered_packet : ℕ → List ℕ → RegisteredLambda ℕ → Option (List ℕ)
unregistered_packet id stack l =
    if ltb 12 (strlen (name_mem l) + 1)
    then none
    else some (
        unregistered_bytes (
          hton_rs_packet_unregistered_t (record {
            ptype = rs_packet_registered;
            lambda_id = id;
            name = strcpy stack (name_mem l);
          })))

abbrev pub unregistered : ℕ → Board → Board × ℤ
unregistered id b =
    (record b { registry = (lambda_registry_unregister b.registry id).0 }, rs_unregister_success)

abbrev pub unregister_found : Board → ℕ → List ℕ → Option (RegisteredLambda ℕ) → Option (Board × ℤ)
unregister_found b id stack none = some (b, rs_unregister_notfound)
unregister_found b id stack (some l) =
    if b.rs_spt_started
    then Option.map (λ packet. unregistered id (spt_send_packet b packet))
        (unregistered_packet id stack l)
    else some (unregistered id b)

unfoldable pub unregister_lambda : Board → ℕ → List ℕ → Option (Board × ℤ)
unregister_lambda b id stack =
    unregister_found b id stack (get_registered_lambda_by_id b.registry id)

-- (lambda_id_t) -1 for an unknown name.
abbrev pub id_or_255 : Option (RegisteredLambda ℕ) → ℕ
id_or_255 none = 255
id_or_255 (some l) = l.id

unfoldable pub get_lambda_id_from_name : Board → List ℕ → ℕ
get_lambda_id_from_name b name = id_or_255 (get_registered_lambda_by_name b.registry name)
