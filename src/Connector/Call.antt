-- ===== src/Connector/Call.antt =====
-- `call_lambda_by_id`, `call_lambda_by_name` and what they call, of rs_connector.c. `*result` is the
-- optional value; a call that sends a packet waits, and the packets that are handled meanwhile and
-- whether the wait times out are arguments.
use riotsensors.Prelude.{
  false, ltb, ◌+◌, ℕ, List, [], ◌∷◌, Bool, true, not, Option, none, some, ◌==◌, if◌then◌else◌,
  get_elem?, set,
}
use riotsensors.Prelude.Int.{ℤ, pos, negsuc}
use riotsensors.CString.{strlen, strcpy}
use riotsensors.Constants.{
  rs_call_success, rs_call_cache, rs_call_cache_timeout, rs_call_notfound, rs_call_wrongtype,
  rs_call_timeout, rs_call_cache_empty, rs_call_cache_timeout_empty, rs_packet_call_by_id,
  rs_packet_call_by_name, rs_cache_no_cache, rs_cache_call_once, rs_cache_only, rs_cache_on_timeout,
}
use riotsensors.Registry.{
  RegisteredLambda, Registry, get_registered_lambda_by_id, get_registered_lambda_by_name,
}
use riotsensors.Packets.{Host, Doubles, hton_rs_packet_call_by_id_t, hton_rs_packet_call_by_name_t}
use riotsensors.Packets.Layout.{call_by_id_bytes, call_by_name_bytes}
use riotsensors.Connector.State.{Return, if_ready, LinuxLambda, Connector, Memory}
use riotsensors.Connector.Handler.{handle_received_packet}

-- What a call returns, writes to `*result` and has sent.
pub record Reply (D : Type 0) : Type 0 where
  pub code : ℤ
  pub result : Option (Return D)
  pub sent : List (List ℕ)

-- code != 0
abbrev pub is_error : ℤ → Bool
is_error (pos n) = not (n == 0)
is_error (negsuc n) = true

-- What happens to a call from outside: the `malloc` of the request with the bytes that it finds for a
-- name, the packets that are handled during the wait, and whether the wait times out.
pub record Wait (D : Type 0) : Type 0 where
  pub request : Option (List ℕ)
  pub during : List (Memory D × List ℕ)
  pub timed_out : Bool

unfoldable pub call_by_id_request : ℕ → ℕ → List ℕ
call_by_id_request id expected_type = call_by_id_bytes (
    hton_rs_packet_call_by_id_t
      (record { ptype = rs_packet_call_by_id; lambda_id = id; expected_type = expected_type }))

-- The packet has 13 bytes from the name on; a longer string is written behind it.
unfoldable pub call_by_name_request : List ℕ → List ℕ → ℕ → Option (List ℕ)
call_by_name_request block name expected_type =
    if ltb 13 (strlen name + 1)
    then none
    else some (
        call_by_name_bytes (
          hton_rs_packet_call_by_name_t (record {
            ptype = rs_packet_call_by_name;
            name = strcpy block name;
            expected_type = expected_type;
          })))

-- Whether a pointer to a lambda still points to it: its block is freed with its registration, and no
-- other lambda has its argument.
abbrev pub is_same : RegisteredLambda ℕ → Option (RegisteredLambda ℕ) → Bool
is_same l none = false
is_same l (some m) = l.arg == m.arg

abbrev pub is_registered : Registry ℕ → RegisteredLambda ℕ → Bool
is_registered r l = is_same l (get_registered_lambda_by_id r l.id)

module _ {D : Type 0} where
  -- The code of a lookup in the cache, and the cached value if there is one.
  abbrev pub cached_or : LinuxLambda D → ℤ → ℤ × Option (Return D)
  cached_or a missing = if a.data_cached then (rs_call_cache, some a.ret) else (missing, none)

  unfoldable pub check_lambda_cache : RegisteredLambda ℕ → LinuxLambda D → ℤ × Option (Return D)
  check_lambda_cache l a =
      if l.cache == rs_cache_no_cache
      then (rs_call_success, none)
      else if l.cache == rs_cache_call_once
      then cached_or a rs_call_success
      else if l.cache == rs_cache_only
      then cached_or a rs_call_cache_empty
      else (rs_call_success, none)

  -- After the wait: `timed_out` is the test for ETIMEDOUT.
  unfoldable pub timed_out_result : RegisteredLambda ℕ → LinuxLambda D → ℤ × Option (Return D)
  timed_out_result l a =
      if l.cache == rs_cache_on_timeout
      then (if a.data_cached
          then (rs_call_cache_timeout, some a.ret)
          else (rs_call_cache_timeout_empty, none))
      else (rs_call_timeout, none)

  abbrev pub after_wait :
      Connector D
      → RegisteredLambda ℕ
      → Bool
      → Option (LinuxLambda D)
      → Option (Connector D × ℤ × Option (Return D))
  after_wait c l timed_out none = none
  after_wait c l timed_out (some a) =
      if not timed_out
      then some (c, rs_call_success, some a.ret)
      else if is_error a.last_call_error
      then some (
        record c { heap = set c.heap l.arg (record a { last_call_error = pos 0 }) },
        a.last_call_error,
        none,
      )
      else (let (code, result) = timed_out_result l a in some (c, code, result))

  unfoldable pub wait_lambda_result :
      Connector D → RegisteredLambda ℕ → Bool → Option (Connector D × ℤ × Option (Return D))
  wait_lambda_result c l timed_out = after_wait c l timed_out (get_elem? c.heap l.arg)

  abbrev pub replied :
      List (List ℕ) → Option (Connector D × ℤ × Option (Return D)) → Option (Connector D × Reply D)
  replied sent none = none
  replied sent (some (c, code, result)) =
      some (c, record { code = code; result = result; sent = sent })

  -- A reply without a packet.
  abbrev pub reply : Connector D → ℤ → Option (Return D) → Option (Connector D × Reply D)
  reply c code result = some (c, record { code = code; result = result; sent = [] })

module _ {D : Type 0} (h : Host) (d : Doubles D) where
  -- The packets that the receiving thread handles, in order.
  unfoldable pub handle_all : Connector D → List (Memory D × List ℕ) → Option (Connector D)
  handle_all c [] = some c
  handle_all c ((mem, bytes) ∷ rest) = elim (handle_received_packet h d c mem bytes) [
    | none ↦ none
    | some c' ↦ handle_all c' rest
  ]

  abbrev pub wait_for :
      RegisteredLambda ℕ → List ℕ → Bool → Option (Connector D) → Option (Connector D × Reply D)
  wait_for l packet timed_out none = none
  wait_for l packet timed_out (some c) =
      if is_registered c.registry l
      then replied (packet ∷ []) (wait_lambda_result c l timed_out)
      else none

  abbrev pub send_packet :
      Connector D → RegisteredLambda ℕ → Wait D → Option (List ℕ) → Option (Connector D × Reply D)
  send_packet c l w none = none
  send_packet c l w (some packet) = wait_for l packet w.timed_out (handle_all c w.during)

  abbrev pub send_and_wait :
      Connector D
      → RegisteredLambda ℕ
      → (List ℕ → Option (List ℕ))
      → Wait D
      → Option (List ℕ)
      → Option (Connector D × Reply D)
  send_and_wait c l request w none = none
  send_and_wait c l request w (some block) = send_packet c l w (request block)

  abbrev pub cache_or_wait :
      Connector D
      → RegisteredLambda ℕ
      → (List ℕ → Option (List ℕ))
      → Wait D
      → Option (LinuxLambda D)
      → Option (Connector D × Reply D)
  cache_or_wait c l request w none = none
  cache_or_wait c l request w (some a) =
      let (code, result) = check_lambda_cache l a in
      if is_error code
      then reply c code result
      else if_ready a.wait_result (send_and_wait c l request w w.request)

  -- What both calls do with the lambda that they looked up.
  abbrev pub call_lambda :
      Connector D
      → ℕ
      → (List ℕ → Option (List ℕ))
      → Wait D
      → Option (RegisteredLambda ℕ)
      → Option (Connector D × Reply D)
  call_lambda c expected_type request w none = reply c rs_call_notfound none
  call_lambda c expected_type request w (some l) =
      if not (l.type == expected_type)
      then reply c rs_call_wrongtype none
      else cache_or_wait c l request w (get_elem? c.heap l.arg)

  unfoldable pub call_lambda_by_id : Connector D → ℕ → ℕ → Wait D → Option (Connector D × Reply D)
  call_lambda_by_id c id expected_type w =
      call_lambda c expected_type (λ _. some (call_by_id_request id expected_type)) w
        (get_registered_lambda_by_id c.registry id)

  unfoldable pub call_lambda_by_name :
      Connector D → List ℕ → ℕ → Wait D → Option (Connector D × Reply D)
  call_lambda_by_name c name expected_type w =
      call_lambda c expected_type (λ block. call_by_name_request block name expected_type) w
        (get_registered_lambda_by_name c.registry name)
