-- ===== src/Connector/Handler.antt =====
-- `handle_received_packet` of rs_connector.c, a function for each branch on the packet type.
use riotsensors.Prelude.{
  ℕ, List, [], ◌∷◌, ◌++◌, Bool, true, false, not, ◌&&◌, ◌||◌, Option, none, some, ltb, ◌==◌,
  if◌then◌else◌, length, get_elem?, set, take,
}
use riotsensors.Prelude.Int.{to_int8}
use riotsensors.Constants.{
  rs_packet_registered, rs_packet_unregistered, rs_packet_result_error, rs_packet_result_int,
  rs_packet_result_double, rs_packet_result_string,
}
use riotsensors.Registry.{
  get_registered_lambda_by_id, lambda_registry_register, lambda_registry_unregister,
}
use riotsensors.Packets.{
  Host, Doubles, RegisteredPacket, StringResult, ntoh_rs_packet_registered_t,
  ntoh_rs_packet_unregistered_t, ntoh_rs_packet_lambda_result_int_t,
  ntoh_rs_packet_lambda_result_double_t, ntoh_rs_packet_lambda_result_string_t,
  ntoh_rs_packet_lambda_result_error_t,
}
use riotsensors.Packets.Layout.{
  byte_at, sizeof_registered, sizeof_unregistered, sizeof_error, sizeof_int, sizeof_double,
  sizeof_string, read_registered, read_unregistered, read_int, read_double, read_string, read_error,
}
use riotsensors.Connector.State.{
  Return, ret_i, ret_d, ret_s, destroyed, if_ready, broadcast, LinuxLambda, Connector, Garbage,
  Memory, new_linux_lambda, update, for_lambda, store_result,
}

-- `mypkt.name` as a `char *`: the array, the rest of the packet, and the stack behind it.
abbrev pub packet_name : RegisteredPacket → List ℕ → List ℕ
packet_name p stack = p.name ++ p.ltype ∷ p.cache ∷ stack

module _ {D : Type 0} where
  abbrev pub register_with :
      Connector D → RegisteredPacket → Memory D → Option (Garbage D) → Option (Connector D)
  register_with c p mem none = none
  register_with c p mem (some g) = some (record {
    registry =
        (lambda_registry_register c.registry (packet_name p mem.stack) p.ltype p.cache
          (length c.heap) mem.block).0;
    heap = c.heap ++ new_linux_lambda g ∷ [];
  })

  unfoldable pub on_registered : Connector D → Memory D → List ℕ → Option (Connector D)
  on_registered c mem bytes =
      if not (length bytes == sizeof_registered)
      then some c
      else register_with c (ntoh_rs_packet_registered_t (read_registered bytes)) mem mem.fresh

  abbrev pub unregister_in : Connector D → ℕ → Option (Connector D) → Option (Connector D)
  unregister_in c id none = none
  unregister_in c id (some c') =
      some (record c' { registry = (lambda_registry_unregister c'.registry id).0 })

  unfoldable pub on_unregistered : Connector D → List ℕ → Option (Connector D)
  on_unregistered c bytes =
      if not (length bytes == sizeof_unregistered)
      then some c
      else (let p = ntoh_rs_packet_unregistered_t (read_unregistered bytes) in
          for_lambda c (get_registered_lambda_by_id c.registry p.lambda_id) λ l.
            unregister_in c p.lambda_id
              (update c l.arg (λ a. record a { wait_result = destroyed })))

-- Whether `free` of the union's string member is a `free` of a string.
abbrev pub is_string : {D : Type 0} → Return D → Bool
is_string (ret_s s) = true
is_string _ = false

module _ {D : Type 0} (h : Host) (d : Doubles D) where
  unfoldable pub on_result_int : Connector D → List ℕ → Option (Connector D)
  on_result_int c bytes =
      if not (length bytes == sizeof_int)
      then some c
      else (let p = ntoh_rs_packet_lambda_result_int_t (read_int h bytes) in
          for_lambda c (get_registered_lambda_by_id c.registry p.base.lambda_id)
            λ l. update c l.arg (store_result (ret_i p.result)))

  unfoldable pub on_result_double : Connector D → List ℕ → Option (Connector D)
  on_result_double c bytes =
      if not (length bytes == sizeof_double)
      then some c
      else (let p = ntoh_rs_packet_lambda_result_double_t d (read_double d bytes) in
          for_lambda c (get_registered_lambda_by_id c.registry p.base.lambda_id)
            λ l. update c l.arg (store_result (ret_d p.result)))

  -- A cached string is freed; the new one is copied out of the packet.
  abbrev pub replace_string : Memory D → StringResult → LinuxLambda D → Option (LinuxLambda D)
  replace_string mem p a =
      if a.data_cached && not (is_string a.ret)
      then none
      else if not mem.text || ltb (length p.result) p.result_length
      then none
      else some (store_result (ret_s (take p.result_length p.result)) a)

  abbrev pub store_string : Connector D → ℕ → Option (LinuxLambda D) → Option (Connector D)
  store_string c p none = none
  store_string c p (some a) = some (record c { heap = set c.heap p a })

  abbrev pub replace_at :
      Connector D → ℕ → Memory D → StringResult → Option (LinuxLambda D) → Option (Connector D)
  replace_at c p mem s none = none
  replace_at c p mem s (some a) = if_ready a.wait_result (store_string c p (replace_string mem s a))

  unfoldable pub on_result_string : Connector D → Memory D → List ℕ → Option (Connector D)
  on_result_string c mem bytes =
      if ltb (length bytes) sizeof_string
      then some c
      else if not mem.copy
      then none
      else (let p = ntoh_rs_packet_lambda_result_string_t h (read_string h bytes) in
          for_lambda c (get_registered_lambda_by_id c.registry p.base.lambda_id)
            λ l. replace_at c l.arg mem p (get_elem? c.heap l.arg))

  unfoldable pub on_result_error : Connector D → List ℕ → Option (Connector D)
  on_result_error c bytes =
      if not (length bytes == sizeof_error)
      then some c
      else (let p = ntoh_rs_packet_lambda_result_error_t (read_error bytes) in
          for_lambda c (get_registered_lambda_by_id c.registry p.base.lambda_id) λ l.
            update c l.arg (λ a. record a {
              last_call_error = to_int8 p.error_code;
              wait_result = broadcast a.wait_result;
            }))

  -- The tests on the packet type.
  abbrev pub dispatch : Connector D → Memory D → ℕ → List ℕ → Option (Connector D)
  dispatch c mem ptype bytes =
      if ptype == rs_packet_registered
      then on_registered c mem bytes
      else if ptype == rs_packet_unregistered
      then on_unregistered c bytes
      else if ptype == rs_packet_result_int
      then on_result_int c bytes
      else if ptype == rs_packet_result_double
      then on_result_double c bytes
      else if ptype == rs_packet_result_string
      then on_result_string c mem bytes
      else if ptype == rs_packet_result_error
      then on_result_error c bytes
      else some c

  unfoldable pub handle_received_packet : Connector D → Memory D → List ℕ → Option (Connector D)
  handle_received_packet c mem bytes =
      if ltb (length bytes) 1 then some c else dispatch c mem (byte_at bytes 0) bytes
