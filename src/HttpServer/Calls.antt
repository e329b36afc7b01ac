-- ===== src/HttpServer/Calls.antt =====
-- The calls of the HTTP server: what is answered to good and to bad parameters.
use riotsensors.Prelude.{ℕ, ◌+◌, ◌%◌, ◌≤◌, ◌<◌, ◌≡◌, refl, List, [], false, arith, ◌==◌}
use riotsensors.Prelude.Int.{pos}
use riotsensors.CString.{c_str}
use riotsensors.CString.Numbers.{IsNumeral}
use riotsensors.Registry.Types.{get_lambda_type_from_string_lem}
use riotsensors.Packets.{Host, Doubles}
use riotsensors.Connector.State.{Connector}
use riotsensors.Rest.Handler as RestHandler
use riotsensors.Rest.Handler.{Serving, Served}
use riotsensors.HttpServer.{answer_after, handle_call_by_id}

module _ {D : Type 0} (h : Host) (d : Doubles D) (long_max : ℕ) (large : 10 ≤ long_max)
    (c : Connector D) (s : Serving D) where
  -- A known type and an id of one byte are answered once, like the call.
  pub good_call :
      (str_type : List ℕ) (type id : ℕ)
      → 1 ≤ type
      → type ≤ 3
      → IsNumeral type (c_str str_type)
      → id < 256
      → handle_call_by_id h d long_max c str_type (pos id) s
        ≡ answer_after [] (RestHandler.handle_call_by_id h d c type id s)
  unfolding handle_call_by_id
  good_call str_type type id low high m small =
      let (_, exact) = get_lambda_type_from_string_lem long_max str_type large in
      let known : (type == 255) ≡ false = ground arith in
      let same : id % 256 ≡ id = omega arith in rw ((exact type low high).1 m, known, same) refl

  -- An id that is larger by 256 calls the same lambda.
  pub id_wraps :
      (str_type : List ℕ) (id : ℕ)
      → handle_call_by_id h d long_max c str_type (pos (id + 256)) s
        ≡ handle_call_by_id h d long_max c str_type (pos id) s
  unfolding handle_call_by_id
  id_wraps str_type id = let same : (id + 256) % 256 ≡ id % 256 = omega arith in rw same refl
