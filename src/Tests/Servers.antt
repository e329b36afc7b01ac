-- ===== src/Tests/Servers.antt =====
-- Tests of the parameters of the two servers of the Linux side.
use riotsensors.Prelude.{
  ℕ, ◌≡◌, ◌↔◌, ◌≤◌, ◌⊎◌, refl, inl, List, [], true, ◌∷◌, Bool, false, none, some, arith, codes, ◌^◌,
  ◌-◌,
}
use riotsensors.Prelude.Int.{pos}
use riotsensors.CString.{c_str}
use riotsensors.CString.Numbers.{IsNumeral}
use riotsensors.Registry.Types.{get_lambda_type_from_string, get_lambda_type_from_string_lem}
use riotsensors.Packets.{little_endian}
use riotsensors.Rest.Writer.{decimal}
use riotsensors.Rest.Handler as RestHandler
use riotsensors.Rest.Handler.{Serving}
use riotsensors.HttpServer as Http
use riotsensors.CoapServer.Handlers as Coap
use riotsensors.CoapServer.Handlers.{transfer_served}
use riotsensors.CoapServer.Queries.{type_option, id_option}
use riotsensors.CoapServer.Answers.{good_query_by_id, bare_key_throws}
use riotsensors.CString.{strlen}
use riotsensors.Registry.{get_registered_lambda_by_id}
use riotsensors.Connector.State.{Connector, ret_i}
use riotsensors.Connector.Call.{call_by_id_request}
use riotsensors.Board.State.{spt_send_packet}
use riotsensors.Board.Handler.{handle_received_packet}
use riotsensors.Rest.Writer.{Event}
use riotsensors.Rest.Json.{document}
use riotsensors.Rest.Trees.{success_tree}
use riotsensors.Rest.Handler.{ok}
use riotsensors.HttpServer.{set_mime, send, json}
use riotsensors.System.Servers.{one_packet, call_served}
use riotsensors.Tests.Data.{
  zeros, bits, cached, uncached, linux, linux-IsValid, lambdas, running, temp_lambda, memory,
}

abbrev long_max : ℕ
long_max = 2 ^ 63 - 1

abbrev asking : Serving Bool
asking = record {
  wait = record { request = some zeros; during = []; timed_out = false };
  between = [];
}

get_lambda_type_from_string_lem_example :
    ((get_lambda_type_from_string long_max (codes "2") ≡ 255)
      ⊎ ((1 ≤ get_lambda_type_from_string long_max (codes "2"))
          × (get_lambda_type_from_string long_max (codes "2") ≤ 3)))
    × ((k : ℕ)
        → 1 ≤ k
        → k ≤ 3
        → (get_lambda_type_from_string long_max (codes "2") ≡ k) ↔ IsNumeral k (c_str (codes "2")))
get_lambda_type_from_string_lem_example =
    get_lambda_type_from_string_lem long_max (codes "2") (omega arith)

-- "1" is the number 1.
abbrev one_IsNumeral : IsNumeral 1 (c_str (codes "1"))
unfolding c_str
one_IsNumeral = record { spaces = []; sign = []; pad = 0; all = tt; plus = inl refl; parts = refl }

good_query_by_id_example :
    (Coap.handle_call_by_id little_endian bits long_max
        (linux 3 cached)
        (type_option (codes "1") ∷ id_option (decimal 0) ∷ [])
        asking
      ≡ transfer_served
          (RestHandler.handle_call_by_id little_endian bits (linux 3 cached) 1 0 asking))
    × (Coap.handle_call_by_id little_endian bits long_max
          (linux 3 cached)
          (id_option (decimal 0) ∷ type_option (codes "1") ∷ [])
          asking
        ≡ transfer_served
            (RestHandler.handle_call_by_id little_endian bits (linux 3 cached) 1 0 asking))
good_query_by_id_example =
    good_query_by_id little_endian bits long_max (omega arith) (linux 3 cached) asking (codes "1") 1
      0 (omega arith) (omega arith) one_IsNumeral (omega arith)

bare_key_throws_example :
    (Coap.handle_call_by_id little_endian bits long_max (linux 3 cached) (codes "type" ∷ []) asking
      ≡ none)
    × (Coap.handle_call_by_name little_endian bits long_max
          (linux 3 cached)
          (codes "type" ∷ [])
          asking
        ≡ none)
    × (Coap.handle_list long_max (linux 3 cached) (codes "type" ∷ []) ≡ none)
    × (Coap.handle_cache long_max (linux 3 cached) (codes "type" ∷ []) ≡ none)
bare_key_throws_example =
    bare_key_throws little_endian bits long_max (omega arith) (linux 3 cached) asking []

call_served_example :
    (packet : List ℕ) × (c' : Connector Bool) × (body : List (Event Bool)) × (handle_received_packet
        little_endian bits lambdas running zeros []
        (call_by_id_request 0 1)
      ≡ some (spt_send_packet running packet))
    × (document (success_tree (some (temp_lambda 1 0)) false false (ret_i 42)) ≡ some body)
    × (Http.handle_call_by_id little_endian bits long_max
          (linux 1 uncached)
          (codes "1")
          (pos 0)
          (one_packet zeros memory packet)
        ≡ some (record {
          connector = c';
          sent = call_by_id_request 0 1 ∷ [];
          actions = set_mime ∷ send ok (json body) ∷ [];
        }))
    × (Coap.handle_call_by_id little_endian bits long_max
          (linux 1 uncached)
          (type_option (codes "1") ∷ id_option (decimal 0) ∷ [])
          (one_packet zeros memory packet)
        ≡ some (record {
          connector = c';
          sent = call_by_id_request 0 1 ∷ [];
          response = record { code = 200; is_json = true; payload = json body };
        }))
unfolding get_registered_lambda_by_id strlen c_str
call_served_example =
    call_served little_endian bits long_max (linux 1 uncached) running lambdas (temp_lambda 1 7)
      (temp_lambda 1 0) (codes "1") zeros [] zeros memory (omega arith) one_IsNumeral
      (linux-IsValid 1 uncached tt) refl refl (inl refl) refl refl (λ e. omega arith) (omega arith)
      refl refl (omega arith)
