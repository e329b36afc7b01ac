-- ===== src/System/Servers.antt =====
-- A request to one of the two servers on Linux that the board answers: restserver/rs_server_http.cpp and
-- rs_server_coap.cpp over the connector and the board.
use riotsensors.Prelude.{
  ℕ, ◌^◌, ◌≤◌, ◌<◌, ◌≡◌, ◌≢◌, ◌⊎◌, ap, sym, ◌∙◌, List, [], ◌∷◌, true, false, some, arith, length,
}
use riotsensors.Prelude.Int.{pos}
use riotsensors.CString.{c_str}
use riotsensors.CString.Numbers.{IsNumeral}
use riotsensors.Registry.{RegisteredLambda, get_registered_lambda_by_id}
use riotsensors.Registry.Contract.{by_id-slot, in_range}
use riotsensors.Packets.{Host, Doubles}
use riotsensors.Connector.State.{Connector, Memory, ret_i}
use riotsensors.Connector.Call.{call_by_id_request}
use riotsensors.Connector.Invariant.{IsValid}
use riotsensors.Board.State.{Board, Lambdas, spt_send_packet}
use riotsensors.Board.Handler.{handle_received_packet}
use riotsensors.Board.Answers.{IsShort}
use riotsensors.Rest.Writer.{Event, decimal}
use riotsensors.Rest.Json.{document}
use riotsensors.Rest.Trees.{success_tree}
use riotsensors.Rest.Handler.{ok, Serving}
use riotsensors.HttpServer as Http
use riotsensors.HttpServer.{set_mime, send, json, answer_after}
use riotsensors.HttpServer.Calls.{good_call}
use riotsensors.CoapServer.Handlers as Coap
use riotsensors.CoapServer.Handlers.{transfer_served}
use riotsensors.CoapServer.Queries.{type_option, id_option}
use riotsensors.CoapServer.Answers.{good_query_by_id}
use riotsensors.System.Web.{rest_call}

-- A call in whose wait one packet arrives.
abbrev pub one_packet : {D : Type 0} → List ℕ → Memory D → List ℕ → Serving D
one_packet block mem packet = record {
  wait = record { request = some block; during = (mem, packet) ∷ []; timed_out = false };
  between = [];
}

module _ {D : Type 0} (h : Host) (d : Doubles D) (long_max : ℕ) (c : Connector D) (b : Board) where
  -- In a valid connector, with a LONG_MAX of at least 2^31, let an integer lambda of the policy
  -- NO_CACHE or ON_TIMEOUT be registered under an id that a running board also has for an
  -- integer lambda, whose function is not NULL and returns a number of 32 bits and whose name
  -- has fewer than twelve characters. A GET of this id with a numeral of 1 as the type sends
  -- the request, which the board answers with one packet; if this packet and no other is
  -- handled in the wait, both the HTTP server and the CoAP server (asked with the options type
  -- and id, the id in decimal) answer once, with the code of Ok and the document of a fresh
  -- success with the number, as a signed one, that the function returned (hosts of one byte
  -- order).
  pub call_served :
      (m : Lambdas D) (k l : RegisteredLambda ℕ) (t stack behind block : List ℕ) (mem : Memory D)
      → 2 ^ 31 ≤ long_max
      → IsNumeral 1 (c_str t)
      → IsValid c
      → get_registered_lambda_by_id c.registry k.id ≡ some l
      → l.type ≡ 1
      → (l.cache ≡ 1) ⊎ (l.cache ≡ 4)
      → get_registered_lambda_by_id b.registry k.id ≡ some k
      → k.type ≡ 1
      → k.arg ≢ 0
      → IsShort k
      → b.rs_spt_started ≡ true
      → length stack ≡ 12
      → m.int k.arg k.id < 256 ^ 4
      → (packet : List ℕ) × (c' : Connector D) × (body : List (Event D)) × (handle_received_packet h
            d m b stack behind
            (call_by_id_request k.id 1)
          ≡ some (spt_send_packet b packet))
        × (document (success_tree (some l) false false (ret_i (m.int k.arg k.id))) ≡ some body)
        × (Http.handle_call_by_id h d long_max c t (pos k.id) (one_packet block mem packet)
            ≡ some (record {
              connector = c';
              sent = call_by_id_request k.id 1 ∷ [];
              actions = set_mime ∷ send ok (json body) ∷ [];
            }))
        × (Coap.handle_call_by_id h d long_max c
              (type_option t ∷ id_option (decimal k.id) ∷ [])
              (one_packet block mem packet)
            ≡ some (record {
              connector = c';
              sent = call_by_id_request k.id 1 ∷ [];
              response = record { code = 200; is_json = true; payload = json body };
            }))
  call_served m k l t stack behind block mem large numeral v at typed policy there typed' set short
        started size lt =
      let (packet, x, answered, ran, sent, fine, body) =
        rest_call h d c b m k l stack behind block mem v at typed policy there typed' set short
          started size lt in
      let small : k.id < 255 = omega (
        arith,
        in_range c.registry k.id v.registry (sym (by_id-slot c.registry k.id v.registry) ∙ at),
        v.registry.within,
      ) in
      let s = one_packet block mem packet in
      (
        packet,
        x.connector,
        x.info.body,
        answered,
        body,
        good_call h d long_max (omega arith) c s t 1 k.id (omega arith) (omega arith) numeral
              (omega arith)
            ∙ ap (answer_after []) ran
            ∙ (λ i. some (record {
              connector = x.connector;
              sent = sent i;
              actions = set_mime ∷ send (fine i) (json x.info.body) ∷ [];
            })),
        (good_query_by_id h d long_max large c s t 1 k.id (omega arith) (omega arith) numeral
              small).0
            ∙ ap transfer_served ran
            ∙ (λ i. some (record {
              connector = x.connector;
              sent = sent i;
              response = record {
                code = Coap.number_of (fine i);
                is_json = true;
                payload = json x.info.body;
              };
            })),
      )
