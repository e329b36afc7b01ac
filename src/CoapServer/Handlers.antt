-- ===== src/CoapServer/Handlers.antt =====
-- The responses and the handlers of rs_server_coap.cpp.
use riotsensors.Prelude.{
  ℕ, List, [], Bool, true, false, not, Option, none, some, ◌==◌, if◌then◌else◌, length, codes,
}
use riotsensors.Registry.Types.{unknown_type}
use riotsensors.Packets.{Host, Doubles}
use riotsensors.Connector.State.{Connector}
use riotsensors.Rest.Handler as RestHandler
use riotsensors.Rest.Handler.{HttpCode, ok, bad_request, not_found, ResponseInfo, Serving, Served}
use riotsensors.HttpServer.{Content, text, json}
use riotsensors.CoapServer.Query.{IdQuery, NameQuery, coap_parse_type, id_query, name_query}

-- The response: its code as the number that COAP_RESPONSE_CODE is given, whether its content type is
-- set to JSON, and its payload.
pub record Response (D : Type 0) : Type 0 where
  pub code : ℕ
  pub is_json : Bool
  pub payload : Content D

pub record Handled (D : Type 0) : Type 0 where
  pub connector : Connector D
  pub sent : List (List ℕ)
  pub response : Response D

abbrev pub number_of : HttpCode → ℕ
number_of ok = 200
number_of bad_request = 400
number_of not_found = 404

module _ {D : Type 0} where
  abbrev pub coap_transfer_data_from_response_info : ResponseInfo D → Response D
  coap_transfer_data_from_response_info info = record {
    code = number_of info.status;
    is_json = true;
    payload = json info.body;
  }

  abbrev pub refuse : List ℕ → Response D
  refuse message = record { code = 400; is_json = false; payload = text message }

  abbrev pub coap_answer_with_unknown_type : Response D
  coap_answer_with_unknown_type = refuse (codes "Unknown lambda type")

  abbrev pub transfer_all : Option (ResponseInfo D) → Option (Response D)
  transfer_all none = none
  transfer_all (some info) = some (coap_transfer_data_from_response_info info)

  abbrev pub transfer_served : Option (Served D) → Option (Handled D)
  transfer_served none = none
  transfer_served (some x) = some (record {
    connector = x.connector;
    sent = x.sent;
    response = coap_transfer_data_from_response_info x.info;
  })

  -- A refusal changes nothing and sends no packet.
  abbrev pub refused : Connector D → List ℕ → Option (Handled D)
  refused c message = some (record { connector = c; sent = []; response = refuse message })

  abbrev pub list_or_refuse : (ℕ → Option (ResponseInfo D)) → Option ℕ → Option (Response D)
  list_or_refuse list none = none
  list_or_refuse list (some type) =
      if type == unknown_type then some coap_answer_with_unknown_type else transfer_all (list type)

  unfoldable pub handle_list : ℕ → Connector D → List (List ℕ) → Option (Response D)
  handle_list long_max c opts =
      list_or_refuse (λ type. RestHandler.handle_list c type) (coap_parse_type long_max opts)

  unfoldable pub handle_cache : ℕ → Connector D → List (List ℕ) → Option (Response D)
  handle_cache long_max c opts =
      list_or_refuse (λ type. RestHandler.handle_cache c type) (coap_parse_type long_max opts)

  unfoldable pub handle_kill : Response D
  handle_kill = record {
    code = 200;
    is_json = false;
    payload = text (codes "Successfully killed server");
  }

module _ {D : Type 0} (h : Host) (d : Doubles D) where
  abbrev pub call_by_id : Connector D → Serving D → Option IdQuery → Option (Handled D)
  call_by_id c s none = none
  call_by_id c s (some q) =
      if not q.id_found
      then refused c (codes "Missing id query parameter")
      else if not q.type_found
      then refused c (codes "Missing type query parameter")
      else if q.id == 255
      then refused c (codes "Illegal id parameter")
      else if q.type == unknown_type
      then refused c (codes "Illegal type parameter")
      else transfer_served (RestHandler.handle_call_by_id h d c q.type q.id s)

  unfoldable pub handle_call_by_id :
      ℕ → Connector D → List (List ℕ) → Serving D → Option (Handled D)
  handle_call_by_id long_max c opts s = call_by_id c s (id_query long_max opts)

  abbrev pub call_by_name : Connector D → Serving D → Option NameQuery → Option (Handled D)
  call_by_name c s none = none
  call_by_name c s (some q) =
      if not q.name_found
      then refused c (codes "Missing name query parameter")
      else if not q.type_found
      then refused c (codes "Missing type query parameter")
      else if length q.name == 0
      then refused c (codes "Illegal name parameter")
      else if q.type == unknown_type
      then refused c (codes "Illegal type parameter")
      else transfer_served (RestHandler.handle_call_by_name h d c q.type q.name s)

  unfoldable pub handle_call_by_name :
      ℕ → Connector D → List (List ℕ) → Serving D → Option (Handled D)
  handle_call_by_name long_max c opts s = call_by_name c s (name_query long_max opts)
