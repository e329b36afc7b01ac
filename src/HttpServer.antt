-- ===== src/HttpServer.antt =====
-- restserver/rs_server_http.cpp: the class RiotsensorsHTTPProvider. A handler is the list of what it
-- does with the response and the process. `request.param` and `request.query` are Pistache's: the
-- path's parts and the query's `type` are arguments (`int_id` is what `as<int>` returns; where it
-- throws, the handler ends there and is not modelled). none is undefined behaviour.
pub mod Listings
pub mod Calls
use riotsensors.Prelude.{
  ℕ, List, [], ◌∷◌, ◌++◌, Bool, true, false, Option, none, some, ◌==◌, if◌then◌else◌, codes,
}
use riotsensors.Prelude.Int.{ℤ, is_negative, to_uint8}
use riotsensors.Registry.Types.{unknown_type, get_lambda_type_from_string}
use riotsensors.Packets.{Host, Doubles}
use riotsensors.Connector.State.{Connector}
use riotsensors.Rest.Writer.{Event}
use riotsensors.Rest.Handler as RestHandler
use riotsensors.Rest.Handler.{HttpCode, ok, bad_request, ResponseInfo, Serving, Served}

-- The body of a response: a text, or a JSON document.
pub data Content (D : Type 0) : Type 0 where
  text : List ℕ → Content D
  json : List (Event D) → Content D

-- response.setMime, response.send, raise(SIGINT), server->shutdown.
pub data Action (D : Type 0) : Type 0 where
  set_mime : Action D
  send : HttpCode → Content D → Action D
  raise_sigint : Action D
  shutdown : Action D

-- The state after a request, the packets that it sent to the board, and what it did.
pub record Handled (D : Type 0) : Type 0 where
  pub connector : Connector D
  pub sent : List (List ℕ)
  pub actions : List (Action D)

abbrev pub line : List ℕ → List ℕ
line s = s ++ 10 ∷ []

-- The type of the query: 0 without one.
abbrev pub query_type : ℕ → Option (List ℕ) → ℕ
query_type long_max none = 0
query_type long_max (some typeparam) = get_lambda_type_from_string long_max typeparam

module _ {D : Type 0} where
  abbrev pub refuse_type : Action D
  refuse_type = send bad_request (text (line (codes "Unknown lambda type")))

  abbrev pub refuse_id : Action D
  refuse_id = send bad_request (text (line (codes "Bad lambda id")))

  -- The last three lines of a handler.
  abbrev pub answer : ResponseInfo D → List (Action D)
  answer info = set_mime ∷ send info.status (json info.body) ∷ []

  abbrev pub answer_all : Option (ResponseInfo D) → Option (List (Action D))
  answer_all none = none
  answer_all (some info) = some (answer info)

  abbrev pub answer_after : List (Action D) → Option (Served D) → Option (Handled D)
  answer_after before none = none
  answer_after before (some x) =
      some (record { connector = x.connector; sent = x.sent; actions = before ++ answer x.info })

  -- The tests of the parameters: neither ends the handler.
  abbrev pub check_type : ℕ → List (Action D)
  check_type type = if type == unknown_type then refuse_type ∷ [] else []

  abbrev pub check_id : ℤ → List (Action D)
  check_id int_id = if is_negative int_id then refuse_id ∷ [] else []

  unfoldable pub handle_list : ℕ → Connector D → Option (List ℕ) → Option (List (Action D))
  handle_list long_max c typeparam =
      let type = query_type long_max typeparam in
      if type == unknown_type
      then some (refuse_type ∷ [])
      else answer_all (RestHandler.handle_list c type)

  unfoldable pub handle_cache : ℕ → Connector D → Option (List ℕ) → Option (List (Action D))
  handle_cache long_max c typeparam =
      let type = query_type long_max typeparam in
      if type == unknown_type
      then some (refuse_type ∷ [])
      else answer_all (RestHandler.handle_cache c type)

  unfoldable pub handle_kill : List (Action D)
  handle_kill = raise_sigint ∷ send ok (text (line (codes "Kill"))) ∷ shutdown ∷ []

module _ {D : Type 0} (h : Host) (d : Doubles D) (long_max : ℕ) where
  unfoldable pub handle_call_by_id : Connector D → List ℕ → ℤ → Serving D → Option (Handled D)
  handle_call_by_id c str_type int_id s =
      let type = get_lambda_type_from_string long_max str_type in
      answer_after (check_type type ++ check_id int_id)
        (RestHandler.handle_call_by_id h d c type (to_uint8 int_id) s)

  unfoldable pub handle_call_by_name :
      Connector D → List ℕ → List ℕ → Serving D → Option (Handled D)
  handle_call_by_name c str_type name s =
      let type = get_lambda_type_from_string long_max str_type in
      answer_after (check_type type) (RestHandler.handle_call_by_name h d c type name s)
