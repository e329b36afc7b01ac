-- ===== src/CoapServer/Answers.antt =====
-- The call handlers of the CoAP server: what is answered to good and to bad queries.
use riotsensors.Prelude.{
  ℕ, ◌^◌, ◌≤◌, ◌<◌, ◌≡◌, refl, ap, ◌∙◌, List, [], ◌∷◌, false, none, some, arith, ◌==◌, length,
  codes,
}
use riotsensors.CString.{c_str}
use riotsensors.CString.Numbers.{IsNumeral}
use riotsensors.Registry.Types.{get_lambda_type_from_string_lem}
use riotsensors.Packets.{Host, Doubles}
use riotsensors.Connector.State.{Connector}
use riotsensors.Rest.Writer.{decimal}
use riotsensors.Rest.Handler as RestHandler
use riotsensors.Rest.Handler.{Serving, Served}
use riotsensors.CoapServer.Query.{
  or_match, match_id, match_name, id_body, id_query, name_body, name_query, type_body,
  coap_parse_type,
}
use riotsensors.CoapServer.Handlers.{
  transfer_served, handle_call_by_id, handle_call_by_name, call_by_id, call_by_name, list_or_refuse,
  handle_list, handle_cache,
}
use riotsensors.CoapServer.Options.{match_bare}
use riotsensors.CoapServer.Queries.{
  id_option, id_query_of, name_option, name_query_of, stopped, type-IsKey, type_option,
}

module _ {D : Type 0} (h : Host) (d : Doubles D) (long_max : ℕ) (large : 2 ^ 31 ≤ long_max)
    (c : Connector D) (s : Serving D) where
  -- With a LONG_MAX of at least 2^31, the CoAP server of Linux answers a query of a type, which
  -- is a numeral of 1, 2 or 3, and an id below 255 in decimal, in either order of the two
  -- options, with what `RiotsensorsRESTHandler::handleCallById` answers for this type and id.
  pub good_query_by_id :
      (t : List ℕ) (type i : ℕ)
      → 1 ≤ type
      → type ≤ 3
      → IsNumeral type (c_str t)
      → i < 255
      → (handle_call_by_id h d long_max c (type_option t ∷ id_option (decimal i) ∷ []) s
          ≡ transfer_served (RestHandler.handle_call_by_id h d c type i s))
        × (handle_call_by_id h d long_max c (id_option (decimal i) ∷ type_option t ∷ []) s
            ≡ transfer_served (RestHandler.handle_call_by_id h d c type i s))
  unfolding handle_call_by_id
  good_query_by_id t type i low high m small =
      let known : (type == 255) ≡ false = ground arith in
      let wanted : (i == 255) ≡ false = ground arith in
      let typed =
        ((get_lambda_type_from_string_lem long_max t (omega arith)).1 type low high).1 m in
      let (first, second) = id_query_of long_max t i large (omega arith) in
      (
        ap (call_by_id h d c s) first ∙ rw (typed, wanted, known) refl,
        ap (call_by_id h d c s) second ∙ rw (typed, wanted, known) refl,
      )

  -- A query of a known type and a name that is not empty is answered like the call by name.
  pub good_query_by_name :
      (t name : List ℕ) (type : ℕ)
      → 1 ≤ type
      → type ≤ 3
      → IsNumeral type (c_str t)
      → 1 ≤ length name
      → (handle_call_by_name h d long_max c (type_option t ∷ name_option name ∷ []) s
          ≡ transfer_served (RestHandler.handle_call_by_name h d c type name s))
        × (handle_call_by_name h d long_max c (name_option name ∷ type_option t ∷ []) s
            ≡ transfer_served (RestHandler.handle_call_by_name h d c type name s))
  unfolding handle_call_by_name
  good_query_by_name t name type low high m some_name =
      let known : (type == 255) ≡ false = ground arith in
      let wanted : (length name == 0) ≡ false = ground arith in
      let typed =
        ((get_lambda_type_from_string_lem long_max t (omega arith)).1 type low high).1 m in
      let (first, second) = name_query_of long_max t name in
      (
        ap (call_by_name h d c s) first ∙ rw (typed, wanted, known) refl,
        ap (call_by_name h d c s) second ∙ rw (typed, wanted, known) refl,
      )

  -- With a LONG_MAX of at least 2^31, a first option that is the key "type" without a sign '='
  -- makes the four handlers of the CoAP server of Linux throw, whatever options follow.
  pub bare_key_throws :
      (opts : List (List ℕ))
      → (handle_call_by_id h d long_max c (codes "type" ∷ opts) s ≡ none)
        × (handle_call_by_name h d long_max c (codes "type" ∷ opts) s ≡ none)
        × (handle_list long_max c (codes "type" ∷ opts) ≡ none)
        × (handle_cache long_max c (codes "type" ∷ opts) ≡ none)
  unfolding handle_call_by_id id_query id_body handle_call_by_name name_query name_body handle_list
      handle_cache coap_parse_type type_body
  bare_key_throws opts = (
    ap (call_by_id h d c s) (
        stopped (id_body long_max) (codes "type") opts _ (
          ap (λ m. or_match m (match_id long_max (codes "type")))
            (match_bare (codes "type") _ _ type-IsKey))),
    ap (call_by_name h d c s) (
        stopped (name_body long_max) (codes "type") opts _ (
          ap (λ m. or_match m (match_name (codes "type")))
            (match_bare (codes "type") _ _ type-IsKey))),
    ap (list_or_refuse _) no_type,
    ap (list_or_refuse _) no_type,
  )
    where
      no_type : coap_parse_type long_max (codes "type" ∷ opts) ≡ none
      no_type = stopped (type_body long_max) (codes "type") opts 0 (
          ap (λ m. or_match m (λ type'. some (false, type')))
            (match_bare (codes "type") _ 0 type-IsKey))
