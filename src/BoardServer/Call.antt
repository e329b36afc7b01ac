-- ===== src/BoardServer/Call.antt =====
-- The calls of rs_coap_server.c: `handle_call_name`, `handle_call_id`, and what they print.
use riotsensors.Prelude.{
  ℕ, List, [], ◌∷◌, ◌++◌, Bool, ◌||◌, Option, none, some, ltb, ◌==◌, if◌then◌else◌, length, codes,
}
use riotsensors.Prelude.Int.{ℤ, is_negative, to_int32, to_uint8}
use riotsensors.CString.{c_str, strlen, strcmp_eq, strtol}
use riotsensors.Constants.{
  rs_lambda_int, rs_lambda_double, rs_lambda_string, rs_call_notfound, rs_call_wrongtype,
}
use riotsensors.Registry.{
  RegisteredLambda, get_registered_lambda_by_id, get_registered_lambda_by_name,
}
use riotsensors.Registry.Types.{unknown_type, get_lambda_type_from_string}
use riotsensors.Board.State.{Board, Lambdas}
use riotsensors.Board.Calls.{call_lambda_int, call_lambda_double, call_lambda_string}
use riotsensors.BoardServer.Buffers.{
  Opt, Response, answer, key_value, name_type_cache, print_int, print_uint, refuse, sprintf_buf,
}

-- The texts about a call.
abbrev pub call_success : RegisteredLambda ℕ → List ℕ → List ℕ
call_success l result =
    codes "{\"success\": true,\"lambda\":{\"id\":"
    ++ (print_uint l.id ++ (name_type_cache l ++ (codes "},\"result\":" ++ (result ++ codes "}"))))

abbrev pub call_failure : RegisteredLambda ℕ → ℤ → List ℕ
call_failure l error =
    codes "{\"success\": false,\"lambda\":{\"id\":"
    ++ (print_uint l.id
        ++ (name_type_cache l ++ (codes "},\"error\":" ++ (print_int error ++ codes "}"))))

-- What is printed for a call that returned `call_res` and wrote a result.
abbrev pub report :
    {R : Type 0} → RegisteredLambda ℕ → (R → List ℕ) → Option (ℤ × Option R) → Option (List ℕ)
report l print none = none
report l print (some (call_res, none)) =
    if is_negative call_res then sprintf_buf (call_failure l call_res) else none
report l print (some (call_res, some r)) =
    if is_negative call_res
    then sprintf_buf (call_failure l call_res)
    else sprintf_buf (call_success l (print r))

abbrev pub quoted : List ℕ → List ℕ
quoted s = codes "\"" ++ (s ++ codes "\"")

-- The variables of the two call handlers.
pub record NameQuery : Type 0 where
  pub type : ℕ
  pub name : List ℕ

pub record IdQuery : Type 0 where
  pub type : ℕ
  pub id : ℕ

abbrev pub answer_buf : Option (List ℕ) → Option Response
answer_buf none = none
answer_buf (some buf) = some (answer buf)

-- strcpy(name, value) into twelve bytes.
abbrev pub copy_name : NameQuery → List ℕ → Option NameQuery
copy_name q value = if ltb (strlen value) 12 then some (record q { name = c_str value }) else none

unfoldable pub name_query : ℕ → List Opt → NameQuery → Option NameQuery
name_query long_max [] q = some q
name_query long_max (opt ∷ opts) q = elim (key_value opt) [
  | none ↦ none
  | some (key, value) ↦
      if strcmp_eq key (codes "type")
      then name_query long_max opts (record q { type = get_lambda_type_from_string long_max value })
      else if strcmp_eq key (codes "name")
      then (elim (copy_name q value) [ none ↦ none | some q' ↦ name_query long_max opts q' ])
      else name_query long_max opts q
]

-- The id is taken if the whole value is a number.
abbrev pub take_id : IdQuery → ℤ × List ℕ → IdQuery
take_id q (num, []) = record q { id = to_uint8 num }
take_id q (num, c ∷ rest) = q

unfoldable pub id_query : ℕ → List Opt → IdQuery → Option IdQuery
id_query long_max [] q = some q
id_query long_max (opt ∷ opts) q = elim (key_value opt) [
  | none ↦ none
  | some (key, value) ↦
      if strcmp_eq key (codes "type")
      then id_query long_max opts (record q { type = get_lambda_type_from_string long_max value })
      else if strcmp_eq key (codes "id")
      then id_query long_max opts (take_id q (strtol long_max value))
      else id_query long_max opts q
]

module _ {D : Type 0} (m : Lambdas D) (print_double : D → List ℕ) (long_max : ℕ) (b : Board) where
  unfoldable pub perform_coap_lambda_call : ℕ → RegisteredLambda ℕ → Option (List ℕ)
  perform_coap_lambda_call type l =
      if type == rs_lambda_int
      then report l (λ n. print_int (to_int32 n)) (call_lambda_int m b l.id)
      else if type == rs_lambda_double
      then report l print_double (call_lambda_double m b l.id)
      else if type == rs_lambda_string
      then report l (λ s. quoted (c_str s)) (call_lambda_string m b l.id)
      else sprintf_buf (call_failure l rs_call_wrongtype)

  -- The answer, by the lambda that was looked up; `missing` is printed for NULL.
  abbrev pub call_found : ℕ → List ℕ → Option (RegisteredLambda ℕ) → Option Response
  call_found type missing none = answer_buf (sprintf_buf missing)
  call_found type missing (some l) = answer_buf (perform_coap_lambda_call type l)

  abbrev pub is_no_type : ℕ → Bool
  is_no_type type = type == unknown_type || type == 0

  abbrev pub call_name : Option NameQuery → Option Response
  call_name none = none
  call_name (some q) =
      if is_no_type q.type
      then some (refuse (codes "Unknown/missing lambda type"))
      else if length q.name == 0
      then some (refuse (codes "Wrong/missing lambda name"))
      else call_found q.type
          (codes "{\"success\": false,\"lambda\":{\"id\":-1,\"name\":\""
            ++ (q.name
                ++ (codes "\",\"type\":-1,\"cache\":-1},\"error\":"
                    ++ (print_int rs_call_notfound ++ codes "}"))))
          (get_registered_lambda_by_name b.registry q.name)

  unfoldable pub handle_call_name : List Opt → Option Response
  handle_call_name opts = call_name (name_query long_max opts (record { type = 0; name = [] }))

  abbrev pub call_id : Option IdQuery → Option Response
  call_id none = none
  call_id (some q) =
      if is_no_type q.type
      then some (refuse (codes "Unknown/missing lambda type"))
      else if q.id == 255
      then some (refuse (codes "Wrong/missing lambda id"))
      else call_found q.type
          (codes "{\"success\": false,\"lambda\":{\"id\":"
            ++ (print_uint q.id
                ++ (codes ",\"name\":\"unknown\",\"type\":-1,\"cache\":-1},\"error\":"
                    ++ (print_int rs_call_notfound ++ codes "}"))))
          (get_registered_lambda_by_id b.registry q.id)

  unfoldable pub handle_call_id : List Opt → Option Response
  handle_call_id opts = call_id (id_query long_max opts (record { type = 0; id = 255 }))
