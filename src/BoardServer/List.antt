-- ===== src/BoardServer/List.antt =====
-- `handle_list` of rs_coap_server.c.
use mathlib.Core.Option
use riotsensors.Prelude.{
  ℕ, zero, suc, ◌+◌, ◌%◌, List, [], ◌∷◌, ◌++◌, ◌&&◌, not, Option, none, some, ltb, ◌==◌,
  if◌then◌else◌, codes,
}
use riotsensors.CString.{strcmp_eq}
use riotsensors.Registry.{
  RegisteredLambda, Registry, get_number_of_registered_lambdas, get_registered_lambda_by_id,
}
use riotsensors.Registry.Types.{unknown_type, get_lambda_type_from_string}
use riotsensors.Board.State.{Board}
use riotsensors.BoardServer.Buffers.{
  Opt, Response, Rsp, answer, append, key_value, name_type_cache, print_uint, refuse, sprintf_buf,
}

-- for (lambda_id_t i = first; i < n; i++): the values of `i`, a byte; none where the fuel ends.
unfoldable pub for_ids : ℕ → ℕ → ℕ → Option (List ℕ)
for_ids zero i n = none
for_ids (suc fuel) i n =
    let rest = for_ids fuel ((i + 1) % 256) n in
    if ltb i n then Option.map (λ is. i ∷ is) rest else some []

unfoldable pub list_entry : RegisteredLambda ℕ → List ℕ
list_entry l =
    codes "\""
    ++ (print_uint l.id
        ++ (codes "\": {\"id\": " ++ (print_uint l.id ++ (name_type_cache l ++ codes "}"))))

abbrev pub wanted : ℕ → Option (RegisteredLambda ℕ) → Option (RegisteredLambda ℕ)
wanted type none = none
wanted type (some l) = if not (type == 0) && not (l.type == type) then none else some l

abbrev pub append_buf : Rsp → Option (List ℕ) → Option Rsp
append_buf r none = none
append_buf r (some buf) = append r buf

-- The body of the loop for the ids in order, with the count.
unfoldable pub list_all : Registry ℕ → ℕ → List ℕ → Rsp → ℕ → Option (Rsp × ℕ)
list_all r type [] rsp count = some (rsp, count)
list_all r type (i ∷ is) rsp count = elim (wanted type (get_registered_lambda_by_id r i)) [
  | none ↦ list_all r type is rsp count
  | some l ↦ elim (append_buf rsp (sprintf_buf (list_entry l))) [
    | none ↦ none
    | some rsp' ↦ list_all r type is rsp' ((count + 1) % 256)
  ]
]

abbrev pub list_end : Option (Rsp × ℕ) → Option Response
list_end none = none
list_end (some (rsp, count)) =
    Option.map (λ r. answer r.text)
      (append_buf rsp (sprintf_buf (codes "},\"count\":" ++ (print_uint count ++ codes "}"))))

abbrev pub list_from : Registry ℕ → ℕ → Option Rsp → Option (List ℕ) → Option Response
list_from r type none is = none
list_from r type (some rsp) none = none
list_from r type (some rsp) (some is) = list_end (list_all r type is rsp 0)

abbrev pub list_of_type : Registry ℕ → ℕ → Option Response
list_of_type r type =
    if type == unknown_type
    then some (refuse (codes "Unknown lambda type"))
    else list_from r type (append (record { text = []; len = 500 }) (codes "{\"lambdas\":{"))
        (for_ids 256 0 (get_number_of_registered_lambdas r))

-- The first option `type` counts.
unfoldable pub list_type : ℕ → List Opt → Option ℕ
list_type long_max [] = some 0
list_type long_max (opt ∷ opts) = elim (key_value opt) [
  | none ↦ none
  | some (key, value) ↦
      if strcmp_eq key (codes "type")
      then some (get_lambda_type_from_string long_max value)
      else list_type long_max opts
]

unfoldable pub handle_list : ℕ → Board → List Opt → Option Response
handle_list long_max b opts = elim (list_type long_max opts) [
  | none ↦ none
  | some type ↦ list_of_type b.registry type
]
