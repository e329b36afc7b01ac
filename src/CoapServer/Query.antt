-- ===== src/CoapServer/Query.antt =====
-- The options of a request to the CoAP server of Linux: rs_server_coap.cpp, its macro and its loops.
use riotsensors.Prelude.{
  ℕ, ◌+◌, ◌^◌, List, [], ◌∷◌, Bool, true, false, Option, none, some, ltb, ◌==◌, if◌then◌else◌,
  length, take, drop, codes,
}
use riotsensors.Prelude.Int.{ℤ, pos, negsuc, to_uint8}
use riotsensors.CString.{c_str, strcmp_eq, strtol}
use riotsensors.Registry.Types.{get_lambda_type_from_string}

-- std::string::find of a character, and std::string::substr from a position on.
unfoldable pub find : ℕ → List ℕ → Option ℕ
find c [] = none
find c (b ∷ s) = elim (find c s) [
  | none ↦ if b == c then some 0 else none
  | some n ↦ if b == c then some 0 else some (n + 1)
]

abbrev pub substr : List ℕ → ℕ → Option (List ℕ)
substr s from = if ltb (length s) from then none else some (drop from s)

-- What std::stoi does.
pub data Stoi : Type 0 where
  value : ℤ → Stoi
  invalid_argument out_of_range : Stoi

abbrev pub in_int : ℤ → Stoi
in_int (pos n) = if ltb n (2 ^ 31) then value (pos n) else out_of_range
in_int (negsuc n) = if ltb n (2 ^ 31) then value (negsuc n) else out_of_range

unfoldable pub stoi : ℕ → List ℕ → Stoi
stoi long_max s =
    let (num, rest) = strtol long_max s in
    if length rest == length (c_str s) then invalid_argument else in_int num

abbrev pub key_value : List ℕ → List ℕ
key_value opt = elim (find b'=' opt) [ none ↦ opt | some loc ↦ take loc opt ]

module _ {S : Type 0} where
  abbrev pub executed : Option S → Option (Bool × S)
  executed none = none
  executed (some s) = some (true, s)

  abbrev pub execute : (List ℕ → S → Option S) → S → Option (List ℕ) → Option (Bool × S)
  execute l s none = none
  execute l s (some arg_str) = executed (l arg_str s)

  -- `l` changes the variables that it captures, `S`; whether the key was the name is returned too.
  unfoldable pub match_coap_opt_and_execute :
      List ℕ → List ℕ → (List ℕ → S → Option S) → S → Option (Bool × S)
  match_coap_opt_and_execute name opt l s =
      if strcmp_eq name (key_value opt)
      then execute l s (substr opt (length name + 1))
      else some (false, s)

  -- The second macro of a loop's body, after the first did not continue.
  abbrev pub or_match : Option (Bool × S) → (S → Option (Bool × S)) → Option S
  or_match none next = none
  or_match (some (true, s)) next = some s
  or_match (some (false, s)) next = elim (next s) [ none ↦ none | some (matched, s') ↦ some s' ]

  -- while ((q = coap_option_next(&opt_iter)) != nullptr)
  unfoldable pub each_option : (List ℕ → S → Option S) → List (List ℕ) → S → Option S
  each_option body [] s = some s
  each_option body (q ∷ qs) s = elim (body q s) [ none ↦ none | some s' ↦ each_option body qs s' ]

unfoldable pub type_body : ℕ → List ℕ → ℕ → Option ℕ
type_body long_max q type =
    or_match
      (match_coap_opt_and_execute (codes "type") q
        (λ arg _. some (get_lambda_type_from_string long_max arg)) type)
      (λ type'. some (false, type'))

unfoldable pub coap_parse_type : ℕ → List (List ℕ) → Option ℕ
coap_parse_type long_max opts = each_option (type_body long_max) opts 0

-- The local variables of the two call handlers.
pub record IdQuery : Type 0 where
  pub type_found : Bool
  pub id_found : Bool
  pub type : ℕ
  pub id : ℕ

pub record NameQuery : Type 0 where
  pub type_found : Bool
  pub name_found : Bool
  pub type : ℕ
  pub name : List ℕ

abbrev pub set_id : Stoi → IdQuery → Option IdQuery
set_id (value i) s = some (record s { id = to_uint8 i; id_found = true })
set_id invalid_argument s = some (record s { id = 255; id_found = true })
set_id out_of_range s = none

-- The two macros of each loop's body, and the bodies.
abbrev pub match_id_type : ℕ → List ℕ → IdQuery → Option (Bool × IdQuery)
match_id_type long_max q s =
    match_coap_opt_and_execute (codes "type") q
      (λ arg t.
        some (record t { type = get_lambda_type_from_string long_max arg; type_found = true }))
      s

abbrev pub match_id : ℕ → List ℕ → IdQuery → Option (Bool × IdQuery)
match_id long_max q s =
    match_coap_opt_and_execute (codes "id") q (λ arg t. set_id (stoi long_max arg) t) s

unfoldable pub id_body : ℕ → List ℕ → IdQuery → Option IdQuery
id_body long_max q s = or_match (match_id_type long_max q s) (match_id long_max q)

unfoldable pub id_query : ℕ → List (List ℕ) → Option IdQuery
id_query long_max opts =
    each_option (id_body long_max) opts
      (record { type_found = false; id_found = false; type = 0; id = 0 })

abbrev pub match_name_type : ℕ → List ℕ → NameQuery → Option (Bool × NameQuery)
match_name_type long_max q s =
    match_coap_opt_and_execute (codes "type") q
      (λ arg t.
        some (record t { type = get_lambda_type_from_string long_max arg; type_found = true }))
      s

abbrev pub match_name : List ℕ → NameQuery → Option (Bool × NameQuery)
match_name q s =
    match_coap_opt_and_execute (codes "name") q
      (λ arg t. some (record t { name = arg; name_found = true })) s

unfoldable pub name_body : ℕ → List ℕ → NameQuery → Option NameQuery
name_body long_max q s = or_match (match_name_type long_max q s) (match_name q)

unfoldable pub name_query : ℕ → List (List ℕ) → Option NameQuery
name_query long_max opts =
    each_option (name_body long_max) opts
      (record { type_found = false; name_found = false; type = 0; name = [] })
