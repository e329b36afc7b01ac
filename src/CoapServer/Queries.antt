-- ===== src/CoapServer/Queries.antt =====
-- What the loops of rs_server_coap.cpp make of queries of two options.
use riotsensors.Prelude.{
  ℕ, ◌^◌, ◌%◌, ◌≤◌, ◌<◌, ◌≡◌, refl, ap, ◌∙◌, List, [], ◌∷◌, ◌++◌, Bool, true, false, Option, none,
  some, arith, codes, get_or,
}
use riotsensors.CString.{c_str}
use riotsensors.Registry.Types.{get_lambda_type_from_string}
use riotsensors.Rest.Writer.{decimal}
use riotsensors.CoapServer.Query.{
  find, executed, or_match, match_id, match_name, each_option, set_id, stoi, id_body, id_query,
  IdQuery, name_body, name_query, NameQuery,
}
use riotsensors.CoapServer.Options.{IsKey, match_value, match_other}
use riotsensors.CoapServer.Decimals.{stoi-decimal}

-- The options `type=arg`, `id=arg` and `name=arg`.
abbrev pub type_option : List ℕ → List ℕ
type_option arg = codes "type" ++ b'=' ∷ arg

abbrev pub id_option : List ℕ → List ℕ
id_option arg = codes "id" ++ b'=' ∷ arg

abbrev pub name_option : List ℕ → List ℕ
name_option arg = codes "name" ++ b'=' ∷ arg

pub type-IsKey : IsKey (codes "type")
unfolding find
type-IsKey = refl

id-IsKey : IsKey (codes "id")
unfolding find
id-IsKey = refl

name-IsKey : IsKey (codes "name")
unfolding find
name-IsKey = refl

-- The second macro of a body, after a first key that is another.
or_match-false :
    {S : Type 0} (s : S) (next : S → Option (Bool × S)) (o : Option S)
    → next s ≡ executed o
    → or_match (some (false, s)) next ≡ o
or_match-false s next none e = rw (e, or_match) refl
or_match-false s next (some s') e = rw (e, or_match) refl

module _ (long_max : ℕ) (arg : List ℕ) where
  id_body-type :
      (s : IdQuery)
      → id_body long_max (type_option arg) s
        ≡ some (record s { type = get_lambda_type_from_string long_max arg; type_found = true })
  unfolding id_body
  id_body-type s =
      ap (λ m. or_match m (match_id long_max (type_option arg)))
        (match_value (codes "type") _ s arg type-IsKey)

  id_body-id : (s : IdQuery) → id_body long_max (id_option arg) s ≡ set_id (stoi long_max arg) s
  unfolding id_body c_str
  id_body-id s =
      ap (λ m. or_match m (match_id long_max (id_option arg)))
        (match_other (codes "type") _ s (codes "id") arg id-IsKey
          (λ e. omega (arith, ap (λ t. get_or t 0 0) e)))
      ∙ or_match-false s (match_id long_max (id_option arg)) (set_id (stoi long_max arg) s)
          (match_value (codes "id") _ s arg id-IsKey)

  name_body-type :
      (s : NameQuery)
      → name_body long_max (type_option arg) s
        ≡ some (record s { type = get_lambda_type_from_string long_max arg; type_found = true })
  unfolding name_body
  name_body-type s =
      ap (λ m. or_match m (match_name (type_option arg)))
        (match_value (codes "type") _ s arg type-IsKey)

  name_body-name :
      (s : NameQuery)
      → name_body long_max (name_option arg) s ≡ some (record s { name = arg; name_found = true })
  unfolding name_body c_str
  name_body-name s =
      ap (λ m. or_match m (match_name (name_option arg)))
        (match_other (codes "type") _ s (codes "name") arg name-IsKey
          (λ e. omega (arith, ap (λ t. get_or t 0 0) e)))
      ∙ or_match-false s (match_name (name_option arg))
          (some (record s { name = arg; name_found = true }))
          (match_value (codes "name") _ s arg name-IsKey)

two_options :
    {S : Type 0} (body : List ℕ → S → Option S) (p q : List ℕ) (s : S) {s1 s2 : S}
    → body p s ≡ some s1
    → body q s1 ≡ some s2
    → each_option body (p ∷ q ∷ []) s ≡ some s2
unfolding each_option
two_options body p q s e f = rw (e, each_option, f) refl

pub stopped :
    {S : Type 0} (body : List ℕ → S → Option S) (q : List ℕ) (qs : List (List ℕ)) (s : S)
    → body q s ≡ none
    → each_option body (q ∷ qs) s ≡ none
unfolding each_option
stopped body q qs s e = rw (e, each_option) refl

-- A type that is one of the three, and an id that is not refused, in either order.
pub id_query_of :
    (long_max : ℕ) (t : List ℕ) (i : ℕ)
    → 2 ^ 31 ≤ long_max
    → i < 256
    → (id_query long_max (type_option t ∷ id_option (decimal i) ∷ [])
        ≡ some (record {
          type_found = true;
          id_found = true;
          type = get_lambda_type_from_string long_max t;
          id = i;
        }))
      × (id_query long_max (id_option (decimal i) ∷ type_option t ∷ [])
          ≡ some (record {
            type_found = true;
            id_found = true;
            type = get_lambda_type_from_string long_max t;
            id = i;
          }))
unfolding id_query
id_query_of long_max t i large small = (
  two_options (id_body long_max) (type_option t) (id_option (decimal i)) _
      (id_body-type long_max t _) (numbered _),
  two_options (id_body long_max) (id_option (decimal i)) (type_option t) _ (numbered _)
      (id_body-type long_max t _),
)
  where
    numbered :
        (s : IdQuery)
        → id_body long_max (id_option (decimal i)) s ≡ some (record s { id = i; id_found = true })
    numbered s =
        let same : i % 256 ≡ i = omega arith in
        id_body-id long_max (decimal i) s
        ∙ ap (λ n. set_id n s) (stoi-decimal long_max i small (omega arith))
        ∙ ap (λ n. some (record s { id = n; id_found = true })) same

pub name_query_of :
    (long_max : ℕ) (t name : List ℕ)
    → (name_query long_max (type_option t ∷ name_option name ∷ [])
        ≡ some (record {
          type_found = true;
          name_found = true;
          type = get_lambda_type_from_string long_max t;
          name = name;
        }))
      × (name_query long_max (name_option name ∷ type_option t ∷ [])
          ≡ some (record {
            type_found = true;
            name_found = true;
            type = get_lambda_type_from_string long_max t;
            name = name;
          }))
unfolding name_query
name_query_of long_max t name = (
  two_options (name_body long_max) (type_option t) (name_option name) _
      (name_body-type long_max t _) (name_body-name long_max name _),
  two_options (name_body long_max) (name_option name) (type_option t) _
      (name_body-name long_max name _) (name_body-type long_max t _),
)
