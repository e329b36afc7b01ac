-- ===== src/Rest/Trees.antt =====
-- What the documents of rs_rest.cpp are to say, as JSON trees: none where a part has no value.
use Prim.Native.String.{String}
use riotsensors.Prelude.{
  ℕ, List, [], ◌∷◌, Bool, true, false, Option, none, some, ◌==◌, if◌then◌else◌, length, get_elem?,
  codes,
}
use riotsensors.Prelude.Int.{ℤ, pos, negsuc, to_int32}
use riotsensors.CString.{c_str}
use riotsensors.Names.{
  stringify_rs_call_result, stringify_rs_lambda_type_t, stringify_rs_cache_type_t,
}
use riotsensors.Registry.{RegisteredLambda}
use riotsensors.Registry.Lookup.{name_of}
use riotsensors.Connector.State.{Return, unset, ret_i, ret_d, ret_s, LinuxLambda}
use riotsensors.Rest.Writer.{decimal}
use riotsensors.Rest.Json.{
  Json, whole, signed, real, text, truth, object, Members, end, member, named,
}

-- A code and its name.
abbrev pub coded : {D : Type 0} → String → Json D → String → Json D
coded label code name = object (named label code (named "string" (text (codes name)) end))

module _ {D : Type 0} where
  abbrev pub lambda_with : RegisteredLambda ℕ → Option String → Option String → Option (Json D)
  lambda_with l none cache = none
  lambda_with l (some type) none = none
  lambda_with l (some type) (some cache) = some (
      object (
        named "id" (whole l.id) (
          named "name" (text (name_of l)) (
            named "type" (coded "code" (whole l.type) type)
              (named "cache" (coded "policy" (whole l.cache) cache) end)))))

  -- A lambda: its id, its name, its type and its cache policy.
  abbrev pub lambda_tree : RegisteredLambda ℕ → Option (Json D)
  lambda_tree l =
      lambda_with l (stringify_rs_lambda_type_t l.type) (stringify_rs_cache_type_t l.cache)

  -- A value, of the lambda's type.
  abbrev pub value_tree : ℕ → Return D → Option (Json D)
  value_tree type unset = none
  value_tree type (ret_i n) = if type == 1 then some (signed (to_int32 n)) else none
  value_tree type (ret_d x) = if type == 2 then some (real x) else none
  value_tree type (ret_s s) = if type == 3 then some (text (c_str s)) else none

  abbrev pub success_with : Bool → Bool → Option (Json D) → Option (Json D) → Option (Json D)
  success_with cached timeout none value = none
  success_with cached timeout (some l) none = none
  success_with cached timeout (some l) (some value) = some (
      object (
        named "success" (truth true) (
          named "lambda" l (
            named "cache"
              (object (named "retrieved" (truth cached) (named "timeout" (truth timeout) end)))
              (named "result" value end)))))

  -- The answer to a call with a result.
  abbrev pub success_tree : Option (RegisteredLambda ℕ) → Bool → Bool → Return D → Option (Json D)
  success_tree none cached timeout value = none
  success_tree (some l) cached timeout value =
      success_with cached timeout (lambda_tree l) (value_tree l.type value)

  -- What stands for a lambda that there is not.
  abbrev pub unknown_tree : Json D → List ℕ → Json D
  unknown_tree id name = object (
      named "id" id (
        named "name" (text name) (
          named "type" (coded "code" (signed (negsuc 0)) "unknown")
            (named "cache" (coded "policy" (signed (negsuc 0)) "unknown") end))))

  abbrev pub asked_tree : Json D → List ℕ → Option (RegisteredLambda ℕ) → Option (Json D)
  asked_tree id name none = some (unknown_tree id name)
  asked_tree id name (some l) = lambda_tree l

  abbrev pub error_with : ℤ → Option (Json D) → Option String → Option (Json D)
  error_with error none reason = none
  error_with error (some l) none = none
  error_with error (some l) (some reason) = some (
      object (
        named "success" (truth false)
          (named "lambda" l (named "error" (coded "code" (signed error) reason) end))))

  -- The answer to a call that failed.
  abbrev pub error_tree : Json D → List ℕ → Option (RegisteredLambda ℕ) → ℤ → Option (Json D)
  error_tree id name lambda error =
      error_with error (asked_tree id name lambda) (stringify_rs_call_result error)

  abbrev pub cached_with : Option (Json D) → Option (Json D)
  cached_with none = none
  cached_with (some value) =
      some (object (named "cache_available" (truth true) (named "cached_result" value end)))

  abbrev pub content_of : RegisteredLambda ℕ → Option (LinuxLambda D) → Option (Json D)
  content_of l none = none
  content_of l (some a) =
      if a.data_cached
      then cached_with (value_tree l.type a.ret)
      else some (object (named "cache_available" (truth false) end))

  abbrev pub cache_entry_with : Option (Json D) → Option (Json D) → Option (Json D)
  cache_entry_with none content = none
  cache_entry_with (some l) none = none
  cache_entry_with (some l) (some content) =
      some (object (named "lambda" l (named "cache-content" content end)))

  -- A lambda and the value that is cached for it.
  abbrev pub cache_entry_tree : List (LinuxLambda D) → RegisteredLambda ℕ → Option (Json D)
  cache_entry_tree heap l = cache_entry_with (lambda_tree l) (content_of l (get_elem? heap l.arg))

  abbrev pub member_of : List ℕ → Option (Json D) → Option (Members D) → Option (Members D)
  member_of k none ms = none
  member_of k (some v) none = none
  member_of k (some v) (some ms) = some (member k v ms)

  -- One member for each lambda, under its id.
  unfoldable pub entries_of :
      (RegisteredLambda ℕ → Option (Json D)) → List (RegisteredLambda ℕ) → Option (Members D)
  entries_of entry [] = some end
  entries_of entry (l ∷ ls) = member_of (decimal l.id) (entry l) (entries_of entry ls)

  abbrev pub listing_with : ℕ → Option (Members D) → Option (Json D)
  listing_with count none = none
  listing_with count (some ms) =
      some (object (named "lambdas" (object ms) (named "count" (signed (pos count)) end)))

  -- The lambdas given, and their number.
  abbrev pub listing_tree :
      (RegisteredLambda ℕ → Option (Json D)) → List (RegisteredLambda ℕ) → Option (Json D)
  listing_tree entry ls = listing_with (length ls) (entries_of entry ls)

-- The lambdas of an array of slots that a test lets through, in order.
unfoldable pub matching :
    (RegisteredLambda ℕ → Bool) → List (Option (RegisteredLambda ℕ)) → List (RegisteredLambda ℕ)
matching keep [] = []
matching keep (none ∷ slots) = matching keep slots
matching keep (some l ∷ slots) = if keep l then l ∷ matching keep slots else matching keep slots
