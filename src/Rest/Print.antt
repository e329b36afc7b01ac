-- ===== src/Rest/Print.antt =====
-- rs_rest.cpp: a lambda, a result and a cached value, and the documents of a call.
use riotsensors.Prelude.{
  ℕ, List, [], ◌∷◌, ◌++◌, Bool, true, false, Option, none, some, ◌==◌, if◌then◌else◌, get_elem?,
  codes,
}
use riotsensors.Prelude.Int.{ℤ, negsuc, to_int32}
use riotsensors.CString.{c_str}
use riotsensors.Constants.{rs_lambda_int, rs_lambda_double, rs_lambda_string}
use riotsensors.Names.{
  stringify_rs_call_result, stringify_rs_lambda_type_t, stringify_rs_cache_type_t,
}
use riotsensors.Registry.{RegisteredLambda, name_mem}
use riotsensors.Connector.State.{Return, ret_i, ret_d, ret_s, LinuxLambda}
use riotsensors.Rest.Writer.{
  Event, bool, double, end_object, int, key_of, start_object, string, string_of, string_or_null,
  uint, written,
}

module _ {D : Type 0} where
  -- The union's member of the lambda's type; another member that was written last is not read.
  abbrev pub int_member : Return D → Option (Event D)
  int_member (ret_i n) = some (int (to_int32 n))
  int_member _ = none

  abbrev pub double_member : Return D → Option (Event D)
  double_member (ret_d x) = some (double x)
  double_member _ = none

  abbrev pub string_member : Return D → Option (Event D)
  string_member (ret_s s) = some (string (c_str s))
  string_member _ = none

  unfoldable pub print_result : RegisteredLambda ℕ → Return D → List (Option (Event D))
  print_result l result =
      if l.type == rs_lambda_int
      then int_member result ∷ []
      else if l.type == rs_lambda_double
      then double_member result ∷ []
      else if l.type == rs_lambda_string
      then string_member result ∷ []
      else []

  unfoldable pub print_lambda_properties : RegisteredLambda ℕ → List (Option (Event D))
  print_lambda_properties l =
      some start_object
      ∷ key_of "id"
      ∷ some (uint l.id)
      ∷ key_of "name"
      ∷ some (string (c_str (name_mem l)))
      ∷ key_of "type"
      ∷ some start_object
      ∷ key_of "code"
      ∷ some (uint l.type)
      ∷ key_of "string"
      ∷ string_or_null (stringify_rs_lambda_type_t l.type)
      ∷ some end_object
      ∷ key_of "cache"
      ∷ some start_object
      ∷ key_of "policy"
      ∷ some (uint l.cache)
      ∷ key_of "string"
      ∷ string_or_null (stringify_rs_cache_type_t l.cache)
      ∷ some end_object
      ∷ some end_object
      ∷ []

  abbrev pub print_lambda_type_n_cache_unknown : List (Option (Event D))
  print_lambda_type_n_cache_unknown =
      key_of "type"
      ∷ some start_object
      ∷ key_of "code"
      ∷ some (int (negsuc 0))
      ∷ key_of "string"
      ∷ string_of "unknown"
      ∷ some end_object
      ∷ key_of "cache"
      ∷ some start_object
      ∷ key_of "policy"
      ∷ some (int (negsuc 0))
      ∷ key_of "string"
      ∷ string_of "unknown"
      ∷ some end_object
      ∷ []

  -- `arg` is the object that the lambda's argument points to.
  abbrev pub cache_content_of :
      RegisteredLambda ℕ → Option (LinuxLambda D) → List (Option (Event D))
  cache_content_of l none = none ∷ []
  cache_content_of l (some arg) =
      some (bool arg.data_cached)
      ∷ (if arg.data_cached then key_of "cached_result" ∷ print_result l arg.ret else [])

  unfoldable pub print_cache_content :
      List (LinuxLambda D) → RegisteredLambda ℕ → List (Option (Event D))
  print_cache_content heap l =
      some start_object ∷ key_of "cache_available" ∷ cache_content_of l (get_elem? heap l.arg)
      ++ some end_object ∷ []

  -- A NULL lambda is read all the same.
  abbrev pub properties_of : Option (RegisteredLambda ℕ) → List (Option (Event D))
  properties_of none = none ∷ []
  properties_of (some l) = print_lambda_properties l

  abbrev pub result_of : Option (RegisteredLambda ℕ) → Return D → List (Option (Event D))
  result_of none result = none ∷ []
  result_of (some l) result = print_result l result

  unfoldable pub assemble_call_success_rest :
      Option (RegisteredLambda ℕ) → Bool → Bool → Return D → Option (List (Event D))
  assemble_call_success_rest lambda cache_retrieved timeout result = written (
      some start_object
        ∷ key_of "success"
        ∷ some (bool true)
        ∷ key_of "lambda"
        ∷ properties_of lambda
      ++ key_of "cache"
        ∷ some start_object
        ∷ key_of "retrieved"
        ∷ some (bool cache_retrieved)
        ∷ key_of "timeout"
        ∷ some (bool timeout)
        ∷ some end_object
        ∷ key_of "result"
        ∷ result_of lambda result
      ++ some end_object ∷ [])

  -- The lambda, or what stands for it where it is NULL.
  abbrev pub properties_or :
      Option (Event D) → List ℕ → Option (RegisteredLambda ℕ) → List (Option (Event D))
  properties_or id name none =
      some start_object
        ∷ key_of "id"
        ∷ id
        ∷ key_of "name"
        ∷ some (string name)
        ∷ print_lambda_type_n_cache_unknown
      ++ some end_object ∷ []
  properties_or id name (some l) = print_lambda_properties l

  -- The two functions for errors differ in the id and the name that they print for a NULL lambda.
  abbrev pub call_error :
      Option (Event D) → List ℕ → Option (RegisteredLambda ℕ) → ℤ → Option (List (Event D))
  call_error id name lambda error = written (
      some start_object
        ∷ key_of "success"
        ∷ some (bool false)
        ∷ key_of "lambda"
        ∷ properties_or id name lambda
      ++ key_of "error"
        ∷ some start_object
        ∷ key_of "code"
        ∷ some (int error)
        ∷ key_of "string"
        ∷ string_or_null (stringify_rs_call_result error)
        ∷ some end_object
        ∷ some end_object
        ∷ [])

  unfoldable pub assemble_call_error_rest_id :
      ℕ → Option (RegisteredLambda ℕ) → ℤ → Option (List (Event D))
  assemble_call_error_rest_id id lambda error =
      call_error (some (uint id)) (codes "unknown") lambda error

  unfoldable pub assemble_call_error_rest_name :
      List ℕ → Option (RegisteredLambda ℕ) → ℤ → Option (List (Event D))
  assemble_call_error_rest_name name lambda error =
      call_error (some (int (negsuc 0))) (c_str name) lambda error
