-- ===== src/Rest/List.antt =====
-- rs_rest.cpp: the documents that list the lambdas of the registry.
use riotsensors.Prelude.{
  ℕ, zero, suc, ◌+◌, ◌%◌, List, [], ◌∷◌, ◌++◌, Bool, true, Option, none, some, ◌==◌, if◌then◌else◌,
}
use riotsensors.Prelude.Int.{pos}
use riotsensors.Registry.{
  RegisteredLambda, Registry, get_number_of_registered_lambdas, get_registered_lambda_by_id,
}
use riotsensors.Connector.State.{LinuxLambda, Connector}
use riotsensors.Rest.Writer.{Event, decimal, end_object, int, key, key_of, start_object, written}
use riotsensors.Rest.Print.{print_cache_content, print_lambda_properties}

-- A lambda that the condition of a loop lets through.
abbrev pub kept :
    (RegisteredLambda ℕ → Bool) → Option (RegisteredLambda ℕ) → Option (RegisteredLambda ℕ)
kept keep none = none
kept keep (some l) = if keep l then some l else none

abbrev pub is_any : RegisteredLambda ℕ → Bool
is_any l = true

abbrev pub is_of_type : ℕ → RegisteredLambda ℕ → Bool
is_of_type type l = l.type == type

module _ {D : Type 0} where
  -- The loop over the ids from `i` on, with the count so far: `print` is what the body writes for a
  -- lambda after its key.
  unfoldable pub print_all :
      Registry ℕ
      → (RegisteredLambda ℕ → Bool)
      → (RegisteredLambda ℕ → List (Option (Event D)))
      → ℕ
      → ℕ
      → ℕ
      → List (Option (Event D)) × ℕ
  print_all r keep print zero i count = ([], count)
  print_all r keep print (suc rounds) i count = elim (kept keep (get_registered_lambda_by_id r i)) [
    | none ↦ print_all r keep print rounds (i + 1) count
    | some l ↦
        let (calls, total) = print_all r keep print rounds (i + 1) ((count + 1) % 256) in
        (some (key (decimal l.id)) ∷ print l ++ calls, total)
  ]

  abbrev pub listing : List (Option (Event D)) × ℕ → Option (List (Event D))
  listing (calls, count) = written (
      some start_object ∷ key_of "lambdas" ∷ some start_object ∷ calls
      ++ some end_object ∷ key_of "count" ∷ some (int (pos count)) ∷ some end_object ∷ [])

  unfoldable pub assemble_list_rest : Connector D → Option (List (Event D))
  assemble_list_rest c = listing (
      print_all c.registry is_any print_lambda_properties
        (get_number_of_registered_lambdas c.registry) 0 0)

  unfoldable pub assemble_list_rest_for_type : Connector D → ℕ → Option (List (Event D))
  assemble_list_rest_for_type c type = listing (
      print_all c.registry (is_of_type type) print_lambda_properties
        (get_number_of_registered_lambdas c.registry) 0 0)

  abbrev pub print_cache_entry : List (LinuxLambda D) → RegisteredLambda ℕ → List (Option (Event D))
  print_cache_entry heap l =
      some start_object ∷ key_of "lambda" ∷ print_lambda_properties l
      ++ key_of "cache-content" ∷ print_cache_content heap l
      ++ some end_object ∷ []

  unfoldable pub assemble_cache_rest : Connector D → Option (List (Event D))
  assemble_cache_rest c = listing (
      print_all c.registry is_any (print_cache_entry c.heap)
        (get_number_of_registered_lambdas c.registry) 0 0)

  unfoldable pub assemble_cache_rest_for_type : Connector D → ℕ → Option (List (Event D))
  assemble_cache_rest_for_type c type = listing (
      print_all c.registry (is_of_type type) (print_cache_entry c.heap)
        (get_number_of_registered_lambdas c.registry) 0 0)
