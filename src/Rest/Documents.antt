-- ===== src/Rest/Documents.antt =====
-- The documents of rs_rest.cpp about one lambda, and their trees.
use riotsensors.Prelude.{
  ℕ, ◌≡◌, refl, ap, ◌∙◌, ◌⊎◌, inl, inr, append_assoc, List, [], ◌∷◌, ◌++◌, Bool, true, false,
  Option, none, some, arith, ltb, ◌||◌, Bool-cases, Option-cases, get_elem?, codes,
}
use riotsensors.Prelude.Int.{ℤ, negsuc}
use riotsensors.CString.{c_str}
use riotsensors.Names.{
  stringify_rs_call_result, stringify_rs_lambda_type_t, stringify_rs_cache_type_t,
}
use riotsensors.Registry.{RegisteredLambda}
use riotsensors.Connector.State.{Return, unset, ret_i, ret_d, ret_s, LinuxLambda}
use riotsensors.Rest.Writer.{
  string_or_null, start_object, end_object, key, bool, int, uint, written, Event, told,
}
use riotsensors.Rest.Print.{
  int_member, double_member, string_member, print_result, print_lambda_properties,
  print_cache_content, assemble_call_success_rest, assemble_call_error_rest_id,
  assemble_call_error_rest_name, call_error,
}
use riotsensors.Rest.Json.{Json, whole, signed, emit, document, before, Prints, calls, lead, last}
use riotsensors.Rest.Trees.{
  lambda_tree, value_tree, success_tree, error_tree, cached_with, content_of,
}

module _ {D : Type 0} where
  pub lambda-Prints :
      (l : RegisteredLambda ℕ) → Prints {D = D} (print_lambda_properties l) (lambda_tree l)
  unfolding written print_lambda_properties emit
  lambda-Prints l ds = elim (Option-cases (stringify_rs_lambda_type_t l.type)) [
    | inl unnamed ↦ rw unnamed refl
    | inr (type, e) ↦ elim (Option-cases (stringify_rs_cache_type_t l.cache)) [
      | inl unnamed ↦ rw (e, unnamed) refl
      | inr (cache, f) ↦ elim (Option-cases (written ds)) [
        | inl cut ↦ rw (e, f, cut) refl
        | inr (es, more) ↦ rw (e, f, more) refl
      ]
    ]
  ]

  -- A lambda that has a tree is of one of the three types.
  pub typed :
      (l : RegisteredLambda ℕ) {j : Json D}
      → lambda_tree l ≡ some j
      → (l.type ≡ 1) ⊎ (l.type ≡ 2) ⊎ (l.type ≡ 3)
  unfolding stringify_rs_lambda_type_t
  typed l {j} e = elim (Bool-cases (ltb l.type 1 || ltb 3 l.type)) [
    | inl out ↦ let q : none ≡ some j = rw out at e in cc q
    | inr within ↦ ground arith
  ]

  -- A result is printed as its lambda's type says; only the member of that type is read.
  value-Prints :
      (l : RegisteredLambda ℕ) (value : Return D)
      → (l.type ≡ 1) ⊎ (l.type ≡ 2) ⊎ (l.type ≡ 3)
      → Prints (print_result l value) (value_tree l.type value)
  unfolding written print_result emit
  value-Prints l value h ds = elim h [
    | inl e ↦ rw e (one value (written ds))
    | inr (inl e) ↦ rw e (two value (written ds))
    | inr (inr e) ↦ rw e (three value (written ds))
  ]
    where
      one :
          (v : Return D) (o : Option (List (Event D)))
          → told (int_member v) o ≡ before (value_tree 1 v) o
      one (ret_i n) none = refl
      one (ret_i n) (some es) = refl
      one unset o = refl
      one (ret_d x) o = refl
      one (ret_s s) o = refl

      two :
          (v : Return D) (o : Option (List (Event D)))
          → told (double_member v) o ≡ before (value_tree 2 v) o
      two (ret_d n) none = refl
      two (ret_d n) (some es) = refl
      two unset o = refl
      two (ret_i x) o = refl
      two (ret_s s) o = refl

      three :
          (v : Return D) (o : Option (List (Event D)))
          → told (string_member v) o ≡ before (value_tree 3 v) o
      three (ret_s n) none = refl
      three (ret_s n) (some es) = refl
      three unset o = refl
      three (ret_i x) o = refl
      three (ret_d s) o = refl

  opening : Bool → List (Event D)
  opening success = start_object ∷ key (codes "success") ∷ bool success ∷ key (codes "lambda") ∷ []

  success_of :
      (l : RegisteredLambda ℕ) (cached timeout : Bool) (value : Return D)
      → assemble_call_success_rest (some l) cached timeout value
        ≡ document (success_tree (some l) cached timeout value)
  unfolding assemble_call_success_rest written emit print_lambda_properties opening
  success_of l cached timeout value =
      ap (lead (opening true)) (lambda-Prints l (calls middle (print_result l value ++ last)))
      ∙ elim (Option-cases (lambda_tree {D = D} l)) [
        | inl unnamed ↦ rw unnamed refl
        | inr (j, named) ↦
            ap (λ o. lead (opening true) (before (lambda_tree l) (lead middle o)))
              (value-Prints l value (typed l named) last)
            ∙ elim (Option-cases (value_tree l.type value)) [
              | inl other ↦ rw (named, other) refl
              | inr (k, same) ↦ rw (named, same) refl
            ]
      ]
    where
      middle : List (Event D)
      middle =
          key (codes "cache")
          ∷ start_object
          ∷ key (codes "retrieved")
          ∷ bool cached
          ∷ key (codes "timeout")
          ∷ bool timeout
          ∷ end_object
          ∷ key (codes "result")
          ∷ []

  -- The document of a success.
  pub assemble_call_success_rest_lem :
      (lambda : Option (RegisteredLambda ℕ)) (cached timeout : Bool) (value : Return D)
      → assemble_call_success_rest lambda cached timeout value
        ≡ document (success_tree lambda cached timeout value)
  unfolding assemble_call_success_rest written
  assemble_call_success_rest_lem none cached timeout value = refl
  assemble_call_success_rest_lem (some l) cached timeout value = success_of l cached timeout value

  reason : ℤ → List (Option (Event D))
  reason error =
      calls
        (key (codes "error")
          ∷ start_object
          ∷ key (codes "code")
          ∷ int error
          ∷ key (codes "string")
          ∷ [])
        (string_or_null (stringify_rs_call_result error) ∷ some end_object ∷ last)

  error_of :
      (id : Option (Event D)) (v : Json D) (name : List ℕ) (l : RegisteredLambda ℕ) (error : ℤ)
      → call_error id name (some l) error ≡ document (error_tree v name (some l) error)
  unfolding written emit print_lambda_properties opening reason
  error_of id v name l error =
      ap (lead (opening false)) (lambda-Prints l (reason error))
      ∙ elim (Option-cases (lambda_tree {D = D} l)) [
        | inl unnamed ↦ rw unnamed refl
        | inr (j, named) ↦ elim (Option-cases (stringify_rs_call_result error)) [
          | inl other ↦ rw (named, other) refl
          | inr (k, same) ↦ rw (named, same) refl
        ]
      ]

  -- The documents of an error.
  pub assemble_call_error_rest_id_lem :
      (id : ℕ) (lambda : Option (RegisteredLambda ℕ)) (error : ℤ)
      → assemble_call_error_rest_id {D = D} id lambda error
        ≡ document (error_tree (whole id) (codes "unknown") lambda error)
  unfolding assemble_call_error_rest_id written emit
  assemble_call_error_rest_id_lem id (some l) error =
      error_of (some (uint id)) (whole id) (codes "unknown") l error
  assemble_call_error_rest_id_lem id none error =
      elim (Option-cases (stringify_rs_call_result error)) [
        | inl other ↦ rw other refl
        | inr (k, same) ↦ rw same refl
      ]

  pub assemble_call_error_rest_name_lem :
      (name : List ℕ) (lambda : Option (RegisteredLambda ℕ)) (error : ℤ)
      → assemble_call_error_rest_name {D = D} name lambda error
        ≡ document (error_tree (signed (negsuc 0)) (c_str name) lambda error)
  unfolding assemble_call_error_rest_name written emit
  assemble_call_error_rest_name_lem name (some l) error =
      error_of (some (int (negsuc 0))) (signed (negsuc 0)) (c_str name) l error
  assemble_call_error_rest_name_lem name none error =
      elim (Option-cases (stringify_rs_call_result error)) [
        | inl other ↦ rw other refl
        | inr (k, same) ↦ rw same refl
      ]

  cached-Prints :
      (l : RegisteredLambda ℕ) (value : Return D)
      → (l.type ≡ 1) ⊎ (l.type ≡ 2) ⊎ (l.type ≡ 3)
      → Prints
          (calls
            (start_object
              ∷ key (codes "cache_available")
              ∷ bool true
              ∷ key (codes "cached_result")
              ∷ [])
            (print_result l value ++ last))
          (cached_with (value_tree l.type value))
  unfolding written emit
  cached-Prints l value h ds =
      ap
        (lead (
          start_object
          ∷ key (codes "cache_available")
          ∷ bool true
          ∷ key (codes "cached_result")
          ∷ []))
        (ap written (append_assoc (print_result l value) last ds)
          ∙ value-Prints l value h (last ++ ds))
      ∙ elim (Option-cases (value_tree l.type value)) [
        | inl other ↦ rw other refl
        | inr (k, same) ↦ elim (Option-cases (written ds)) [
          | inl cut ↦ rw (same, cut) refl
          | inr (es, more) ↦ rw (same, more) refl
        ]
      ]

  pub content-Prints :
      (heap : List (LinuxLambda D)) (l : RegisteredLambda ℕ)
      → (l.type ≡ 1) ⊎ (l.type ≡ 2) ⊎ (l.type ≡ 3)
      → Prints (print_cache_content heap l) (content_of l (get_elem? heap l.arg))
  unfolding written print_cache_content emit
  content-Prints heap l h ds = elim (Option-cases (get_elem? heap l.arg)) [
    | inl gone ↦ rw gone refl
    | inr (a, here) ↦ elim (Bool-cases a.data_cached) [
      | inl hit ↦ rw (here, hit) (cached-Prints l a.ret h ds)
      | inr miss ↦ elim (Option-cases (written ds)) [
        | inl cut ↦ rw (here, miss, cut) refl
        | inr (es, more) ↦ rw (here, miss, more) refl
      ]
    ]
  ]
