-- ===== src/HttpServer/Listings.antt =====
-- The listings of the HTTP server, by the `type` of the query.
use riotsensors.Prelude.{
  ℕ, ◌≤◌, ◌≡◌, ◌≢◌, inl, inr, refl, ap, List, [], ◌∷◌, Bool, false, Option, none, some, arith, ◌==◌,
  ==_iff, Bool-cases, if◌then◌else◌,
}
use riotsensors.CString.{c_str}
use riotsensors.CString.Numbers.{IsNumeral}
use riotsensors.Registry.{RegisteredLambda}
use riotsensors.Registry.Invariant.{IsValid}
use riotsensors.Registry.Types.{get_lambda_type_from_string, get_lambda_type_from_string_lem}
use riotsensors.Connector.State.{Connector}
use riotsensors.Rest.List.{is_any, is_of_type}
use riotsensors.Rest.Json.{Json, document}
use riotsensors.Rest.Trees.{cache_entry_tree, listing_tree, matching}
use riotsensors.Rest.Entries.{assemble_cache_rest_lem}
use riotsensors.Rest.Handler as RestHandler
use riotsensors.Rest.Handler.{ok, ResponseInfo, respond}
use riotsensors.HttpServer.{Action, refuse_type, answer_all, query_type, handle_cache}

module _ {D : Type 0} (c : Connector D) where
  -- The document of the lambdas of the registry that a test lets through.
  abbrev pub listed :
      (RegisteredLambda ℕ → Option (Json D)) → (RegisteredLambda ℕ → Bool) → Option (ResponseInfo D)
  listed entry keep = respond ok (document (listing_tree entry (matching keep c.registry.slots)))

  -- How a listing is answered: everything without a type, the lambdas of a type, or, for a type that
  -- is not one of the three, a refusal.
  pub data Lists (entry : RegisteredLambda ℕ → Option (Json D)) (typeparam : Option (List ℕ))
      (result : Option (List (Action D))) : Type 0 where
    everything :
        typeparam ≡ none → result ≡ answer_all (listed entry is_any) → Lists entry typeparam result
    of_type :
        (type : ℕ) (str : List ℕ)
        → typeparam ≡ some str
        → 1 ≤ type
        → type ≤ 3
        → IsNumeral type (c_str str)
        → result ≡ answer_all (listed entry (is_of_type type))
        → Lists entry typeparam result
    refused :
        (str : List ℕ)
        → typeparam ≡ some str
        → ((type : ℕ) → 1 ≤ type → type ≤ 3 → ¬ IsNumeral type (c_str str))
        → result ≡ some (refuse_type ∷ [])
        → Lists entry typeparam result

  -- By the answer for each type.
  by_type :
      (entry : RegisteredLambda ℕ → Option (Json D)) (long_max : ℕ)
      (list : ℕ → Option (ResponseInfo D)) (typeparam : Option (List ℕ))
      → 10 ≤ long_max
      → list 0 ≡ listed entry is_any
      → ((type : ℕ) → type ≢ 0 → list type ≡ listed entry (is_of_type type))
      → Lists entry typeparam (
          let type = query_type long_max typeparam in
          if type == 255 then some (refuse_type ∷ []) else answer_all (list type))
  by_type entry long_max list none large all some_type = everything refl (ap answer_all all)
  by_type entry long_max list (some str) large all some_type =
      let (range, exact) = get_lambda_type_from_string_lem long_max str large in
      elim range [
        | inl bad ↦
            refused str refl (λ type low high m. omega (arith, (exact type low high).1 m))
              (rw bad refl)
        | inr (low, high) ↦
            of_type (get_lambda_type_from_string long_max str) str refl low high
              ((exact (get_lambda_type_from_string long_max str) low high).0 refl)
              (rw (small (get_lambda_type_from_string long_max str) high) (
                ap answer_all
                  (some_type (get_lambda_type_from_string long_max str) (λ z. omega arith))))
      ]
    where
      small : (n : ℕ) → n ≤ 3 → (n == 255) ≡ false
      small n h = ground arith

  module _ (v : IsValid c.registry) (long_max : ℕ) (large : 10 ≤ long_max) where
    rest_cache :
        (type : ℕ)
        → type ≢ 0
        → RestHandler.handle_cache c type ≡ listed (cache_entry_tree c.heap) (is_of_type type)
    unfolding RestHandler.handle_cache
    rest_cache type ne = elim (Bool-cases (type == 0)) [
      | inl hit ↦ absurd (ne ((==_iff _ _).0 hit))
      | inr miss ↦ rw miss (ap (respond ok) ((assemble_cache_rest_lem c v).1 type))
    ]

    -- The same for the cached values.
    pub handle_cache-Lists :
        (typeparam : Option (List ℕ))
        → Lists (cache_entry_tree c.heap) typeparam (handle_cache long_max c typeparam)
    unfolding handle_cache RestHandler.handle_cache
    handle_cache-Lists typeparam =
        by_type (cache_entry_tree c.heap) long_max (RestHandler.handle_cache c) typeparam large
          (ap (respond ok) (assemble_cache_rest_lem c v).0) rest_cache
