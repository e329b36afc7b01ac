-- ===== src/Rest/Entries.antt =====
-- The loops of rs_rest.cpp over the registry.
use riotsensors.Prelude.{
  ℕ, zero, suc, ◌+◌, ◌%◌, ◌≤◌, ◌<◌, inl, inr, ◌≡◌, refl, ap, ◌∙◌, append_assoc, List, [], ◌∷◌, ◌++◌,
  Bool, true, Option, none, some, arith, Bool-cases, Option-cases, get_elem?, get_or, codes, length,
}
use riotsensors.Prelude.Int.{pos}
use riotsensors.Registry.{RegisteredLambda, Registry, get_registered_lambda_by_id}
use riotsensors.Registry.Invariant.{IsValid}
use riotsensors.Registry.Contract.{by_id-slot}
use riotsensors.Connector.State.{LinuxLambda, Connector}
use riotsensors.Rest.Writer.{start_object, end_object, key, int, written, Event, decimal}
use riotsensors.Rest.List.{
  is_any, is_of_type, print_cache_entry, print_all, listing, assemble_list_rest,
  assemble_list_rest_for_type, assemble_cache_rest, assemble_cache_rest_for_type,
}
use riotsensors.Rest.Print.{print_lambda_properties, print_cache_content}
use riotsensors.Rest.Json.{
  Json, Members, emit, document, before, Prints, calls, lead, last, emit_members,
}
use riotsensors.Rest.Trees.{
  lambda_tree, content_of, cache_entry_tree, member_of, entries_of, listing_tree, matching,
}
use riotsensors.Rest.Listed.{matching-none, length-matching}
use riotsensors.Rest.Documents.{typed, lambda-Prints, content-Prints}

-- Members before the rest of a document.
abbrev before_members :
    {D : Type 0} → Option (Members D) → Option (List (Event D)) → Option (List (Event D))
before_members none o = none
before_members (some ms) none = none
before_members (some ms) (some es) = some (emit_members ms es)

module _ {D : Type 0} where
  cache_entry-Prints :
      (heap : List (LinuxLambda D)) (l : RegisteredLambda ℕ)
      → Prints (print_cache_entry heap l) (cache_entry_tree heap l)
  unfolding written emit print_lambda_properties
  cache_entry-Prints heap l ds =
      ap (lead opening) (
        ap written (append_assoc (print_lambda_properties l) rest ds)
        ∙ lambda-Prints l (rest ++ ds))
      ∙ elim (Option-cases (lambda_tree {D = D} l)) [
        | inl unnamed ↦ rw unnamed refl
        | inr (j, named) ↦
            ap
              (λ o.
                lead opening (before (lambda_tree l) (lead (key (codes "cache-content") ∷ []) o)))
              (ap written (append_assoc (print_cache_content heap l) last ds)
                ∙ content-Prints heap l (typed l named) (last ++ ds))
            ∙ elim (Option-cases (content_of l (get_elem? heap l.arg))) [
              | inl other ↦ rw (named, other) refl
              | inr (k, same) ↦ elim (Option-cases (written ds)) [
                | inl cut ↦ rw (named, same, cut) refl
                | inr (es, more) ↦ rw (named, same, more) refl
              ]
            ]
      ]
    where
      opening : List (Event D)
      opening = start_object ∷ key (codes "lambda") ∷ []

      rest : List (Option (Event D))
      rest = calls (key (codes "cache-content") ∷ []) (print_cache_content heap l ++ last)

  member-Prints :
      (k : List ℕ) (v : Option (Json D)) (ms : Option (Members D)) (o : Option (List (Event D)))
      → lead (key k ∷ []) (before v (before_members ms o)) ≡ before_members (member_of k v ms) o
  unfolding emit
  member-Prints k none ms o = refl
  member-Prints k (some v) none o = refl
  member-Prints k (some v) (some ms) none = refl
  member-Prints k (some v) (some ms) (some es) = refl

  module _ (r : Registry ℕ) (keep : RegisteredLambda ℕ → Bool)
      (print : RegisteredLambda ℕ → List (Option (Event D)))
      (entry : RegisteredLambda ℕ → Option (Json D))
      (each : (l : RegisteredLambda ℕ) → Prints (print l) (entry l)) where
    -- The lambdas given are printed in order, and added to the count.
    record Printed (ls : List (RegisteredLambda ℕ)) (count : ℕ)
        (result : List (Option (Event D)) × ℕ) : Type 0 where
      members :
          (ds : List (Option (Event D)))
          → written (result.0 ++ ds) ≡ before_members (entries_of entry ls) (written ds)
      total : result.1 ≡ count + length ls

    first-Printed :
        (l : RegisteredLambda ℕ) (ls : List (RegisteredLambda ℕ)) (count : ℕ)
        (cs : List (Option (Event D))) (total : ℕ)
        → count < 255
        → Printed ls ((count + 1) % 256) (cs, total)
        → Printed (l ∷ ls) count (some (key (decimal l.id)) ∷ print l ++ cs, total)
    unfolding written entries_of
    first-Printed l ls count cs total small p = record {
      members = λ ds.
          ap (lead (key (decimal l.id) ∷ [])) (
            ap written (append_assoc (print l) cs ds)
            ∙ each l (cs ++ ds)
            ∙ ap (before (entry l)) (p.members ds))
          ∙ member-Prints (decimal l.id) (entry l) (entries_of entry ls) (written ds);
      total = omega (arith, p.total);
    }

    print_all-Printed :
        (rounds i count : ℕ) (xs : List (Option (RegisteredLambda ℕ)))
        → ((j : ℕ) → get_registered_lambda_by_id r (i + j) ≡ get_or xs j none)
        → ((j : ℕ) → rounds ≤ j → get_or xs j none ≡ none)
        → count + length (matching keep xs) < 256
        → Printed (matching keep xs) count (print_all r keep print rounds i count)
    unfolding print_all matching emit entries_of written
    print_all-Printed zero i count xs at above small =
        let empty : matching keep xs ≡ [] = matching-none keep xs (λ j. above j (omega arith)) in
        rw (empty, matching) record { members = λ ds. nothing (written ds); total = omega arith }
      where
        nothing : (o : Option (List (Event D))) → o ≡ before_members (entries_of entry []) o
        nothing none = refl
        nothing (some es) = refl
    print_all-Printed (suc rounds) i count [] at above small =
        let here : get_registered_lambda_by_id r i ≡ none =
          ap (get_registered_lambda_by_id r) (omega arith) ∙ at 0 in
        rw (here, print_all)
          (print_all-Printed rounds (i + 1) count []
            (λ j. ap (get_registered_lambda_by_id r) (omega arith) ∙ at (suc j)) (λ j h. refl)
            small)
    print_all-Printed (suc rounds) i count (none ∷ xs) at above small =
        let here : get_registered_lambda_by_id r i ≡ none =
          ap (get_registered_lambda_by_id r) (omega arith) ∙ at 0 in
        rw (here, print_all)
          (print_all-Printed rounds (i + 1) count xs
            (λ j. ap (get_registered_lambda_by_id r) (omega arith) ∙ at (suc j))
            (λ j h. above (suc j) (omega arith)) small)
    print_all-Printed (suc rounds) i count (some l ∷ xs) at above small =
        let here : get_registered_lambda_by_id r i ≡ some l =
          ap (get_registered_lambda_by_id r) (omega arith) ∙ at 0 in
        elim (Bool-cases (keep l)) [
          | inl good ↦
              rw (here, print_all, matching, good)
                (first-Printed l (matching keep xs) count _ _ (omega (arith, room good)) (
                  print_all-Printed rounds (i + 1) ((count + 1) % 256) xs (later at)
                    (λ j h. above (suc j) (omega arith)) (omega (arith, room good))))
          | inr bad ↦
              rw (here, print_all, matching, bad)
                (print_all-Printed rounds (i + 1) count xs (later at)
                  (λ j h. above (suc j) (omega arith)) (rw bad at small))
        ]
      where
        later :
            ((j : ℕ) → get_registered_lambda_by_id r (i + j) ≡ get_or (some l ∷ xs) j none)
            → (j : ℕ) → get_registered_lambda_by_id r (i + 1 + j) ≡ get_or xs j none
        later at j = ap (get_registered_lambda_by_id r) (omega arith) ∙ at (suc j)

        room : keep l ≡ true → count + suc (length (matching keep xs)) < 256
        room good = rw good at small

    listing-document :
        IsValid r
        → listing (print_all r keep print r.counter 0 0)
          ≡ document (listing_tree entry (matching keep r.slots))
    unfolding written emit
    listing-document v =
        ap (lead opening) (p.members rest)
        ∙ elim (Option-cases (entries_of entry (matching keep r.slots))) [
          | inl undefined ↦ rw undefined refl
          | inr (ms, e) ↦ rw (e, counted) refl
        ]
      where
        p : Printed (matching keep r.slots) 0 (print_all r keep print r.counter 0 0)
        p =
            print_all-Printed r.counter 0 0 r.slots
              (λ j. ap (get_registered_lambda_by_id r) (omega arith) ∙ by_id-slot r j v) v.above
              (omega (arith, length-matching keep r.slots, v.sized))

        counted : (print_all r keep print r.counter 0 0).1 ≡ length (matching keep r.slots)
        counted = omega (arith, p.total)

        opening : List (Event D)
        opening = start_object ∷ key (codes "lambdas") ∷ start_object ∷ []

        rest : List (Option (Event D))
        rest =
            calls
              (end_object
                ∷ key (codes "count")
                ∷ int (pos (print_all r keep print r.counter 0 0).1)
                ∷ [])
              last

  module _ (c : Connector D) (v : IsValid c.registry) where
    -- With a valid registry, the calls of the Writer that `assemble_list_rest` and
    -- `assemble_list_rest_for_type` make print the JSON document whose object "lambdas" has
    -- one entry, keyed by the id, for each registered lambda (of the type) in the order of
    -- the slots, and whose "count" is their number; a lambda whose type or policy has no name
    -- makes both sides undefined.
    pub assemble_list_rest_lem :
        (assemble_list_rest c
          ≡ document (listing_tree lambda_tree (matching is_any c.registry.slots)))
        × ((type : ℕ)
            → assemble_list_rest_for_type c type
              ≡ document (listing_tree lambda_tree (matching (is_of_type type) c.registry.slots)))
    unfolding assemble_list_rest assemble_list_rest_for_type
    assemble_list_rest_lem = (
      listing-document c.registry is_any print_lambda_properties lambda_tree lambda-Prints v,
      λ type.
          listing-document c.registry (is_of_type type) print_lambda_properties lambda_tree
            lambda-Prints v,
    )

    pub assemble_cache_rest_lem :
        (assemble_cache_rest c
          ≡ document (listing_tree (cache_entry_tree c.heap) (matching is_any c.registry.slots)))
        × ((type : ℕ)
            → assemble_cache_rest_for_type c type
              ≡ document (
                  listing_tree
                    (cache_entry_tree c.heap)
                    (matching (is_of_type type) c.registry.slots)))
    unfolding assemble_cache_rest assemble_cache_rest_for_type
    assemble_cache_rest_lem = (
      listing-document c.registry is_any (print_cache_entry c.heap) (cache_entry_tree c.heap)
          (cache_entry-Prints c.heap) v,
      λ type.
          listing-document c.registry (is_of_type type) (print_cache_entry c.heap)
            (cache_entry_tree c.heap) (cache_entry-Prints c.heap) v,
    )
