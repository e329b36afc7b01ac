-- ===== src/BoardServer/Listing.antt =====
-- What `handle_list` of the board's server prints, and when it writes behind its buffer.
use riotsensors.Prelude.{
  ℕ, zero, suc, ◌+◌, ◌%◌, ◌/◌, ◌≤◌, ◌<◌, ◌≡◌, ◌≢◌, ◌⊎◌, refl, ap, ◌∙◌, inl, inr, List, [], ◌∷◌,
  ◌++◌, true, false, none, some, arith, ltb, ◌==◌, Bool-cases, Option-cases, length, length-append,
  codes, lt→ltb,
}
use riotsensors.Registry.{RegisteredLambda, Registry, get_registered_lambda_by_id}
use riotsensors.Board.State.{Board}
use riotsensors.Registry.Invariant.{IsValid}
use riotsensors.Registry.Contract.{by_id-slot}
use riotsensors.CoapUtils.Index.{other_test}
use riotsensors.Rest.Trees.{matching}
use riotsensors.BoardServer.Buffers.{
  Opt, Rsp, append, sprintf_buf, answer, print_uint, print_digits,
}
use riotsensors.BoardServer.List.{append_buf, list_end, list_of_type, list_type, handle_list}
use riotsensors.Rest.Listed.{length-matching}
use riotsensors.BoardServer.Loops.{for_ids_lem}
use riotsensors.BoardServer.Appended.{append_fits, append_overflows, rsp_of}
use riotsensors.BoardServer.Printed.{
  AllBrief, entries, is_wanted, list_all-print_list, listed_text, print_list, print_list_fits,
  print_list_inv,
}

length-print_digits : (fuel n : ℕ) → length (print_digits fuel n) ≤ fuel
unfolding print_digits
length-print_digits zero n = omega arith
length-print_digits (suc fuel) n = elim (Bool-cases (ltb n 10)) [
  | inl one ↦ rw one (omega arith)
  | inr more ↦ rw more (
      omega (
        arith,
        length-print_digits fuel (n / 10),
        length-append (print_digits fuel (n / 10)) ((b'0' + n % 10) ∷ []),
      ))
]

-- The head, the entries and the end.
abbrev head_text : List ℕ
head_text = codes "{\"lambdas\":{"

abbrev end_text : List (RegisteredLambda ℕ) → List ℕ
end_text ls = codes "},\"count\":" ++ (print_uint (length ls) ++ codes "}")

module _ (r : Registry ℕ) (v : IsValid r) (type : ℕ) (known : type ≢ 255) where
  printed :
      list_of_type r type
      ≡ list_end (print_list (matching (is_wanted type) r.slots) (rsp_of head_text) 0)
  unfolding append
  printed =
      let other : (type == 255) ≡ false = other_test type 255 known in
      let ids = (for_ids_lem r.counter).0 v.within 256 (omega (arith, v.within)) in
      let loop = list_all-print_list r type r.counter 0 r.slots (rsp_of head_text) 0 (record {
        at = λ j. ap (get_registered_lambda_by_id r) (omega arith) ∙ by_id-slot r j v;
        above = v.above;
      }) in
      rw (other, ids, loop) refl

  small : 0 + length (matching (is_wanted type) r.slots) < 256
  small = omega (arith, length-matching (is_wanted type) r.slots, v.sized)

  pub list_of_type_lem :
      (AllBrief (matching (is_wanted type) r.slots)
        → length (listed_text (matching (is_wanted type) r.slots)) < 500
        → list_of_type r type ≡ some (answer (listed_text (matching (is_wanted type) r.slots))))
      × (500 ≤ length (listed_text (matching (is_wanted type) r.slots))
          → list_of_type r type ≡ none)
  list_of_type_lem = (
    λ brief fits.
        printed
        ∙ ap list_end (print_list_fits ls head_text 0 brief (omega (arith, parts)) small)
        ∙ rw (none_before, ended (omega (arith, parts))) refl,
    λ over. printed ∙ overflows over (Option-cases (print_list ls (rsp_of head_text) 0)),
  )
    where
      ls : List (RegisteredLambda ℕ)
      ls = matching (is_wanted type) r.slots

      none_before : 0 + length ls ≡ length ls
      none_before = omega arith

      parts : length (listed_text ls) ≡ 12 + length (entries ls) + length (end_text ls)
      parts = omega (arith, length-append (entries ls) (end_text ls))

      brief_end : ltb (length (end_text ls)) 200 ≡ true
      brief_end = lt→ltb _ _ (
          omega (
            arith,
            length-append (print_uint (length ls)) (codes "}"),
            length-print_digits 10 (length ls),
          ))

      ended :
          12 + length (entries ls) + length (end_text ls) < 500
          → append_buf (rsp_of (head_text ++ entries ls)) (sprintf_buf (end_text ls))
            ≡ some (rsp_of (head_text ++ (entries ls ++ end_text ls)))
      ended fits =
          rw (brief_end, append_buf)
            (append_fits (head_text ++ entries ls) (end_text ls) (omega arith))

      overflows :
          500 ≤ length (listed_text ls)
          → (print_list ls (rsp_of head_text) 0 ≡ none)
            ⊎ ((x : Rsp × ℕ) × (print_list ls (rsp_of head_text) 0 ≡ some x))
          → list_end (print_list ls (rsp_of head_text) 0) ≡ none
      overflows over (inl fault) = ap list_end fault
      overflows over (inr (x, e)) =
          let (q, fits) = print_list_inv ls head_text 0 (omega arith) small e in
          let cut : append_buf (rsp_of (head_text ++ entries ls)) (sprintf_buf (end_text ls))
              ≡ none =
            rw (brief_end, append_buf)
              (append_overflows (head_text ++ entries ls) (end_text ls) fits
                (omega (arith, parts))) in
          ap list_end (e ∙ ap some q) ∙ rw (none_before, cut) refl

-- On a board with a valid registry, if the query can be read and its type is not unknown: where
-- each entry has fewer than 200 characters and the listing fewer than 500, `handle_list` answers
-- with the text of the lambdas asked for (all of them without a type) in order and their number;
-- where the listing has 500 characters or more, the behaviour is undefined.
pub handle_list_lem :
    (long_max : ℕ) (b : Board) (opts : List Opt) (type : ℕ)
    → IsValid b.registry
    → list_type long_max opts ≡ some type
    → type ≢ 255
    → (AllBrief (matching (is_wanted type) b.registry.slots)
        → length (listed_text (matching (is_wanted type) b.registry.slots)) < 500
        → handle_list long_max b opts
          ≡ some (answer (listed_text (matching (is_wanted type) b.registry.slots))))
      × (500 ≤ length (listed_text (matching (is_wanted type) b.registry.slots))
          → handle_list long_max b opts ≡ none)
unfolding handle_list
handle_list_lem long_max b opts type v read known =
    let e : handle_list long_max b opts ≡ list_of_type b.registry type =
      rw (read, handle_list) refl in
    let (fits, over) = list_of_type_lem b.registry v type known in
    (λ brief room. e ∙ fits brief room, λ long. e ∙ over long)
