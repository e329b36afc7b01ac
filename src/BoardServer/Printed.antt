-- ===== src/BoardServer/Printed.antt =====
-- The loop of `handle_list` of the board's server, and the text of a list of lambdas.
use riotsensors.Prelude.{
  ℕ, zero, suc, ◌+◌, ◌%◌, ◌≤◌, ◌<◌, ◌≡◌, refl, ap, sym, ◌∙◌, inl, inr, List, [], ◌∷◌, ◌++◌, Bool,
  true, false, not, ◌&&◌, Option, none, some, arith, ltb, ◌==◌, Bool-cases, Option-cases, length,
  length-append, append_assoc, append_nil, get_or, codes, lt→ltb,
}
use riotsensors.Registry.{RegisteredLambda, Registry, get_registered_lambda_by_id}
use riotsensors.Rest.Trees.{matching}
use riotsensors.BoardServer.Buffers.{Rsp, append, sprintf_buf, print_uint}
use riotsensors.BoardServer.List.{append_buf, list_entry, list_all}
use riotsensors.Rest.Listed.{matching-none}
use riotsensors.BoardServer.Loops.{count_from}
use riotsensors.BoardServer.Appended.{append_fits, appended, rsp_of}

-- The lambdas that a type lets through, and what is printed for them.
abbrev pub is_wanted : ℕ → RegisteredLambda ℕ → Bool
is_wanted type l = not (not (type == 0) && not (l.type == type))

unfoldable pub entries : List (RegisteredLambda ℕ) → List ℕ
entries [] = []
entries (l ∷ ls) = list_entry l ++ entries ls

abbrev pub listed_text : List (RegisteredLambda ℕ) → List ℕ
listed_text ls =
    codes "{\"lambdas\":{"
    ++ (entries ls ++ (codes "},\"count\":" ++ (print_uint (length ls) ++ codes "}")))

-- Each entry fits into `buf`.
abbrev pub AllBrief : List (RegisteredLambda ℕ) → Type 0
AllBrief [] = Unit {0}
AllBrief (l ∷ ls) = (length (list_entry l) < 200) × AllBrief ls

-- The lambdas of a list printed one after the other.
unfoldable pub print_list : List (RegisteredLambda ℕ) → Rsp → ℕ → Option (Rsp × ℕ)
print_list [] rsp count = some (rsp, count)
print_list (l ∷ ls) rsp count = elim (append_buf rsp (sprintf_buf (list_entry l))) [
  | none ↦ none
  | some rsp' ↦ print_list ls rsp' ((count + 1) % 256)
]

module _ (r : Registry ℕ) (type : ℕ) where
  -- The slots from `i` on, of which `k` are looked at.
  pub record Window (i k : ℕ) (xs : List (Option (RegisteredLambda ℕ))) : Type 0 where
    pub at : (j : ℕ) → get_registered_lambda_by_id r (i + j) ≡ get_or xs j none
    pub above : (j : ℕ) → k ≤ j → get_or xs j none ≡ none

  first_of :
      (i k : ℕ) (s : Option (RegisteredLambda ℕ)) (xs : List (Option (RegisteredLambda ℕ)))
      → Window i k (s ∷ xs)
      → get_registered_lambda_by_id r i ≡ s
  first_of i k s xs w = ap (get_registered_lambda_by_id r) (omega arith) ∙ w.at 0

  later_of :
      (i k : ℕ) (s : Option (RegisteredLambda ℕ)) (xs : List (Option (RegisteredLambda ℕ)))
      → Window i (suc k) (s ∷ xs)
      → Window (i + 1) k xs
  later_of i k s xs w = record {
    at = λ j. ap (get_registered_lambda_by_id r) (omega arith) ∙ w.at (suc j);
    above = λ j h. w.above (suc j) (omega arith);
  }

  -- The loop prints the lambdas of the slots that it looks at.
  pub list_all-print_list :
      (k i : ℕ) (xs : List (Option (RegisteredLambda ℕ))) (rsp : Rsp) (count : ℕ)
      → Window i k xs
      → list_all r type (count_from i k) rsp count
        ≡ print_list (matching (is_wanted type) xs) rsp count
  unfolding list_all matching print_list
  list_all-print_list zero i xs rsp count w =
      rw (matching-none (is_wanted type) xs (λ j. w.above j (omega arith)), print_list) refl
  list_all-print_list (suc k) i [] rsp count w =
      let here : get_registered_lambda_by_id r i ≡ none =
        ap (get_registered_lambda_by_id r) (omega arith) ∙ w.at 0 in
      rw (here, list_all)
        (list_all-print_list k (i + 1) [] rsp count (record {
          at = λ j. ap (get_registered_lambda_by_id r) (omega arith) ∙ w.at (suc j);
          above = λ j h. refl;
        }))
  list_all-print_list (suc k) i (none ∷ xs) rsp count w =
      rw (first_of i (suc k) none xs w, list_all)
        (list_all-print_list k (i + 1) xs rsp count (later_of i k none xs w))
  list_all-print_list (suc k) i (some l ∷ xs) rsp count w = elim (Bool-cases (is_wanted type l)) [
    | inl yes_wanted ↦ elim (Option-cases (append_buf rsp (sprintf_buf (list_entry l)))) [
      | inl fault ↦
          rw (first_of i (suc k) (some l) xs w, list_all, negated yes_wanted, print_list, fault)
            refl
      | inr (rsp', e) ↦
          rw (first_of i (suc k) (some l) xs w, list_all, negated yes_wanted, print_list, e)
            (list_all-print_list k (i + 1) xs rsp' ((count + 1) % 256) (later_of i k (some l) xs w))
    ]
    | inr not_wanted ↦
        rw (first_of i (suc k) (some l) xs w, list_all, negated not_wanted)
          (list_all-print_list k (i + 1) xs rsp count (later_of i k (some l) xs w))
  ]
    where
      twice : (b : Bool) → not (not b) ≡ b
      twice true = refl
      twice false = refl

      negated :
          {b : Bool} → is_wanted type l ≡ b → (not (type == 0) && not (l.type == type)) ≡ not b
      negated e = sym (twice (not (type == 0) && not (l.type == type))) ∙ ap not e

buffered :
    (rsp : Rsp) (l : RegisteredLambda ℕ)
    → length (list_entry l) < 200
    → append_buf rsp (sprintf_buf (list_entry l)) ≡ append rsp (list_entry l)
buffered rsp l brief =
    let short : ltb (length (list_entry l)) 200 ≡ true = lt→ltb _ _ brief in
    rw (short, append_buf) refl

pub print_list_fits :
    (ls : List (RegisteredLambda ℕ)) (text : List ℕ) (count : ℕ)
    → AllBrief ls
    → length text + length (entries ls) < 500
    → count + length ls < 256
    → print_list ls (rsp_of text) count ≡ some (rsp_of (text ++ entries ls), count + length ls)
unfolding print_list entries
print_list_fits [] text count brief fits small =
    let same : count + 0 ≡ count = omega arith in rw (append_nil text, same) refl
print_list_fits (l ∷ ls) text count brief fits small =
    let room = length-append (list_entry l) (entries ls) in
    let first =
      buffered (rsp_of text) l brief.0 ∙ append_fits text (list_entry l) (omega (arith, room)) in
    let next : (count + 1) % 256 ≡ count + 1 = omega arith in
    let total : count + 1 + length ls ≡ count + suc (length ls) = omega arith in
    rw (first, print_list, next)
      (print_list_fits ls (text ++ list_entry l) (count + 1) brief.1
          (omega (arith, room, length-append text (list_entry l))) (omega arith)
        ∙ rw (append_assoc text (list_entry l) (entries ls), total) refl)

-- What a loop that ends has printed.
pub print_list_inv :
    (ls : List (RegisteredLambda ℕ)) (text : List ℕ) (count : ℕ) {x : Rsp × ℕ}
    → length text < 500
    → count + length ls < 256
    → print_list ls (rsp_of text) count ≡ some x
    → (x ≡ (rsp_of (text ++ entries ls), count + length ls)) × (length (text ++ entries ls) < 500)
unfolding print_list entries
print_list_inv [] text count {x} lt small e =
    let q : some (rsp_of text, count) ≡ some x = e in
    let same : count + 0 ≡ count = omega arith in rw (append_nil text, same) (sym (cc q), lt)
print_list_inv (l ∷ ls) text count {x} lt small e =
    elim (Option-cases (append_buf (rsp_of text) (sprintf_buf (list_entry l)))) [
      | inl fault ↦ let q : none ≡ some x = rw (fault, print_list) at e in cc q
      | inr (rsp', f) ↦
          let (q, fits) = appended text (list_entry l) lt f in
          let next : (count + 1) % 256 ≡ count + 1 = omega arith in
          let total : count + 1 + length ls ≡ count + suc (length ls) = omega arith in
          let r =
            print_list_inv ls (text ++ list_entry l) (count + 1)
              (omega (arith, length-append text (list_entry l))) (omega arith)
              (rw (f, print_list, q, next) at e) in
          rw (append_assoc text (list_entry l) (entries ls), total) at r
    ]
