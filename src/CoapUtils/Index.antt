-- ===== src/CoapUtils/Index.antt =====
-- What `index_of` of riotmodule/rs_coap_utils.c returns.
use riotsensors.Prelude.{
  ℕ, suc, ◌≡◌, ◌≢◌, ◌↔◌, refl, ap, sym, ◌∙◌, ◌⊎◌, inl, inr, List, [], ◌∷◌, ◌++◌, false, none, some,
  ◌==◌, ==_iff, length, Bool-cases,
}
use riotsensors.Prelude.Int.{pos, negsuc}
use riotsensors.CString.{c_str}
use riotsensors.CoapUtils.{strchr, index_of, difference}

-- A character that does not occur.
abbrev pub IsWithout : ℕ → List ℕ → Type 0
IsWithout d [] = Unit {0}
IsWithout d (c ∷ s) = (c ≢ d) × IsWithout d s

-- The first occurrence of a character, behind the string `before`.
pub record IsFirst (s : List ℕ) (d i : ℕ) : Type 0 where
  pub before : List ℕ
  pub after : List ℕ
  pub split : s ≡ before ++ d ∷ after
  pub place : length before ≡ i
  pub without : IsWithout d before

pub other_test : (c d : ℕ) → c ≢ d → (c == d) ≡ false
other_test c d ne = elim (Bool-cases (c == d)) [
  | inl same ↦ absurd (ne ((==_iff _ _).0 same))
  | inr other ↦ other
]

pub strchr_without : (s : List ℕ) (d : ℕ) → IsWithout d s → strchr s d ≡ none
unfolding strchr
strchr_without [] d w = refl
strchr_without (c ∷ s) d w = rw (other_test c d w.0, strchr_without s d w.1) refl

pub strchr_first :
    (s rest : List ℕ) (d : ℕ) → IsWithout d s → strchr (s ++ d ∷ rest) d ≡ some (length s)
unfolding strchr
strchr_first [] rest d w = rw ((==_iff d d).1 refl) refl
strchr_first (c ∷ s) rest d w = rw (other_test c d w.0, strchr_first s rest d w.1) refl

-- Either the character does not occur, or its first occurrence is found.
pub strchr_cases :
    (s : List ℕ) (d : ℕ)
    → ((strchr s d ≡ none) × IsWithout d s) ⊎ ((i : ℕ) × (strchr s d ≡ some i) × IsFirst s d i)
unfolding strchr
strchr_cases [] d = inl (refl, tt)
strchr_cases (c ∷ s) d = elim (Bool-cases (c == d)) [
  | inl same ↦
      let q : c ≡ d = (==_iff _ _).0 same in
      inr (
        0,
        rw same refl,
        record { before = []; after = s; split = ap (λ x. x ∷ s) q; place = refl; without = tt },
      )
  | inr other ↦
      let ne : c ≢ d = λ e. cc (other, (==_iff _ _).1 e) in
      elim (strchr_cases s d) [
        | inl (nothing, w) ↦ inl (rw (other, nothing) refl, (ne, w))
        | inr (i, found, first) ↦ inr (
          suc i,
          rw (other, found) refl,
          record {
            before = c ∷ first.before;
            after = first.after;
            split = ap (◌∷◌ c) first.split;
            place = ap suc first.place;
            without = (ne, first.without);
          },
        )
      ]
]

strchr_at : (s : List ℕ) (d i : ℕ) → IsFirst s d i → strchr s d ≡ some i
strchr_at s d i f = rw f.split (strchr_first f.before f.after d f.without ∙ ap some f.place)

pub index_of_iff :
    (string : List ℕ) (sought : ℕ)
    → ((i : ℕ) → (index_of string sought ≡ pos i) ↔ IsFirst (c_str string) sought i)
      × ((index_of string sought ≡ negsuc 0) ↔ IsWithout sought (c_str string))
unfolding index_of
index_of_iff string sought = elim (strchr_cases (c_str string) sought) [
  | inl (nothing, w) ↦ (
    λ i. (λ e. cc (nothing, e), λ f. ap difference (strchr_at (c_str string) sought i f)),
    (λ e. w, λ w. ap difference nothing),
  )
  | inr (j, found, first) ↦ (
    λ i. (
      λ e. rw (same j i (sym (ap difference found) ∙ e)) at first,
      λ f. ap difference (strchr_at (c_str string) sought i f),
    ),
    (λ e. cc (found, e), λ w. ap difference (strchr_without (c_str string) sought w)),
  )
]
  where
    same : (i j : ℕ) → pos i ≡ pos j → i ≡ j
    same i j e = cc e
