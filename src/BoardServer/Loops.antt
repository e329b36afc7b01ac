-- ===== src/BoardServer/Loops.antt =====
-- The loops of the board's server over the ids of the registry, with a counter of one byte.
use riotsensors.Prelude.{
  ℕ, zero, suc, ◌+◌, ◌%◌, ◌≤◌, ◌<◌, ◌≡◌, refl, ap, ◌∙◌, List, [], ◌∷◌, true, false, none, some,
  arith, ltb, lt→ltb,
}
use riotsensors.BoardServer.List.{for_ids}

-- The numbers from `i` on.
abbrev pub count_from : ℕ → ℕ → List ℕ
count_from i zero = []
count_from i (suc n) = i ∷ count_from (i + 1) n

for_ids_from :
    (k fuel i : ℕ) → k < fuel → i + k ≤ 255 → for_ids fuel i (i + k) ≡ some (count_from i k)
unfolding for_ids
for_ids_from k zero i lt le = absurd (omega arith)
for_ids_from zero (suc fuel) i lt le =
    let stop : ltb i (i + 0) ≡ false = ground arith in rw stop refl
for_ids_from (suc k) (suc fuel) i lt le =
    let go : ltb i (i + suc k) ≡ true = ground arith in
    let next : (i + 1) % 256 ≡ i + 1 = omega arith in
    let end : i + suc k ≡ (i + 1) + k = omega arith in
    let later : for_ids fuel ((i + 1) % 256) (i + suc k) ≡ some (count_from (i + 1) k) =
      ap (λ a. for_ids fuel a (i + suc k)) next
      ∙ ap (for_ids fuel (i + 1)) end
      ∙ for_ids_from k fuel (i + 1) (omega arith) (omega arith) in
    rw (go, later) refl

stays : (fuel i n : ℕ) → i ≤ 255 → 256 ≤ n → for_ids fuel i n ≡ none
unfolding for_ids
stays zero i n le ge = refl
stays (suc fuel) i n le ge =
    let go : ltb i n ≡ true = lt→ltb i n (omega arith) in
    rw (go, stays fuel ((i + 1) % 256) n (omega arith) ge) refl

pub for_ids_lem :
    (n : ℕ)
    → (n ≤ 255 → (fuel : ℕ) → n < fuel → for_ids fuel 0 n ≡ some (count_from 0 n))
      × (256 ≤ n → (fuel : ℕ) → for_ids fuel 0 n ≡ none)
for_ids_lem n = (
  λ le fuel lt. ap (for_ids fuel 0) (omega arith) ∙ for_ids_from n fuel 0 lt (omega arith),
  λ ge fuel. stays fuel 0 n (omega arith) ge,
)
