-- ===== src/CString/Laws.antt =====
-- Reading a string back from a block that it was copied into.
use riotsensors.Prelude.{
  Bool-cases, inl, inr, ℕ, suc, ◌<◌, ◌≡◌, ◌≢◌, refl, ap, ◌∙◌, List, [], ◌∷◌, ◌++◌, true, false,
  arith, length, bytes_eq_sound, bytes_eq_refl,
}
use riotsensors.CString.{c_str, strlen, strcmp_eq, overwrite, strcpy}

-- No NUL among the bytes.
abbrev pub IsText : List ℕ → Type 0
IsText [] = Unit {0}
IsText (b ∷ bs) = (b ≢ 0) × IsText bs

pub c_str-IsText : (p : List ℕ) → IsText (c_str p)
unfolding c_str
c_str-IsText [] = tt
c_str-IsText (b ∷ p) = ground (arith, c_str-IsText p)

pub c_str_text : (s : List ℕ) → IsText s → c_str s ≡ s
unfolding c_str
c_str_text [] h = refl
c_str_text (b ∷ s) h = ground (arith, c_str_text s h.1)

pub c_str_nul : (s rest : List ℕ) → IsText s → c_str (s ++ 0 ∷ rest) ≡ s
unfolding c_str
c_str_nul [] rest h = refl
c_str_nul (b ∷ s) rest h = ground (arith, c_str_nul s rest h.1)

pub c_str-append : (s rest : List ℕ) → IsText s → c_str (s ++ rest) ≡ s ++ c_str rest
unfolding c_str
c_str-append [] rest h = refl
c_str-append (b ∷ s) rest h = ground (arith, c_str-append s rest h.1)

pub length-overwrite : (bs block : List ℕ) → length (overwrite bs block) ≡ length block
unfolding overwrite
length-overwrite [] block = refl
length-overwrite (b ∷ bs) [] = refl
length-overwrite (b ∷ bs) (d ∷ ds) = ap suc (length-overwrite bs ds)

-- A string shorter than the block is read back from it, whatever follows the block.
pub c_str-overwrite_short :
    (s block rest : List ℕ)
    → IsText s
    → length s < length block
    → c_str (overwrite (s ++ 0 ∷ []) block ++ rest) ≡ s
unfolding c_str overwrite
c_str-overwrite_short [] [] rest h lt = elim lt [ ]
c_str-overwrite_short [] (d ∷ ds) rest h lt = refl
c_str-overwrite_short (b ∷ s) [] rest h lt = elim lt [ ]
c_str-overwrite_short (b ∷ s) (d ∷ ds) rest h lt =
    ground (arith, c_str-overwrite_short s ds rest h.1 (omega arith))

-- A string as long as the block fills it, and its NUL falls behind the block.
pub overwrite_full :
    (s block : List ℕ) → length s ≡ length block → overwrite (s ++ 0 ∷ []) block ≡ s
unfolding overwrite
overwrite_full [] [] e = refl
overwrite_full [] (d ∷ ds) e = absurd (omega arith)
overwrite_full (b ∷ s) [] e = absurd (omega arith)
overwrite_full (b ∷ s) (d ∷ ds) e = ap (◌∷◌ b) (overwrite_full s ds (omega arith))

pub length-strcpy : (block p : List ℕ) → length (strcpy block p) ≡ length block
unfolding strcpy
length-strcpy block p = length-overwrite _ block

pub c_str-strcpy :
    (block p rest : List ℕ) → strlen p < length block → c_str (strcpy block p ++ rest) ≡ c_str p
unfolding strcpy strlen
c_str-strcpy block p rest lt = c_str-overwrite_short (c_str p) block rest (c_str-IsText p) lt

pub c_str-strcpy_full :
    (block p rest : List ℕ)
    → strlen p ≡ length block
    → c_str (strcpy block p ++ rest) ≡ c_str p ++ c_str rest
unfolding strcpy strlen
c_str-strcpy_full block p rest e =
    ap (λ t. c_str (t ++ rest)) (overwrite_full (c_str p) block e)
    ∙ c_str-append (c_str p) rest (c_str-IsText p)

pub strcmp_eq_sound : (p q : List ℕ) → strcmp_eq p q ≡ true → c_str p ≡ c_str q
unfolding strcmp_eq
strcmp_eq_sound p q h = bytes_eq_sound (c_str p) (c_str q) h

pub strcmp_eq_complete : (p q : List ℕ) → c_str p ≡ c_str q → strcmp_eq p q ≡ true
unfolding strcmp_eq
strcmp_eq_complete p q e = rw e (bytes_eq_refl (c_str q))

pub strcmp_eq_ne : (p q : List ℕ) → c_str p ≢ c_str q → strcmp_eq p q ≡ false
strcmp_eq_ne p q ne = elim (Bool-cases (strcmp_eq p q)) [
  | inl e ↦ absurd (ne (strcmp_eq_sound p q e))
  | inr e ↦ e
]
