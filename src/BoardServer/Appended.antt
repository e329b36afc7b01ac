-- ===== src/BoardServer/Appended.antt =====
-- sprintf and strncat into the buffer of the response.
use riotsensors.Prelude.{
  ℕ, zero, suc, ◌+◌, ◌-◌, ◌≤◌, ◌<◌, ◌≡◌, refl, ap, sym, ◌∙◌, inl, inr, List, [], ◌∷◌, ◌++◌, true,
  false, none, some, arith, ltb, leb, Bool-cases, length, take, length-append, lt→ltb, le→ltb_false,
}
use native.Mathlib.Decide.{dec_lt}
use riotsensors.BoardServer.Buffers.{Rsp, append, sprintf_buf}
use riotsensors.BoardServer.List.{append_buf}

-- The buffer after a text, while everything has fitted.
abbrev pub rsp_of : List ℕ → Rsp
rsp_of text = record { text = text; len = 500 - length text }

take_whole : {A : Type 0} (n : ℕ) (xs : List A) → length xs ≤ n → take n xs ≡ xs
take_whole zero [] h = refl
take_whole (suc n) [] h = refl
take_whole zero (x ∷ xs) h = absurd (omega arith)
take_whole (suc n) (x ∷ xs) h = ap (◌∷◌ x) (take_whole n xs (omega arith))

length-take : {A : Type 0} (n : ℕ) (xs : List A) → n ≤ length xs → length (take n xs) ≡ n
length-take zero xs h = refl
length-take (suc n) [] h = absurd (omega arith)
length-take (suc n) (x ∷ xs) h = ap suc (length-take n xs (omega arith))

-- Where the text still fits, it is appended and the room is counted down.
pub append_fits :
    (text s : List ℕ)
    → length text + length s < 500
    → append (rsp_of text) s ≡ some (rsp_of (text ++ s))
unfolding append
append_fits text s lt =
    let whole : take (500 - length text) s ≡ s = take_whole (500 - length text) s (omega arith) in
    let fits : ltb (length (text ++ s)) 500 ≡ true =
      lt→ltb _ _ (omega (arith, length-append text s)) in
    let room : leb (length s) (500 - length text) ≡ true = ground arith in
    let rest : 500 - length text - length s ≡ 500 - length (text ++ s) =
      omega (arith, length-append text s) in
    rw (whole, fits, room, rest) refl

-- Where it does not, `strncat` writes one byte behind the buffer.
pub append_overflows :
    (text s : List ℕ)
    → length text < 500
    → 500 ≤ length text + length s
    → append (rsp_of text) s ≡ none
unfolding append
append_overflows text s lt ge =
    let n = length-take (500 - length text) s (omega arith) in
    let full : ltb (length (text ++ take (500 - length text) s)) 500 ≡ false =
      le→ltb_false _ _ (omega (arith, n, length-append text (take (500 - length text) s))) in
    rw full refl

-- What was appended has fitted.
pub appended :
    (text s : List ℕ) {rsp : Rsp}
    → length text < 500
    → append_buf (rsp_of text) (sprintf_buf s) ≡ some rsp
    → (rsp ≡ rsp_of (text ++ s)) × (length text + length s < 500)
appended text s {rsp} lt e = elim (Bool-cases (ltb (length s) 200)) [
  | inr long ↦ let q : none ≡ some rsp = rw (long, append_buf) at e in cc q
  | inl short ↦
      let f : append (rsp_of text) s ≡ some rsp = rw (short, append_buf) at e in
      elim (dec_lt (length text + length s) 500) [
        | no over ↦
            let q : none ≡ some rsp = sym (append_overflows text s lt (omega arith)) ∙ f in cc q
        | yes fits ↦
            let q : some (rsp_of (text ++ s)) ≡ some rsp = sym (append_fits text s fits) ∙ f in
            (cc q, fits)
      ]
]
