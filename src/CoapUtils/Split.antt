-- ===== src/CoapUtils/Split.antt =====
-- What `split_query` of riotmodule/rs_coap_utils.c returns.
use mathlib.Core.List.{map}
use riotsensors.Prelude.{
  ℕ, suc, ◌+◌, ◌-◌, ◌%◌, ◌≡◌, refl, ap, ◌∙◌, List, [], ◌∷◌, ◌++◌, arith, ==_iff, length, take, drop,
  take_all, drop_all, drop-drop,
}
use riotsensors.Prelude.Int.{pos}
use riotsensors.CString.{c_str}
use riotsensors.CString.Laws.{IsText, c_str_text}
use riotsensors.CoapUtils.{
  index_of, difference, CoapQuery, cut, nonempty, strtok_all, split_at, query_of, split_query,
}
use riotsensors.CoapUtils.Index.{IsWithout, other_test, strchr_first}

-- A parameter as it is written: a key without '=', and both parts without NUL and '&'.
pub record IsParameter (key value : List ℕ) : Type 0 where
  pub key_text : IsText key
  pub value_text : IsText value
  pub key_whole : IsWithout b'=' key
  pub key_apart : IsWithout b'&' key
  pub value_apart : IsWithout b'&' value

abbrev pub AllParameters : List (List ℕ × List ℕ) → Type 0
AllParameters [] = Unit {0}
AllParameters ((key, value) ∷ rest) = IsParameter key value × AllParameters rest

abbrev pub written : List ℕ → List ℕ → List ℕ
written key value = key ++ b'=' ∷ value

-- key=value&key=value&...
abbrev pub join : List (List ℕ × List ℕ) → List ℕ
join [] = []
join ((key, value) ∷ []) = written key value
join ((key, value) ∷ p ∷ rest) = written key value ++ b'&' ∷ join (p ∷ rest)

cut_without : (s : List ℕ) (d : ℕ) → IsWithout d s → cut d s ≡ (s, [])
unfolding cut
cut_without [] d w = refl
cut_without (c ∷ s) d w = rw (other_test c d w.0, cut_without s d w.1) refl

cut_first :
    (s rest : List ℕ) (d : ℕ)
    → IsWithout d s
    → cut d (s ++ d ∷ rest) ≡ (s, (cut d rest).0 ∷ (cut d rest).1)
unfolding cut
cut_first [] rest d w = rw ((==_iff d d).1 refl) refl
cut_first (c ∷ s) rest d w = rw (other_test c d w.0, cut_first s rest d w.1) refl

IsWithout-append : (s t : List ℕ) (d : ℕ) → IsWithout d s → IsWithout d t → IsWithout d (s ++ t)
IsWithout-append [] t d v w = w
IsWithout-append (c ∷ s) t d v w = (v.0, IsWithout-append s t d v.1 w)

IsText-append : (s t : List ℕ) → IsText s → IsText t → IsText (s ++ t)
IsText-append [] t v w = w
IsText-append (c ∷ s) t v w = (v.0, IsText-append s t v.1 w)

written_apart : (key value : List ℕ) → IsParameter key value → IsWithout b'&' (written key value)
written_apart key value p =
    IsWithout-append key (b'=' ∷ value) b'&' p.key_apart ((λ e. omega arith), p.value_apart)

written-IsText : (key value : List ℕ) → IsParameter key value → IsText (written key value)
written-IsText key value p =
    IsText-append key (b'=' ∷ value) p.key_text ((λ e. omega arith), p.value_text)

join-IsText : (ps : List (List ℕ × List ℕ)) → AllParameters ps → IsText (join ps)
join-IsText [] all = tt
join-IsText ((key, value) ∷ []) all = written-IsText key value all.0
join-IsText ((key, value) ∷ p ∷ rest) all =
    IsText-append (written key value) (b'&' ∷ join (p ∷ rest)) (written-IsText key value all.0)
      ((λ e. omega arith), join-IsText (p ∷ rest) all.1)

-- What a parameter is split into; its value's block is overrun by a byte.
abbrev pub parameter : List ℕ × List ℕ → CoapQuery
parameter (key, value) = record { key = key; value = value; behind = 1 }

nonempty-written :
    (key value : List ℕ) (rest : List (List ℕ))
    → nonempty (written key value ∷ rest) ≡ written key value ∷ nonempty rest
nonempty-written [] value rest = refl
nonempty-written (c ∷ key) value rest = refl

strtok_all-join :
    (ps : List (List ℕ × List ℕ))
    → AllParameters ps
    → strtok_all (join ps) b'&' ≡ map (λ p. written p.0 p.1) ps
unfolding strtok_all cut
strtok_all-join [] all = refl
strtok_all-join ((key, value) ∷ []) all =
    rw (cut_without (written key value) b'&' (written_apart key value all.0))
      (nonempty-written key value [])
strtok_all-join ((key, value) ∷ p ∷ rest) all =
    rw (cut_first (written key value) (join (p ∷ rest)) b'&' (written_apart key value all.0)) (
      nonempty-written key value _
      ∙ ap (◌∷◌ (written key value)) (strtok_all-join (p ∷ rest) all.1))

query_of-written :
    (key value : List ℕ)
    → IsParameter key value
    → query_of (written key value) ≡ parameter (key, value)
unfolding index_of
query_of-written key value p =
    ap (split_at (written key value)) place
    ∙ (λ i. record { key = before i; value = after i; behind = one i })
  where
    place : index_of (written key value) b'=' ≡ pos (length key)
    place =
        rw (c_str_text (written key value) (written-IsText key value p))
          (ap difference (strchr_first key value b'=' p.key_whole))

    before : take (length key) (written key value) ≡ key
    before = take_all (length key) key (b'=' ∷ value) refl

    after : drop (length key + 1) (written key value) ≡ value
    after =
        drop-drop (length key) 1 (length key + 1) (written key value) refl
        ∙ ap (drop 1) (drop_all (length key) key (b'=' ∷ value) refl)

    one :
        (length (written key value) - length key + 1) - (length (written key value) - length key)
        ≡ 1
    one = omega arith

queries_of-written :
    (ps : List (List ℕ × List ℕ))
    → AllParameters ps
    → map query_of (map (λ p. written p.0 p.1) ps) ≡ map parameter ps
queries_of-written [] all = refl
queries_of-written ((key, value) ∷ rest) all =
    λ i. query_of-written key value all.0 i ∷ queries_of-written rest all.1 i

length-map : (ps : List (List ℕ × List ℕ)) → length (map (λ p. written p.0 p.1) ps) ≡ length ps
length-map [] = refl
length-map (p ∷ ps) = ap suc (length-map ps)

-- For any list of parameters whose keys have no NUL, '=' or '&' and whose values have no NUL or
-- '&', joined as key=value with '&' between them and followed by any bytes, `split_query` with
-- the length of the joined text returns their number modulo 256 and exactly these keys and values
-- in order, with one byte written behind the block of each value.
pub split_query-join :
    (ps : List (List ℕ × List ℕ)) (behind : List ℕ)
    → AllParameters ps
    → split_query (length (join ps)) (join ps ++ behind)
      ≡ record { num = length ps % 256; first = map parameter ps }
unfolding split_query
split_query-join ps behind all = rw (tokens, length-map ps, queries_of-written ps all) refl
  where
    tokens :
        strtok_all (c_str (take (length (join ps)) (join ps ++ behind))) b'&'
        ≡ map (λ p. written p.0 p.1) ps
    tokens =
        ap (λ t. strtok_all (c_str t) b'&') (take_all (length (join ps)) (join ps) behind refl)
        ∙ ap (λ t. strtok_all t b'&') (c_str_text (join ps) (join-IsText ps all))
        ∙ strtok_all-join ps all
