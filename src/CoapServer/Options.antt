-- ===== src/CoapServer/Options.antt =====
-- One option of a query, `name=value`: `match_coap_opt_and_execute` of rs_server_coap.cpp.
use riotsensors.Prelude.{
  ℕ, suc, ◌+◌, ◌≡◌, ◌≢◌, inl, inr, refl, ap, ◌∙◌, List, [], ◌∷◌, ◌++◌, true, false, Option, none,
  some, arith, ltb, ◌==◌, Bool-cases, Option-cases, length, drop, take_all, length-append,
  le→ltb_false, lt→ltb,
}
use riotsensors.CString.{c_str, strcmp_eq}
use riotsensors.CString.Laws.{strcmp_eq_complete, strcmp_eq_ne}
use riotsensors.CoapServer.Query.{find, key_value, executed, match_coap_opt_and_execute}

-- A key has no '='.
abbrev pub IsKey : List ℕ → Type 0
IsKey key = find b'=' key ≡ none

IsKey-inv : (b : ℕ) (key : List ℕ) → IsKey (b ∷ key) → ((b == b'=') ≡ false) × IsKey key
unfolding find
IsKey-inv b key e = elim (Bool-cases (b == b'=')) [
  | inl hit ↦ elim (Option-cases (find b'=' key)) [
    | inl miss ↦ let q : some 0 ≡ none = rw (miss, hit) at e in cc q
    | inr (n, at) ↦ let q : some 0 ≡ none = rw (at, hit) at e in cc q
  ]
  | inr other ↦ elim (Option-cases (find b'=' key)) [
    | inl miss ↦ (other, miss)
    | inr (n, at) ↦ let q : some (n + 1) ≡ none = rw (at, other) at e in cc q
  ]
]

find_key : (key value : List ℕ) → IsKey key → find b'=' (key ++ b'=' ∷ value) ≡ some (length key)
unfolding find
find_key [] value e = elim (Option-cases (find b'=' value)) [
  | inl miss ↦ rw miss refl
  | inr (n, at) ↦ rw at refl
]
find_key (b ∷ key) value e =
    let (other, rest) = IsKey-inv b key e in
    rw (find_key key value rest, other) (ap some (omega arith))

pub drop_key :
    (key : List ℕ) (b : ℕ) (value : List ℕ) → drop (length key + 1) (key ++ b ∷ value) ≡ value
drop_key key b value =
    let e : length key + 1 ≡ suc (length key) = omega arith in
    ap (λ n. drop n (key ++ b ∷ value)) e ∙ behind key
  where
    behind : (key : List ℕ) → drop (suc (length key)) (key ++ b ∷ value) ≡ value
    behind [] = refl
    behind (k ∷ key) = behind key

key_value_of : (key value : List ℕ) → IsKey key → key_value (key ++ b'=' ∷ value) ≡ key
key_value_of key value e =
    rw (find_key key value e, key_value) (take_all (length key) key (b'=' ∷ value) refl)

module _ {S : Type 0} (name : List ℕ) (l : List ℕ → S → Option S) (s : S) where
  -- An option with the key asked for calls the lambda with the value, another key does nothing, and
  -- the bare key throws.
  pub match_value :
      (value : List ℕ)
      → IsKey name
      → match_coap_opt_and_execute name (name ++ b'=' ∷ value) l s ≡ executed (l value s)
  unfolding match_coap_opt_and_execute
  match_value value e =
      let same : strcmp_eq name (key_value (name ++ b'=' ∷ value)) ≡ true =
        ap (strcmp_eq name) (key_value_of name value e) ∙ strcmp_eq_complete name name refl in
      let long : ltb (length (name ++ b'=' ∷ value)) (length name + 1) ≡ false =
        le→ltb_false _ _ (omega (arith, length-append name (b'=' ∷ value))) in
      rw (same, long) (ap (λ v. executed (l v s)) (drop_key name b'=' value))

  pub match_other :
      (key value : List ℕ)
      → IsKey key
      → c_str name ≢ c_str key
      → match_coap_opt_and_execute name (key ++ b'=' ∷ value) l s ≡ some (false, s)
  unfolding match_coap_opt_and_execute
  match_other key value e ne =
      let other : strcmp_eq name (key_value (key ++ b'=' ∷ value)) ≡ false =
        ap (strcmp_eq name) (key_value_of key value e) ∙ strcmp_eq_ne name key ne in
      rw other refl

  pub match_bare : IsKey name → match_coap_opt_and_execute name name l s ≡ none
  unfolding match_coap_opt_and_execute
  match_bare e =
      let short : ltb (length name) (length name + 1) ≡ true = lt→ltb _ _ (omega arith) in
      let same : strcmp_eq name (key_value name) ≡ true =
        rw (e, key_value) (strcmp_eq_complete name name refl) in
      rw (same, short) refl
