-- ===== src/Registry/Removal.antt =====
-- What a client of the registry sees after an unregistration.
use riotsensors.Prelude.{
  ℕ, zero, suc, ◌≤◌, ◌<◌, ◌≡◌, ◌≢◌, refl, sym, ◌∙◌, inl, inr, List, [], ◌∷◌, false, ◌||◌, Option,
  none, some, arith, leb, ◌==◌, ==_iff, length, get_or, set, Bool-cases, Option-cases,
  if◌then◌else◌, get_or-set_default, get_or-set_ne,
}
use riotsensors.CString.{c_str}
use riotsensors.CString.Laws.{strcmp_eq_ne}
use riotsensors.Constants.{rs_unregister_success, rs_unregister_notfound}
use riotsensors.Registry.{
  RegisteredLambda, Registry, slot, name_matches, name_mem, find_name, remove_slot,
  get_registered_lambda_by_id, get_registered_lambda_by_name, lambda_registry_unregister,
}
use riotsensors.Registry.Lookup.{name_of, find_name_sound}
use riotsensors.Registry.Invariant.{IsValid, removed-IsValid}
use riotsensors.Registry.Contract.{by_id-slot, in_range}

-- `r'` is `r` without the lambda `l` of the id `id`: the lookups by that id and, where the name has
-- fewer than twelve characters, by its name fail, and all other lookups are those of `r`.
pub record Removes {ℓ} {A : Type ℓ} (r r' : Registry A) (id : ℕ) (l : RegisteredLambda A)
    : Type ℓ where
  pub removed : get_registered_lambda_by_id r' id ≡ none
  pub others : (j : ℕ) → j ≢ id → get_registered_lambda_by_id r' j ≡ get_registered_lambda_by_id r j
  pub unnamed :
      (name : List ℕ)
      → length (name_of l) < 12
      → c_str name ≡ name_of l
      → get_registered_lambda_by_name r' name ≡ none
  pub other_names :
      (name : List ℕ)
      → c_str name ≢ name_of l
      → get_registered_lambda_by_name r' name ≡ get_registered_lambda_by_name r name

-- Clearing a slot that does not match changes nothing for the loop.
find_name-clear {ℓ} :
    {A : Type ℓ} (n : ℕ) (slots : List (Option (RegisteredLambda A))) (name : List ℕ) (i : ℕ)
    → name_matches name (get_or slots i none) ≡ false
    → find_name n (set slots i none) name ≡ find_name n slots name
unfolding find_name
find_name-clear zero slots name i h = refl
find_name-clear (suc n) [] name i h = refl
find_name-clear (suc n) (s ∷ slots) name zero h = rw h
find_name-clear (suc n) (s ∷ slots) name (suc i) h = rw (find_name-clear n slots name i h)

module _ {ℓ} {A : Type ℓ} (r : Registry A) (id : ℕ) (l : RegisteredLambda A) (v : IsValid r)
    (at : get_registered_lambda_by_id r id ≡ some l) where
  abbrev cleared : Registry A
  cleared = record r { slots = set r.slots id none }

  cleared-IsValid : IsValid cleared
  cleared-IsValid = removed-IsValid r id v

  here : slot r id ≡ some l
  here = sym (by_id-slot r id v) ∙ at

  slot-cleared : (j : ℕ) → slot cleared j ≡ (if id == j then none else slot r j)
  slot-cleared j = get_or-set_default r.slots id j none

  empty : slot cleared id ≡ none
  empty = slot-cleared id ∙ (rw ((==_iff id id).1 refl))

  unnamed_after :
      (name : List ℕ)
      → length (name_of l) < 12
      → c_str name ≡ name_of l
      → get_registered_lambda_by_name cleared name ≡ none
  unfolding get_registered_lambda_by_name
  unnamed_after name short same = elim (Option-cases (find_name r.counter cleared.slots name)) [
    | inl nothing ↦ nothing
    | inr (m, found) ↦
        let (j, lt, e, named) = find_name_sound r.counter cleared.slots name found in
        elim (Bool-cases (id == j)) [
          | inl hit ↦ let gone : slot cleared j ≡ none = rw hit at (slot-cleared j) in cc (e, gone)
          | inr miss ↦
              let same_slot : slot cleared j ≡ slot r j = rw miss at (slot-cleared j) in
              let kept : slot r j ≡ some m = sym same_slot ∙ e in
              let p : id ≡ j = v.unique id j l m here kept short (sym same ∙ sym named) in
              cc (miss, (==_iff id j).1 p)
        ]
  ]

  cleared-Removes : Removes r cleared id l
  unfolding get_registered_lambda_by_name
  cleared-Removes = record {
    removed = by_id-slot cleared id cleared-IsValid ∙ empty;
    others = λ j ne.
        by_id-slot cleared j cleared-IsValid
        ∙ get_or-set_ne r.slots id j none none (λ e. ne (sym e))
        ∙ sym (by_id-slot r j v);
    unnamed = unnamed_after;
    other_names = λ name ne.
        find_name-clear r.counter r.slots name id
          (rw here (strcmp_eq_ne (name_mem l) name (λ e. ne (sym e))));
  }

  -- In a valid registry the unregistration of a lambda that a lookup by id finds succeeds: the
  -- lookups by its id and, if it has fewer than twelve characters, by its name then find
  -- nothing, all other lookups return what they returned before, and a second unregistration
  -- reports RS_UNREGISTER_NOTFOUND and changes nothing.
  pub unregister-Removes :
      (r' : Registry A) × (lambda_registry_unregister r id ≡ (r', rs_unregister_success))
      × Removes r r' id l
      × (lambda_registry_unregister r' id ≡ (r', rs_unregister_notfound))
  unfolding lambda_registry_unregister
  unregister-Removes = (
    cleared,
    unregister-slot r (some l) below v.within here,
    cleared-Removes,
    unregister-slot cleared none below v.within empty,
  )
    where
      below : id < r.counter
      below = in_range r id v here

      unregister-slot :
          (q : Registry A) (o : Option (RegisteredLambda A))
          → id < q.counter
          → q.counter ≤ 255
          → slot q id ≡ o
          → lambda_registry_unregister q id ≡ remove_slot q id o
      unregister-slot q o lt le e = rw (small, e)
        where
          small : (leb 255 id || leb q.counter id) ≡ false
          small = ground arith

-- An id that is not known is reported so, and nothing changes.
pub unregister_unknown {ℓ} :
    {A : Type ℓ} (r : Registry A) (id : ℕ)
    → IsValid r
    → get_registered_lambda_by_id r id ≡ none
    → lambda_registry_unregister r id ≡ (r, rs_unregister_notfound)
unfolding lambda_registry_unregister
unregister_unknown r id v at = elim (Bool-cases (leb 255 id || leb r.counter id)) [
  | inl out ↦ rw out
  | inr in_range ↦ rw (in_range, sym (by_id-slot r id v) ∙ at)
]
