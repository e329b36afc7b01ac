-- ===== src/Registry/Contract.antt =====
-- What a client of the registry sees: lookups after a registration and after an unregistration.
use native.Mathlib.Decide.{dec_lt}
use riotsensors.Prelude.{
  ℕ, zero, suc, ◌≤◌, ◌<◌, ◌≡◌, ◌≢◌, refl, ap, sym, ◌∙◌, ◌↔◌, inl, inr, List, [], ◌∷◌, true, false,
  ◌||◌, Option, none, some, arith, leb, length, get_or, set, Bool-cases, Option-cases,
  get_or-set_ne, get_or-set_self,
}
use riotsensors.Prelude.Int.{pos, to_int8}
use riotsensors.CString.{c_str}
use riotsensors.CString.Laws.{strcmp_eq_ne}
use native.Mathlib.Numerals.{add-one}
use riotsensors.Registry.{
  RegisteredLambda, Block, Registry, slot, new_lambda, name_matches, name_mem, find_name,
  get_registered_lambda_by_id, get_registered_lambda_by_name, lambda_registry_register,
}
use riotsensors.Registry.Lookup.{name_of, find_name_sound, find_name-none}
use riotsensors.Registry.Names.{name_of-new_lambda}
use riotsensors.Registry.Register.{
  Registers, limit_reached, invalid_name, duplicate, no_memory, registered, stored, IsTaken,
  lambda_registry_register-Registers,
}
use riotsensors.Registry.Invariant.{IsValid, IsAllocated, stored-IsValid}

module _ {ℓ} {A : Type ℓ} where
  -- A lookup by id is the array, in a valid registry.
  pub by_id-slot : (r : Registry A) (i : ℕ) → IsValid r → get_registered_lambda_by_id r i ≡ slot r i
  unfolding get_registered_lambda_by_id
  by_id-slot r i v = elim (Bool-cases (leb 255 i || leb r.counter i)) [
    | inl out ↦ rw out (sym (v.above i (omega (arith, beyond out))))
    | inr in_range ↦ rw in_range
  ]
    where
      beyond : (leb 255 i || leb r.counter i) ≡ true → r.counter ≤ i
      beyond out = ground (arith, v.within)

  pub in_range :
      (r : Registry A) (i : ℕ) {l : RegisteredLambda A}
      → IsValid r
      → slot r i ≡ some l
      → i < r.counter
  in_range r i v e = elim (dec_lt i r.counter) [
    | yes lt ↦ lt
    | no ge ↦ cc (v.above i (omega arith), e)
  ]

  -- In a valid registry the lookup by name returns a lambda that stands under an id, and whose
  -- name has fewer than twelve characters, exactly if the string asked for is its name.
  pub by_name_iff :
      (r : Registry A) (i : ℕ) (l : RegisteredLambda A) (name : List ℕ)
      → IsValid r
      → get_registered_lambda_by_id r i ≡ some l
      → length (name_of l) < 12
      → (get_registered_lambda_by_name r name ≡ some l) ↔ (name_of l ≡ c_str name)
  unfolding get_registered_lambda_by_name
  by_name_iff r i l name v at short = (
    λ found. let (j, lt, e, same) = find_name_sound r.counter r.slots name found in same,
    λ same. elim (Option-cases (find_name r.counter r.slots name)) [
      | inl nothing ↦
          absurd (find_name-none r.counter r.slots name i l nothing (in_range r i v here) here same)
      | inr (m, found) ↦
          let (j, lt, e, same') = find_name_sound r.counter r.slots name found in
          let p : i ≡ j = v.unique i j l m here e short (same ∙ sym same') in cc (found, e, here, p)
    ],
  )
    where
      here : slot r i ≡ some l
      here = sym (by_id-slot r i v) ∙ at

  -- The loop looks at one slot more.
  find_name-suc :
      (n : ℕ) (slots : List (Option (RegisteredLambda A))) (name : List ℕ)
      → name_matches name (get_or slots n none) ≡ false
      → find_name (suc n) slots name ≡ find_name n slots name
  unfolding find_name
  find_name-suc zero [] name h = refl
  find_name-suc zero (s ∷ slots) name h = rw h
  find_name-suc (suc n) [] name h = refl
  find_name-suc (suc n) (s ∷ slots) name h = elim (Bool-cases (name_matches name s)) [
    | inl hit ↦ rw hit
    | inr miss ↦ rw miss (find_name-suc n slots name h)
  ]

  -- A write behind the slots that the loop looks at.
  find_name-set :
      (n : ℕ) (slots : List (Option (RegisteredLambda A))) (s : Option (RegisteredLambda A))
      (name : List ℕ)
      → find_name n (set slots n s) name ≡ find_name n slots name
  unfolding find_name
  find_name-set zero slots s name = refl
  find_name-set (suc n) [] s name = refl
  find_name-set (suc n) (t ∷ slots) s name = rw (find_name-set n slots s name)

-- `r'` is `r` with the lambda `l` under the new id `id`: the lookups by that id and by the name of
-- `l` return it, and all other lookups return what they returned before.
pub record Adds {ℓ} {A : Type ℓ} (r r' : Registry A) (id : ℕ) (l : RegisteredLambda A)
    : Type ℓ where
  pub fresh : get_registered_lambda_by_id r id ≡ none
  pub added : get_registered_lambda_by_id r' id ≡ some l
  pub others : (j : ℕ) → j ≢ id → get_registered_lambda_by_id r' j ≡ get_registered_lambda_by_id r j
  pub named :
      (name : List ℕ) → c_str name ≡ name_of l → get_registered_lambda_by_name r' name ≡ some l
  pub other_names :
      (name : List ℕ)
      → c_str name ≢ name_of l
      → get_registered_lambda_by_name r' name ≡ get_registered_lambda_by_name r name

module _ {ℓ} {A : Type ℓ} (r : Registry A) (name : List ℕ) (type cache : ℕ) (arg : A)
    (block : Block) (v : IsValid r) (room : r.counter < 255) (fits : length (c_str name) ≤ 12)
    (fresh : ¬ IsTaken r (c_str name)) (sized : length block.name ≡ 12) where
  abbrev pub new : RegisteredLambda A
  new = new_lambda r.counter name type cache arg block

  abbrev pub after : Registry A
  after = stored r name type cache arg block

  after-IsValid : IsValid after
  after-IsValid = stored-IsValid r name type cache arg block v room fits fresh sized

  pub new_by_id : get_registered_lambda_by_id after r.counter ≡ some new
  new_by_id =
      by_id-slot after r.counter after-IsValid
      ∙ get_or-set_self r.slots r.counter (some new) none (omega (arith, v.sized))

  other_by_id :
      (j : ℕ)
      → j ≢ r.counter
      → get_registered_lambda_by_id after j ≡ get_registered_lambda_by_id r j
  other_by_id j ne =
      by_id-slot after j after-IsValid
      ∙ get_or-set_ne r.slots r.counter j (some new) none (λ e. ne (sym e))
      ∙ sym (by_id-slot r j v)

  pub other_by_name :
      (n : List ℕ)
      → c_str n ≢ name_of new
      → get_registered_lambda_by_name after n ≡ get_registered_lambda_by_name r n
  unfolding get_registered_lambda_by_name
  other_by_name n ne =
      rw add-one (
        find_name-suc r.counter after.slots n missed ∙ find_name-set r.counter r.slots (some new) n)
    where
      missed : name_matches n (slot after r.counter) ≡ false
      missed =
          rw (get_or-set_self r.slots r.counter (some new) none (omega (arith, v.sized)))
            (strcmp_eq_ne (name_mem new) n (λ e. ne (sym e)))

  pub stored-Adds : length (c_str name) < 12 → Adds r after r.counter new
  stored-Adds short = record {
    fresh = by_id-slot r r.counter v ∙ v.above r.counter (omega arith);
    added = new_by_id;
    others = other_by_id;
    named = λ n e.
        (by_name_iff after r.counter new n after-IsValid new_by_id
            (rw (name_of-new_lambda r.counter name type cache arg block sized short) short)).1
          (sym e);
    other_names = other_by_name;
  }

-- A registration in a valid registry that reports an id, of a name of fewer than twelve
-- characters, adds a lambda of that id, name, type, cache policy and argument under an id that
-- was free: the lookups by the id and by the name return it, and all other lookups return what
-- they returned before.
pub register-Adds {ℓ} :
    {A : Type ℓ} (r r' : Registry A) (name : List ℕ) (type cache : ℕ) (arg : A)
    (malloc : Option Block) (id : ℕ)
    → IsValid r
    → IsAllocated malloc
    → length (c_str name) < 12
    → lambda_registry_register r name type cache arg malloc ≡ (r', pos id)
    → (l : RegisteredLambda A) × Adds r r' id l
      × (l.id ≡ id)
      × (name_of l ≡ c_str name)
      × (l.type ≡ type)
      × (l.cache ≡ cache)
      × (l.arg ≡ arg)
register-Adds {A} r r' name type cache arg malloc id v s short e = outcome (
    lambda_registry_register-Registers r name type cache arg malloc
      (v.above r.counter (omega arith)))
  where
    Result : Type ℓ
    Result =
        (l : RegisteredLambda A) × Adds r r' id l
        × (l.id ≡ id)
        × (name_of l ≡ c_str name)
        × (l.type ≡ type)
        × (l.cache ≡ cache)
        × (l.arg ≡ arg)

    outcome :
        Registers r name type cache arg malloc
          (lambda_registry_register r name type cache arg malloc)
        → Result
    outcome (limit_reached _ f) = cc (e, f)
    outcome (invalid_name _ _ f) = cc (e, f)
    outcome (duplicate _ _ _ f) = cc (e, f)
    outcome (no_memory _ _ _ _ f) = cc (e, f)
    outcome (registered room ok fresh block m f) =
        let after : r' ≡ stored r name type cache arg block = ap (λ x. x.0) (sym e ∙ f) in
        let reported : pos id ≡ to_int8 r.counter = ap (λ x. x.1) (sym e ∙ f) in
        let here : id ≡ r.counter = ground arith in
        let sized : length block.name ≡ 12 = rw m at s in
        (
          new_lambda r.counter name type cache arg block,
          rw (after, here) (stored-Adds r name type cache arg block v room ok.1 fresh sized short),
          sym here,
          name_of-new_lambda r.counter name type cache arg block sized short,
          refl,
          refl,
          refl,
        )
