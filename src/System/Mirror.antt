-- ===== src/System/Mirror.antt =====
-- A registration on the board and the packet that announces it: `register_lambda` of riotmodule/rs.c
-- and the branch RS_PACKET_REGISTERED of linuxconnector/rs_connector.c.
use riotsensors.Prelude.{
  ℕ, zero, suc, ◌+◌, ◌%◌, ◌<◌, ◌≡◌, refl, ap, sym, ◌∙◌, List, [], ◌∷◌, Bool, true, false, not,
  Option, none, some, arith, leb, length, if◌then◌else◌, set, bytes_eq, replicate,
}
use riotsensors.Prelude.Int.{ℤ, to_int8}
use riotsensors.CString.{c_str, strlen, strcmp_eq}
use riotsensors.CString.Laws.{c_str-strcpy}
use riotsensors.Registry.{
  RegisteredLambda, Block, Registry, initial, name_accepted, name_matches, find_name, new_lambda,
  store_lambda, get_registered_lambda_by_name, lambda_registry_register,
}
use riotsensors.Constants.{rs_register_duplicate, rs_register_limit_reached, rs_register_invalname}
use riotsensors.Registry.Lookup.{name_of}

-- Two lambdas that agree in all but the argument and the memory that they stand in.
pub record SameLambda (l k : RegisteredLambda ℕ) : Type 0 where
  pub id : l.id ≡ k.id
  pub name : name_of l ≡ name_of k
  pub type : l.type ≡ k.type
  pub cache : l.cache ≡ k.cache

abbrev pub SameSlot : Option (RegisteredLambda ℕ) → Option (RegisteredLambda ℕ) → Type 0
SameSlot none none = Unit {0}
SameSlot (some l) (some k) = SameLambda l k
SameSlot _ _ = ⊥

abbrev pub SameSlots :
    List (Option (RegisteredLambda ℕ)) → List (Option (RegisteredLambda ℕ)) → Type 0
SameSlots [] [] = Unit {0}
SameSlots (s ∷ ss) (t ∷ ts) = SameSlot s t × SameSlots ss ts
SameSlots _ _ = ⊥

-- Two registries that hold the same lambdas under the same ids.
pub record IsMirror (r q : Registry ℕ) : Type 0 where
  pub counter : r.counter ≡ q.counter
  pub slots : SameSlots r.slots q.slots

empty_same : (n : ℕ) → SameSlots (replicate n none) (replicate n none)
empty_same zero = tt
empty_same (suc n) = (tt, empty_same n)

pub initial-IsMirror : IsMirror initial initial
initial-IsMirror = record { counter = refl; slots = empty_same 255 }

name_matches-same :
    (s t : Option (RegisteredLambda ℕ)) (name name' : List ℕ)
    → SameSlot s t
    → c_str name ≡ c_str name'
    → name_matches name s ≡ name_matches name' t
unfolding strcmp_eq
name_matches-same none none name name' same e = refl
name_matches-same none (some k) name name' same e = elim same [ ]
name_matches-same (some l) none name name' same e = elim same [ ]
name_matches-same (some l) (some k) name name' same e = λ i. bytes_eq (same.name i) (e i)

find_name-same :
    (n : ℕ) (ss ts : List (Option (RegisteredLambda ℕ))) (name name' : List ℕ)
    → SameSlots ss ts
    → c_str name ≡ c_str name'
    → SameSlot (find_name n ss name) (find_name n ts name')
unfolding find_name
find_name-same zero ss ts name name' same e = tt
find_name-same (suc n) [] [] name name' same e = tt
find_name-same (suc n) [] (t ∷ ts) name name' same e = elim same [ ]
find_name-same (suc n) (s ∷ ss) [] name name' same e = elim same [ ]
find_name-same (suc n) (s ∷ ss) (t ∷ ts) name name' same e =
    rw (name_matches-same s t name name' same.0 e)
      (chosen (name_matches name' t) s t _ _ same.0 (find_name-same n ss ts name name' same.1 e))
  where
    chosen :
        (b : Bool) (s t s' t' : Option (RegisteredLambda ℕ))
        → SameSlot s t
        → SameSlot s' t'
        → SameSlot (if b then s else s') (if b then t else t')
    chosen true s t s' t' p q = p
    chosen false s t s' t' p q = q

set-same :
    (ss ts : List (Option (RegisteredLambda ℕ))) (i : ℕ) (s t : Option (RegisteredLambda ℕ))
    → SameSlots ss ts
    → SameSlot s t
    → SameSlots (set ss i s) (set ts i t)
set-same [] [] i s t same new = tt
set-same [] (u ∷ ts) i s t same new = elim same [ ]
set-same (u ∷ ss) [] i s t same new = elim same [ ]
set-same (u ∷ ss) (v ∷ ts) zero s t same new = (new, same.1)
set-same (u ∷ ss) (v ∷ ts) (suc i) s t same new = (same.0, set-same ss ts i s t same.1 new)

name_accepted-same :
    (name name' : List ℕ) → c_str name ≡ c_str name' → name_accepted name ≡ name_accepted name'
unfolding name_accepted strlen
name_accepted-same name name' e = rw e refl

new_lambda-same :
    (id type cache arg arg' : ℕ) (name name' : List ℕ) (block block' : Block)
    → c_str name ≡ c_str name'
    → strlen name < 12
    → length block.name ≡ 12
    → length block'.name ≡ 12
    → SameLambda
        (new_lambda id name type cache arg block)
        (new_lambda id name' type cache arg' block')
unfolding strlen
new_lambda-same id type cache arg arg' name name' block block' e short size size' = record {
  id = refl;
  name =
      c_str-strcpy block.name name _ (omega (arith, short, size))
      ∙ e
      ∙ sym (c_str-strcpy block'.name name' _ (short' e));
  type = refl;
  cache = refl;
}
  where
    short' : c_str name ≡ c_str name' → strlen name' < length block'.name
    short' e = omega (arith, ap length e, short, size')

module _ (r q : Registry ℕ) (name name' : List ℕ) (type cache arg arg' : ℕ) (block block' : Block)
    (m : IsMirror r q) (e : c_str name ≡ c_str name') (short : strlen name < 12)
    (size : length block.name ≡ 12) (size' : length block'.name ≡ 12) where
  -- Two outcomes of a registration: the same code, and registries that mirror each other.
  pub record SameOutcome (x y : Registry ℕ × ℤ) : Type 0 where
    pub code : x.1 ≡ y.1
    pub mirror : IsMirror x.0 y.0

  nothing-SameOutcome : (code : ℤ) → SameOutcome (r, code) (q, code)
  nothing-SameOutcome code = record { code = refl; mirror = m }

  store-SameOutcome :
      SameOutcome
        (store_lambda r name type cache arg (some block))
        (store_lambda q name' type cache arg' (some block'))
  store-SameOutcome = record {
    code = ap to_int8 m.counter;
    mirror = record {
      counter = ap (λ n. (n + 1) % 256) m.counter;
      slots = rw m.counter (
          set-same r.slots q.slots q.counter _ _ m.slots (
            new_lambda-same q.counter type cache arg arg' name name' block block' e short size
              size'));
    };
  }

  looked_up :
      (found found' : Option (RegisteredLambda ℕ))
      → SameSlot found found'
      → SameOutcome
          (elim found [
            | some l ↦ (r, rs_register_duplicate)
            | none ↦ store_lambda r name type cache arg (some block)
          ])
          (elim found' [
            | some l ↦ (q, rs_register_duplicate)
            | none ↦ store_lambda q name' type cache arg' (some block')
          ])
  looked_up none none same = store-SameOutcome
  looked_up none (some k) same = elim same [ ]
  looked_up (some l) none same = elim same [ ]
  looked_up (some l) (some k) same = nothing-SameOutcome rs_register_duplicate

  if-SameOutcome :
      (t t' : Bool) (x y x' y' : Registry ℕ × ℤ)
      → t ≡ t'
      → SameOutcome x x'
      → SameOutcome y y'
      → SameOutcome (if t then x else y) (if t' then x' else y')
  if-SameOutcome true true x y x' y' _ p q = p
  if-SameOutcome false false x y x' y' _ p q = q
  if-SameOutcome true false x y x' y' f p q = absurd (cc f)
  if-SameOutcome false true x y x' y' f p q = absurd (cc f)

  found-same :
      SameSlot (get_registered_lambda_by_name r name) (get_registered_lambda_by_name q name')
  unfolding get_registered_lambda_by_name
  found-same = rw m.counter (find_name-same q.counter r.slots q.slots name name' m.slots e)

  -- The same name, type and cache policy registered in both.
  pub register-SameOutcome :
      SameOutcome
        (lambda_registry_register r name type cache arg (some block))
        (lambda_registry_register q name' type cache arg' (some block'))
  unfolding lambda_registry_register
  register-SameOutcome =
      if-SameOutcome (leb 255 r.counter) (leb 255 q.counter) _ _ _ _ (ap (leb 255) m.counter)
        (nothing-SameOutcome rs_register_limit_reached)
        (if-SameOutcome (not (name_accepted name)) (not (name_accepted name')) _ _ _ _
          (ap not (name_accepted-same name name' e)) (nothing-SameOutcome rs_register_invalname)
          (looked_up (get_registered_lambda_by_name r name) (get_registered_lambda_by_name q name')
            found-same))
