-- ===== src/Registry.antt =====
-- protocol/lambda_registry.c and include/lambda_registry.h: the table of the registered lambdas.
-- A `Registry` is the static array `lambda_registry` with `lambda_counter`. `lambda_arg` is the type
-- parameter `A`. `malloc` is an input of the call: none is NULL, a `Block` the memory it returns.
pub mod Lookup
pub mod Names
pub mod Register
pub mod Invariant
pub mod Contract
pub mod Removal
pub mod Slots
pub mod Histories
pub mod Limits
pub mod Types
use riotsensors.Prelude.{
  ℕ, zero, suc, ◌+◌, ◌%◌, List, [], ◌∷◌, ◌++◌, Bool, true, false, ◌&&◌, ◌||◌, not, Option, none,
  some, ltb, leb, ◌==◌, if◌then◌else◌, length, get_or, set, replicate,
}
use riotsensors.Prelude.Int.{ℤ, pos, negsuc, to_int8}
use riotsensors.CString.{c_str, strlen, strcmp_eq, overwrite, strcpy, isalnum}
use riotsensors.Constants.{
  max_lambdas, max_lambda_name_length, rs_register_invalname, rs_register_duplicate,
  rs_register_limit_reached, rs_register_nomem, rs_unregister_success, rs_unregister_notfound,
}

-- `name` is the array of 12 bytes; `beyond` holds the bytes of memory behind `cache`.
pub record RegisteredLambda {ℓ} (A : Type ℓ) : Type ℓ where
  pub id : ℕ
  pub name : List ℕ
  pub type : ℕ
  pub cache : ℕ
  pub arg : A
  pub beyond : List ℕ

-- What `malloc` returns: the uninitialised bytes of the name, and those behind `cache`.
pub record Block : Type 0 where
  pub name : List ℕ
  pub beyond : List ℕ

pub record Registry {ℓ} (A : Type ℓ) : Type ℓ where
  pub slots : List (Option (RegisteredLambda A))
  pub counter : ℕ

-- The two tests of the name: its length, and each of its characters.
unfoldable pub all_alnum : List ℕ → Bool
all_alnum [] = true
all_alnum (c ∷ cs) = isalnum c && all_alnum cs

unfoldable pub name_accepted : List ℕ → Bool
name_accepted name =
    not (strlen name == 0 || ltb max_lambda_name_length (strlen name)) && all_alnum (c_str name)

module _ {ℓ} {A : Type ℓ} where
  -- `lambda->name` as a `char *`: the array and, behind it, the rest of the structure.
  abbrev pub name_mem : RegisteredLambda A → List ℕ
  name_mem l = l.name ++ l.type ∷ l.cache ∷ l.beyond

  -- The array at an index.
  abbrev pub slot : Registry A → ℕ → Option (RegisteredLambda A)
  slot r i = get_or r.slots i none

  abbrev pub get_number_of_registered_lambdas : Registry A → ℕ
  get_number_of_registered_lambdas r = r.counter

  -- The program's start: a static array is all NULL.
  abbrev pub initial : Registry A
  initial = record { slots = replicate max_lambdas none; counter = 0 }

  -- for (i = first; i < first + rounds; i++) lambda_registry[i] = NULL;
  unfoldable pub clear_slots :
      ℕ → ℕ → List (Option (RegisteredLambda A)) → List (Option (RegisteredLambda A))
  clear_slots zero i slots = slots
  clear_slots (suc rounds) i slots = clear_slots rounds (i + 1) (set slots i none)

  unfoldable pub init_lambda_registry : Registry A → Registry A
  init_lambda_registry r = record r { slots = clear_slots max_lambdas 0 r.slots }

  -- `free` of a slot is the loss of its block; a NULL slot stays NULL.
  unfoldable pub free_lambda_registry : Registry A → Registry A
  free_lambda_registry r = record { slots = clear_slots r.counter 0 r.slots; counter = 0 }

  unfoldable pub get_registered_lambda_by_id : Registry A → ℕ → Option (RegisteredLambda A)
  get_registered_lambda_by_id r id =
      if leb max_lambdas id || leb r.counter id then none else slot r id

  abbrev pub name_matches : List ℕ → Option (RegisteredLambda A) → Bool
  name_matches name none = false
  name_matches name (some l) = strcmp_eq (name_mem l) name

  -- The loop over the first `rounds` slots.
  unfoldable pub find_name :
      ℕ → List (Option (RegisteredLambda A)) → List ℕ → Option (RegisteredLambda A)
  find_name zero slots name = none
  find_name (suc rounds) [] name = none
  find_name (suc rounds) (s ∷ slots) name =
      if name_matches name s then s else find_name rounds slots name

  unfoldable pub get_registered_lambda_by_name : Registry A → List ℕ → Option (RegisteredLambda A)
  get_registered_lambda_by_name r name = find_name r.counter r.slots name

  -- The fields as they are assigned in the block; the NUL of a name of 12 characters falls on `type`
  -- and is overwritten.
  abbrev pub new_lambda : ℕ → List ℕ → ℕ → ℕ → A → Block → RegisteredLambda A
  new_lambda id name type cache arg block = record {
    id = id;
    name = strcpy block.name name;
    type = type;
    cache = cache;
    arg = arg;
    beyond = block.beyond;
  }

  -- From `malloc` on.
  abbrev pub store_lambda : Registry A → List ℕ → ℕ → ℕ → A → Option Block → Registry A × ℤ
  store_lambda r name type cache arg none =
      (record r { slots = set r.slots r.counter none }, rs_register_nomem)
  store_lambda r name type cache arg (some block) = (
    record {
      slots = set r.slots r.counter (some (new_lambda r.counter name type cache arg block));
      counter = (r.counter + 1) % 256;
    },
    to_int8 r.counter,
  )

  unfoldable pub lambda_registry_register :
      Registry A → List ℕ → ℕ → ℕ → A → Option Block → Registry A × ℤ
  lambda_registry_register r name type cache arg malloc =
      if leb max_lambdas r.counter
      then (r, rs_register_limit_reached)
      else if not (name_accepted name)
      then (r, rs_register_invalname)
      else elim (get_registered_lambda_by_name r name) [
        | some l ↦ (r, rs_register_duplicate)
        | none ↦ store_lambda r name type cache arg malloc
      ]

  abbrev pub remove_slot : Registry A → ℕ → Option (RegisteredLambda A) → Registry A × ℤ
  remove_slot r id none = (r, rs_unregister_notfound)
  remove_slot r id (some l) = (record r { slots = set r.slots id none }, rs_unregister_success)

  unfoldable pub lambda_registry_unregister : Registry A → ℕ → Registry A × ℤ
  lambda_registry_unregister r id =
      if leb max_lambdas id || leb r.counter id
      then (r, rs_unregister_notfound)
      else remove_slot r id (slot r id)
