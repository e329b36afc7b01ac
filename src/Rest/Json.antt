-- ===== src/Rest/Json.antt =====
-- JSON values as trees, and the calls of the writer that print one.
use riotsensors.Prelude.{ℕ, ◌≡◌, List, [], ◌∷◌, ◌++◌, Bool, Option, none, some, codes}
use Prim.Native.String.{String}
use riotsensors.Prelude.Int.{ℤ}
use riotsensors.Rest.Writer.{
  Event, start_object, end_object, key, uint, int, double, string, bool, told, written,
}

mutual
  pub data Json (D : Type 0) : Type 0 where
    whole : ℕ → Json D
    signed : ℤ → Json D
    real : D → Json D
    text : List ℕ → Json D
    truth : Bool → Json D
    object : Members D → Json D

  pub data Members (D : Type 0) : Type 0 where
    end : Members D
    member : List ℕ → Json D → Members D → Members D

-- The calls that print a value, before those that follow.
unfoldable mutual
  pub emit : {D : Type 0} → Json D → List (Event D) → List (Event D)
  emit (whole n) es = uint n ∷ es
  emit (signed i) es = int i ∷ es
  emit (real x) es = double x ∷ es
  emit (text s) es = string s ∷ es
  emit (truth b) es = bool b ∷ es
  emit (object ms) es = start_object ∷ emit_members ms (end_object ∷ es)

  pub emit_members : {D : Type 0} → Members D → List (Event D) → List (Event D)
  emit_members end es = es
  emit_members (member k v ms) es = key k ∷ emit v (emit_members ms es)

-- A member whose key is a literal.
abbrev pub named : {D : Type 0} → String → Json D → Members D → Members D
named s v ms = member (codes s) v ms

-- The document of a value.
abbrev pub document : {D : Type 0} → Option (Json D) → Option (List (Event D))
document none = none
document (some v) = some (emit v [])

-- A value before the rest of a document.
abbrev pub before :
    {D : Type 0} → Option (Json D) → Option (List (Event D)) → Option (List (Event D))
before none o = none
before (some v) none = none
before (some v) (some es) = some (emit v es)

-- These calls print the value, whatever follows.
abbrev pub Prints : {D : Type 0} → List (Option (Event D)) → Option (Json D) → Type 0
Prints {D} cs v = (ds : List (Option (Event D))) → written (cs ++ ds) ≡ before v (written ds)

-- Defined calls before others.
abbrev pub calls : {D : Type 0} → List (Event D) → List (Option (Event D)) → List (Option (Event D))
calls [] cs = cs
calls (e ∷ es) cs = some e ∷ calls es cs

abbrev pub lead : {D : Type 0} → List (Event D) → Option (List (Event D)) → Option (List (Event D))
lead [] o = o
lead (e ∷ es) o = told (some e) (lead es o)

-- The end of an object.
abbrev pub last : {D : Type 0} → List (Option (Event D))
last = some end_object ∷ []
