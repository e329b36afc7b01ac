-- ===== src/Rest/Writer.antt =====
-- The calls that rs_rest.cpp makes of the writer, and decimal numbers.
use Prim.Native.String.{String}
use riotsensors.Prelude.{
  ℕ, ◌+◌, ◌/◌, ◌%◌, List, [], ◌∷◌, Bool, Option, none, some, ltb, if◌then◌else◌, codes,
}
use riotsensors.Prelude.Int.{ℤ}

-- The calls of the writer: StartObject, EndObject, Key, Uint, Int, Double, String, Bool.
pub data Event (D : Type 0) : Type 0 where
  start_object end_object : Event D
  key : List ℕ → Event D
  uint : ℕ → Event D
  int : ℤ → Event D
  double : D → Event D
  string : List ℕ → Event D
  bool : Bool → Event D

abbrev pub digit : ℕ → ℕ
digit n = b'0' + n

-- sprintf(idstr, "%d", id) of a `uint8_t`.
unfoldable pub decimal : ℕ → List ℕ
decimal id =
    if ltb id 10
    then digit id ∷ []
    else if ltb id 100
    then digit (id / 10) ∷ digit (id % 10) ∷ []
    else digit (id / 100) ∷ digit (id / 10 % 10) ∷ digit (id % 10) ∷ []

module _ {D : Type 0} where
  -- What the writer was told, up to the first undefined call.
  abbrev pub told : Option (Event D) → Option (List (Event D)) → Option (List (Event D))
  told none es = none
  told (some e) none = none
  told (some e) (some es) = some (e ∷ es)

  unfoldable pub written : List (Option (Event D)) → Option (List (Event D))
  written [] = some []
  written (c ∷ cs) = told c (written cs)

  -- writer->Key and writer->String of a literal, and of a pointer that may be NULL.
  abbrev pub key_of : String → Option (Event D)
  key_of s = some (key (codes s))

  abbrev pub string_of : String → Option (Event D)
  string_of s = some (string (codes s))

  abbrev pub string_or_null : Option String → Option (Event D)
  string_or_null none = none
  string_or_null (some s) = string_of s
