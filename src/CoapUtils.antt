-- ===== src/CoapUtils.antt =====
-- riotmodule/rs_coap_utils.c and include/rs_coap_utils.h: the query of a URI, split into parameters.
-- `malloc` is taken to return memory; `free_coap_query` frees the list and has no result.
pub mod Index
pub mod Split
use mathlib.Core.List.{map}
use riotsensors.Prelude.{
  ℕ, suc, ◌+◌, ◌-◌, ◌%◌, List, [], ◌∷◌, Option, none, some, ◌==◌, if◌then◌else◌, length, take, drop,
}
use riotsensors.Prelude.Int.{ℤ, pos, negsuc}
use riotsensors.CString.{c_str, strlen}

-- The place of the first occurrence of a character in a string: strchr, less its first argument.
unfoldable pub strchr : List ℕ → ℕ → Option ℕ
strchr [] search = none
strchr (c ∷ s) search =
    if c == search then some 0 else (elim (strchr s search) [ none ↦ none | some i ↦ some (suc i) ])

abbrev pub difference : Option ℕ → ℤ
difference none = negsuc 0
difference (some i) = pos i

unfoldable pub index_of : List ℕ → ℕ → ℤ
index_of string search = difference (strchr (c_str string) search)

-- `behind` is the number of bytes that are written behind the block of the value.
pub record CoapQuery : Type 0 where
  pub key : List ℕ
  pub value : List ℕ
  pub behind : ℕ

-- The linked list from `first` on.
pub record CoapQueries : Type 0 where
  pub num : ℕ
  pub first : List CoapQuery

-- The string up to the delimiter, and the strings behind it.
unfoldable pub cut : ℕ → List ℕ → List ℕ × List (List ℕ)
cut delimiter [] = ([], [])
cut delimiter (c ∷ s) =
    let (ptr, rest) = cut delimiter s in
    if c == delimiter then ([], ptr ∷ rest) else (c ∷ ptr, rest)

abbrev pub nonempty : List (List ℕ) → List (List ℕ)
nonempty [] = []
nonempty ([] ∷ rest) = nonempty rest
nonempty ((c ∷ s) ∷ rest) = (c ∷ s) ∷ nonempty rest

-- What the calls of strtok return one after the other: the nonempty strings between delimiters.
unfoldable pub strtok_all : List ℕ → ℕ → List (List ℕ)
strtok_all s delimiter = let (ptr, rest) = cut delimiter s in nonempty (ptr ∷ rest)

-- The block of the value has `lentotal - lenkey` bytes, one more is copied to it.
abbrev pub split_at : List ℕ → ℤ → CoapQuery
split_at ptr (negsuc n) = record { key = ptr; value = []; behind = 0 }
split_at ptr (pos lenkey) = record {
  key = take lenkey ptr;
  value = drop (lenkey + 1) ptr;
  behind = (length ptr - lenkey + 1) - (length ptr - lenkey);
}

abbrev pub query_of : List ℕ → CoapQuery
query_of ptr = split_at ptr (index_of ptr b'=')

unfoldable pub split_query : ℕ → List ℕ → CoapQueries
split_query len strquery =
    let tokens = strtok_all (c_str (take len strquery)) b'&' in
    record { num = length tokens % 256; first = map query_of tokens }
