-- ===== src/Registry/Types.antt =====
-- `get_lambda_type_from_string` of lambda_registry.c. `long_max` is LONG_MAX of the machine.
use riotsensors.Prelude.{
  ℕ, ◌≤◌, ◌≡◌, ◌↔◌, ◌⊎◌, inl, refl, ap, ◌∙◌, List, [], ◌∷◌, arith, ◌==◌, if◌then◌else◌,
}
use riotsensors.Prelude.Int.{ℤ, pos, negsuc}
use riotsensors.CString.{c_str, strtol}
use riotsensors.CString.Numbers.{IsNumeral, strtol_iff}
use riotsensors.Constants.{rs_lambda_int, rs_lambda_double, rs_lambda_string}

-- (rs_lambda_type_t) -1
abbrev pub unknown_type : ℕ
unknown_type = 255

abbrev type_of_number : ℤ → ℕ
type_of_number (negsuc n) = unknown_type
type_of_number (pos num) =
    if num == rs_lambda_int
    then rs_lambda_int
    else if num == rs_lambda_double
    then rs_lambda_double
    else if num == rs_lambda_string
    then rs_lambda_string
    else unknown_type

-- endparsed != str + strlen(str): something is left.
abbrev type_of_parsed : ℤ × List ℕ → ℕ
type_of_parsed (num, []) = type_of_number num
type_of_parsed (num, c ∷ rest) = unknown_type

unfoldable pub get_lambda_type_from_string : ℕ → List ℕ → ℕ
get_lambda_type_from_string long_max str = type_of_parsed (strtol long_max str)

of_parsed : (k : ℕ) (x : ℤ × List ℕ) → 1 ≤ k → k ≤ 3 → type_of_parsed x ≡ k → x ≡ (pos k, [])
of_parsed k (num, c ∷ rest) low high e = absurd (omega arith)
of_parsed k (negsuc n, []) low high e = absurd (omega arith)
of_parsed k (pos n, []) low high e = ap (λ m. (pos m, [])) (number n e)
  where
    number : (n : ℕ) → type_of_number (pos n) ≡ k → n ≡ k
    number n h = ground arith

to_parsed : (k : ℕ) → 1 ≤ k → k ≤ 3 → type_of_number (pos k) ≡ k
to_parsed k low high = ground arith

one_of :
    (x : ℤ × List ℕ) → (type_of_parsed x ≡ 255) ⊎ ((1 ≤ type_of_parsed x) × (type_of_parsed x ≤ 3))
one_of (num, c ∷ rest) = inl refl
one_of (negsuc n, []) = inl refl
one_of (pos n, []) = ground arith

-- With a LONG_MAX of at least ten, `get_lambda_type_from_string` returns 255 or one of 1, 2 and
-- 3, and it returns one of these exactly for the strings that are white space, an optional sign
-- '+', zeros and this digit.
pub get_lambda_type_from_string_lem :
    (long_max : ℕ) (str : List ℕ)
    → 10 ≤ long_max
    → ((get_lambda_type_from_string long_max str ≡ 255)
        ⊎ ((1 ≤ get_lambda_type_from_string long_max str)
            × (get_lambda_type_from_string long_max str ≤ 3)))
      × ((k : ℕ)
          → 1 ≤ k
          → k ≤ 3
          → (get_lambda_type_from_string long_max str ≡ k) ↔ IsNumeral k (c_str str))
unfolding get_lambda_type_from_string
get_lambda_type_from_string_lem long_max str large = (
  one_of (strtol long_max str),
  λ k low high. (
    λ e.
        (strtol_iff long_max k large low (omega arith) str).0
          (of_parsed k (strtol long_max str) low high e),
    λ m.
        ap type_of_parsed ((strtol_iff long_max k large low (omega arith) str).1 m)
        ∙ to_parsed k low high,
  ),
)
