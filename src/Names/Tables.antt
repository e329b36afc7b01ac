-- ===== src/Names/Tables.antt =====
-- The tables of protocol/rs_constants.c and protocol/rs_packets.c against the constants.
use Prim.Native.String.{String}
use riotsensors.Prelude.{
  zero, suc, ◌≡◌, refl, List, [], ◌∷◌, Bool, false, Option, none, some, arith, ◌==◌, if◌then◌else◌,
}
use riotsensors.Prelude.Int.{ℤ, pos, negsuc}
use riotsensors.Constants.{
  rs_register_invalname, rs_register_duplicate, rs_register_limit_reached, rs_register_nomem,
  rs_register_invalparam, rs_call_success, rs_call_cache, rs_call_cache_timeout, rs_call_notfound,
  rs_call_wrongtype, rs_call_timeout, rs_call_cache_empty, rs_call_cache_timeout_empty,
}
use riotsensors.Names.{stringify_rs_call_result, stringify_rs_register_result}

-- The constants with their names.
abbrev pub call_names : List (ℤ × String)
call_names =
    (rs_call_success, "RS_CALL_SUCCESS")
    ∷ (rs_call_cache, "RS_CALL_CACHE")
    ∷ (rs_call_cache_timeout, "RS_CALL_CACHE_TIMEOUT")
    ∷ (rs_call_notfound, "RS_CALL_NOTFOUND")
    ∷ (rs_call_wrongtype, "RS_CALL_WRONGTYPE")
    ∷ (rs_call_timeout, "RS_CALL_TIMEOUT")
    ∷ (rs_call_cache_empty, "RS_CALL_CACHE_EMPTY")
    ∷ (rs_call_cache_timeout_empty, "RS_CALL_CACHE_TIMEOUT_EMPTY")
    ∷ []

abbrev pub register_names : List (ℤ × String)
register_names =
    (rs_register_invalname, "RS_REGISTER_INVALNAME")
    ∷ (rs_register_duplicate, "RS_REGISTER_DUPLICATE")
    ∷ (rs_register_limit_reached, "RS_REGISTER_LIMIT_REACHED")
    ∷ (rs_register_nomem, "RS_REGISTER_NOMEM")
    ∷ (rs_register_invalparam, "RS_REGISTER_INVALPARAM")
    ∷ []

-- c == d
abbrev pub same_code : ℤ → ℤ → Bool
same_code (pos n) (pos m) = n == m
same_code (negsuc n) (negsuc m) = n == m
same_code _ _ = false

-- The name of a constant in such a list.
abbrev pub name_in : List (ℤ × String) → ℤ → Option String
name_in [] c = none
name_in ((d, name) ∷ rest) c = if same_code c d then some name else name_in rest c

-- For every number, `stringify_rs_call_result` returns the name of the RS_CALL constant that has
-- this value, and NULL if there is none.
pub stringify_rs_call_result_lem : (c : ℤ) → stringify_rs_call_result c ≡ name_in call_names c
unfolding stringify_rs_call_result
stringify_rs_call_result_lem (pos zero) = refl
stringify_rs_call_result_lem (pos (suc zero)) = refl
stringify_rs_call_result_lem (pos (suc (suc zero))) = refl
stringify_rs_call_result_lem (pos (suc (suc (suc n)))) = ground arith
stringify_rs_call_result_lem (negsuc zero) = refl
stringify_rs_call_result_lem (negsuc (suc zero)) = refl
stringify_rs_call_result_lem (negsuc (suc (suc zero))) = refl
stringify_rs_call_result_lem (negsuc (suc (suc (suc zero)))) = refl
stringify_rs_call_result_lem (negsuc (suc (suc (suc (suc zero))))) = refl
stringify_rs_call_result_lem (negsuc (suc (suc (suc (suc (suc n)))))) = ground arith

-- For every number, `stringify_rs_register_result` returns the name of the RS_REGISTER constant
-- that has this value, and NULL if there is none.
pub stringify_rs_register_result_lem :
    (c : ℤ) → stringify_rs_register_result c ≡ name_in register_names c
unfolding stringify_rs_register_result
stringify_rs_register_result_lem (pos n) = refl
stringify_rs_register_result_lem (negsuc zero) = refl
stringify_rs_register_result_lem (negsuc (suc zero)) = refl
stringify_rs_register_result_lem (negsuc (suc (suc zero))) = refl
stringify_rs_register_result_lem (negsuc (suc (suc (suc zero)))) = refl
stringify_rs_register_result_lem (negsuc (suc (suc (suc (suc zero))))) = refl
stringify_rs_register_result_lem (negsuc (suc (suc (suc (suc (suc n)))))) = ground arith
