-- ===== src/Names.antt =====
-- The names of constants: protocol/rs_constants.c, and the end of protocol/rs_packets.c. NULL is none.
pub mod Tables
use Prim.Native.String.{String}
use riotsensors.Prelude.{
  ℕ, ◌+◌, ◌-◌, List, [], ◌∷◌, Bool, ◌||◌, Option, none, some, ltb, if◌then◌else◌, get_or,
}
use riotsensors.Prelude.Int.{ℤ, pos, negsuc}

unfoldable pub stringify_rs_register_result : ℤ → Option String
stringify_rs_register_result (pos n) = none
stringify_rs_register_result (negsuc n) =
    if ltb 4 n
    then none
    else get_or
        (none
          ∷ some "RS_REGISTER_INVALNAME"
          ∷ some "RS_REGISTER_DUPLICATE"
          ∷ some "RS_REGISTER_LIMIT_REACHED"
          ∷ some "RS_REGISTER_NOMEM"
          ∷ some "RS_REGISTER_INVALPARAM"
          ∷ [])
        (n + 1) none

abbrev unregister_strings : List (Option String)
unregister_strings = some "RS_UNREGISTER_SUCCESS" ∷ some "RS_UNREGISTER_NOTFOUND" ∷ []

unfoldable pub stringify_rs_unregister_result : ℤ → Option String
stringify_rs_unregister_result (pos n) = if ltb 0 n then none else get_or unregister_strings n none
stringify_rs_unregister_result (negsuc n) =
    if ltb 0 n then none else get_or unregister_strings (n + 1) none

abbrev call_strings : List (Option String)
call_strings =
    some "RS_CALL_CACHE_TIMEOUT_EMPTY"
    ∷ some "RS_CALL_CACHE_EMPTY"
    ∷ some "RS_CALL_TIMEOUT"
    ∷ some "RS_CALL_WRONGTYPE"
    ∷ some "RS_CALL_NOTFOUND"
    ∷ some "RS_CALL_SUCCESS"
    ∷ some "RS_CALL_CACHE"
    ∷ some "RS_CALL_CACHE_TIMEOUT"
    ∷ []

-- c + 5, for a negative c too.
unfoldable pub stringify_rs_call_result : ℤ → Option String
stringify_rs_call_result (pos n) = if ltb 2 n then none else get_or call_strings (n + 5) none
stringify_rs_call_result (negsuc n) = if ltb 4 n then none else get_or call_strings (4 - n) none

unfoldable pub stringify_rs_packet_type_t : ℕ → Option String
stringify_rs_packet_type_t c =
    if ltb c 1 || ltb 8 c
    then none
    else get_or
        (none
          ∷ some "RS_PACKET_REGISTERED"
          ∷ some "RS_PACKET_UNREGISTERED"
          ∷ some "RS_PACKET_CALL_BY_ID"
          ∷ some "RS_PACKET_CALL_BY_NAME"
          ∷ some "RS_PACKET_RESULT_ERROR"
          ∷ some "RS_PACKET_RESULT_INT"
          ∷ some "RS_PACKET_RESULT_DOUBLE"
          ∷ some "RS_PACKET_RESULT_STRING"
          ∷ [])
        c none

unfoldable pub stringify_rs_lambda_type_t : ℕ → Option String
stringify_rs_lambda_type_t c =
    if ltb c 1 || ltb 3 c
    then none
    else get_or
        (none ∷ some "RS_LAMBDA_INT" ∷ some "RS_LAMBDA_DOUBLE" ∷ some "RS_LAMBDA_STRING" ∷ []) c
        none

unfoldable pub stringify_rs_cache_type_t : ℕ → Option String
stringify_rs_cache_type_t c =
    if ltb c 1 || ltb 4 c
    then none
    else get_or
        (none
          ∷ some "RS_CACHE_NO_CACHE"
          ∷ some "RS_CACHE_CALL_ONCE"
          ∷ some "RS_CACHE_ONLY"
          ∷ some "RS_CACHE_ON_TIMEOUT"
          ∷ [])
        c none
