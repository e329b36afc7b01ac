-- ===== src/Constants.antt =====
-- protocol/include/rs_constants.h and rs_constants.c, and the constants of rs_packets.h and rs.h.
use riotsensors.Prelude.{ℕ}
use riotsensors.Prelude.Int.{ℤ, pos, negsuc}

abbrev pub max_lambdas : ℕ
max_lambdas = 255

abbrev pub max_lambda_name_length : ℕ
max_lambda_name_length = 12

-- RS_REGISTER_*; `negsuc n` is -(n + 1).
abbrev pub rs_register_invalname : ℤ
rs_register_invalname = negsuc 0

abbrev pub rs_register_duplicate : ℤ
rs_register_duplicate = negsuc 1

abbrev pub rs_register_limit_reached : ℤ
rs_register_limit_reached = negsuc 2

abbrev pub rs_register_nomem : ℤ
rs_register_nomem = negsuc 3

abbrev pub rs_register_invalparam : ℤ
rs_register_invalparam = negsuc 4

-- RS_UNREGISTER_*
abbrev pub rs_unregister_success : ℤ
rs_unregister_success = pos 0

abbrev pub rs_unregister_notfound : ℤ
rs_unregister_notfound = negsuc 0

-- RS_CALL_*
abbrev pub rs_call_success : ℤ
rs_call_success = pos 0

abbrev pub rs_call_cache : ℤ
rs_call_cache = pos 1

abbrev pub rs_call_cache_timeout : ℤ
rs_call_cache_timeout = pos 2

abbrev pub rs_call_notfound : ℤ
rs_call_notfound = negsuc 0

abbrev pub rs_call_wrongtype : ℤ
rs_call_wrongtype = negsuc 1

abbrev pub rs_call_timeout : ℤ
rs_call_timeout = negsuc 2

abbrev pub rs_call_cache_empty : ℤ
rs_call_cache_empty = negsuc 3

abbrev pub rs_call_cache_timeout_empty : ℤ
rs_call_cache_timeout_empty = negsuc 4

-- RS_RESULT_*
abbrev pub rs_result_success : ℤ
rs_result_success = pos 0

abbrev pub rs_result_notfound : ℤ
rs_result_notfound = negsuc 0

abbrev pub rs_result_wrongtype : ℤ
rs_result_wrongtype = negsuc 1

-- RS_PACKET_*
abbrev pub rs_packet_registered : ℕ
rs_packet_registered = 1

abbrev pub rs_packet_unregistered : ℕ
rs_packet_unregistered = 2

abbrev pub rs_packet_call_by_id : ℕ
rs_packet_call_by_id = 3

abbrev pub rs_packet_call_by_name : ℕ
rs_packet_call_by_name = 4

abbrev pub rs_packet_result_error : ℕ
rs_packet_result_error = 5

abbrev pub rs_packet_result_int : ℕ
rs_packet_result_int = 6

abbrev pub rs_packet_result_double : ℕ
rs_packet_result_double = 7

abbrev pub rs_packet_result_string : ℕ
rs_packet_result_string = 8

-- RS_LAMBDA_*
abbrev pub rs_lambda_int : ℕ
rs_lambda_int = 1

abbrev pub rs_lambda_double : ℕ
rs_lambda_double = 2

abbrev pub rs_lambda_string : ℕ
rs_lambda_string = 3

-- RS_CACHE_*
abbrev pub rs_cache_no_cache : ℕ
rs_cache_no_cache = 1

abbrev pub rs_cache_call_once : ℕ
rs_cache_call_once = 2

abbrev pub rs_cache_only : ℕ
rs_cache_only = 3

abbrev pub rs_cache_on_timeout : ℕ
rs_cache_on_timeout = 4
