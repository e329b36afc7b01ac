-- ===== src/Tests/Packets.antt =====
-- Tests of the packets.
use riotsensors.Prelude.{◌*◌, ◌^◌, ◌≡◌, refl, arith}
use riotsensors.Packets.{
  little_endian, big_endian, hton_rs_packet_lambda_result_int_t, ntoh_rs_packet_lambda_result_int_t,
  hton_rs_packet_lambda_result_string_t, ntoh_rs_packet_lambda_result_string_t, le_value, le_bytes,
}
use riotsensors.Packets.Layout.{int_bytes, read_int, string_bytes, read_string}
use riotsensors.Packets.RoundTrip.{int_byte_order, string_round_trip}
use riotsensors.Tests.Data.{int_42, hi}

-- 42 arrives as 42 * 2^24.
int_byte_order_example :
    (ntoh_rs_packet_lambda_result_int_t (
      read_int big_endian
        (int_bytes little_endian (hton_rs_packet_lambda_result_int_t int_42)))).result
    ≡ 42 * 2 ^ 24
unfolding le_value le_bytes
int_byte_order_example = int_byte_order int_42 refl

string_round_trip_example :
    ntoh_rs_packet_lambda_result_string_t big_endian (
      read_string big_endian
        (string_bytes little_endian (hton_rs_packet_lambda_result_string_t little_endian hi)))
    ≡ hi
string_round_trip_example = string_round_trip little_endian big_endian hi refl (omega arith)
