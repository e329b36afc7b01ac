-- ===== src/Packets.antt =====
-- protocol/include/rs_packets.h and rs_packets.c: the packed structures, and their conversion between
-- host and network byte order. `Host` says in which order the machine stores integers.
mod Bytes
pub mod Layout
pub mod RoundTrip
unfoldable pub use Bytes.*
use riotsensors.Prelude.{ℕ, ◌≡◌, List, length}

-- `rs_double_t` as an interface: its object representation, and the two assignments that
-- rs_packets.c makes with the functions of ieee754_network.c.
pub record Doubles (D : Type 0) : Type 0 where
  -- The eight bytes of a value in memory, and the value of eight bytes.
  pub bytes : D → List ℕ
  pub of_bytes : List ℕ → D
  pub length-bytes : (d : D) → length (bytes d) ≡ 8
  pub of_bytes-bytes : (d : D) → of_bytes (bytes d) ≡ d
  -- `pack754_64(x)` and `unpack754_64((uint64_t) x)`, each converted back to a double.
  pub pack : D → D
  pub unpack : D → D

pub record RegisteredPacket : Type 0 where
  pub ptype : ℕ
  pub name : List ℕ
  pub ltype : ℕ
  pub cache : ℕ

pub record UnregisteredPacket : Type 0 where
  pub ptype : ℕ
  pub lambda_id : ℕ
  pub name : List ℕ

pub record ResultPacket : Type 0 where
  pub ptype : ℕ
  pub lambda_id : ℕ
  pub name : List ℕ

-- `error_code` is the byte of the `int8_t`.
pub record ErrorResult : Type 0 where
  pub base : ResultPacket
  pub error_code : ℕ

-- `result` is the bit pattern of the `int32_t`.
pub record IntResult : Type 0 where
  pub base : ResultPacket
  pub result : ℕ

pub record DoubleResult (D : Type 0) : Type 0 where
  pub base : ResultPacket
  pub result : D

-- `result` is the memory from the last field on.
pub record StringResult : Type 0 where
  pub base : ResultPacket
  pub result_length : ℕ
  pub result : List ℕ

pub record CallByIdPacket : Type 0 where
  pub ptype : ℕ
  pub lambda_id : ℕ
  pub expected_type : ℕ

pub record CallByNamePacket : Type 0 where
  pub ptype : ℕ
  pub name : List ℕ
  pub expected_type : ℕ

-- The packet is left as it is.
abbrev pub hton_rs_packet_base_t : ℕ → ℕ
hton_rs_packet_base_t ptype = ptype

abbrev pub hton_rs_packet_registered_t : RegisteredPacket → RegisteredPacket
hton_rs_packet_registered_t p = record p { ptype = hton_rs_packet_base_t p.ptype }

abbrev pub hton_rs_packet_unregistered_t : UnregisteredPacket → UnregisteredPacket
hton_rs_packet_unregistered_t p = record p { ptype = hton_rs_packet_base_t p.ptype }

abbrev pub hton_rs_packet_lambda_result_t : ResultPacket → ResultPacket
hton_rs_packet_lambda_result_t p = record p { ptype = hton_rs_packet_base_t p.ptype }

abbrev pub hton_rs_packet_lambda_result_error_t : ErrorResult → ErrorResult
hton_rs_packet_lambda_result_error_t p = record p { base = hton_rs_packet_lambda_result_t p.base }

abbrev pub hton_rs_packet_lambda_result_int_t : IntResult → IntResult
hton_rs_packet_lambda_result_int_t p = record p { base = hton_rs_packet_lambda_result_t p.base }

abbrev pub hton_rs_packet_lambda_result_double_t :
    {D : Type 0} → Doubles D → DoubleResult D → DoubleResult D
hton_rs_packet_lambda_result_double_t d p = record p {
  base = hton_rs_packet_lambda_result_t p.base;
  result = d.pack p.result;
}

abbrev pub hton_rs_packet_lambda_result_string_t : Host → StringResult → StringResult
hton_rs_packet_lambda_result_string_t h p = record p {
  base = hton_rs_packet_lambda_result_t p.base;
  result_length = htons h p.result_length;
}

abbrev pub hton_rs_packet_call_by_id_t : CallByIdPacket → CallByIdPacket
hton_rs_packet_call_by_id_t p = record p { ptype = hton_rs_packet_base_t p.ptype }

abbrev pub hton_rs_packet_call_by_name_t : CallByNamePacket → CallByNamePacket
hton_rs_packet_call_by_name_t p = record p { ptype = hton_rs_packet_base_t p.ptype }

abbrev pub ntoh_rs_packet_base_t : ℕ → ℕ
ntoh_rs_packet_base_t ptype = ptype

abbrev pub ntoh_rs_packet_registered_t : RegisteredPacket → RegisteredPacket
ntoh_rs_packet_registered_t p = record p { ptype = ntoh_rs_packet_base_t p.ptype }

abbrev pub ntoh_rs_packet_unregistered_t : UnregisteredPacket → UnregisteredPacket
ntoh_rs_packet_unregistered_t p = record p { ptype = ntoh_rs_packet_base_t p.ptype }

abbrev pub ntoh_rs_packet_lambda_result_t : ResultPacket → ResultPacket
ntoh_rs_packet_lambda_result_t p = record p { ptype = ntoh_rs_packet_base_t p.ptype }

abbrev pub ntoh_rs_packet_lambda_result_error_t : ErrorResult → ErrorResult
ntoh_rs_packet_lambda_result_error_t p = record p { base = ntoh_rs_packet_lambda_result_t p.base }

abbrev pub ntoh_rs_packet_lambda_result_int_t : IntResult → IntResult
ntoh_rs_packet_lambda_result_int_t p = record p { base = ntoh_rs_packet_lambda_result_t p.base }

abbrev pub ntoh_rs_packet_lambda_result_double_t :
    {D : Type 0} → Doubles D → DoubleResult D → DoubleResult D
ntoh_rs_packet_lambda_result_double_t d p = record p {
  base = ntoh_rs_packet_lambda_result_t p.base;
  result = d.unpack p.result;
}

abbrev pub ntoh_rs_packet_lambda_result_string_t : Host → StringResult → StringResult
ntoh_rs_packet_lambda_result_string_t h p = record p {
  base = ntoh_rs_packet_lambda_result_t p.base;
  result_length = ntohs h p.result_length;
}

abbrev pub ntoh_rs_packet_call_by_id_t : CallByIdPacket → CallByIdPacket
ntoh_rs_packet_call_by_id_t p = record p { ptype = ntoh_rs_packet_base_t p.ptype }

abbrev pub ntoh_rs_packet_call_by_name_t : CallByNamePacket → CallByNamePacket
ntoh_rs_packet_call_by_name_t p = record p { ptype = ntoh_rs_packet_base_t p.ptype }
