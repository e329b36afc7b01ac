-- ===== src/Packets/Layout.antt =====
-- The packed structures as bytes of memory: what `memcpy` takes from a packet and puts into one.
use riotsensors.Prelude.{ℕ, List, [], ◌∷◌, ◌++◌, get_or, take, drop}
use riotsensors.Packets.{
  Host, Doubles, store_uint, load_uint, RegisteredPacket, UnregisteredPacket, ResultPacket,
  ErrorResult, IntResult, DoubleResult, StringResult, CallByIdPacket, CallByNamePacket,
}

-- sizeof of the structures.
abbrev pub sizeof_registered : ℕ
sizeof_registered = 15

abbrev pub sizeof_unregistered : ℕ
sizeof_unregistered = 14

abbrev pub sizeof_result : ℕ
sizeof_result = 14

abbrev pub sizeof_error : ℕ
sizeof_error = 15

abbrev pub sizeof_int : ℕ
sizeof_int = 18

abbrev pub sizeof_double : ℕ
sizeof_double = 22

abbrev pub sizeof_string : ℕ
sizeof_string = 17

abbrev pub sizeof_call_by_id : ℕ
sizeof_call_by_id = 3

abbrev pub sizeof_call_by_name : ℕ
sizeof_call_by_name = 14

-- The byte at an offset.
abbrev pub byte_at : List ℕ → ℕ → ℕ
byte_at bs i = get_or bs i 0

-- The name array at an offset.
abbrev pub name_at : List ℕ → ℕ → List ℕ
name_at bs i = take 12 (drop i bs)

abbrev pub registered_bytes : RegisteredPacket → List ℕ
registered_bytes p = p.ptype ∷ p.name ++ p.ltype ∷ p.cache ∷ []

abbrev pub read_registered : List ℕ → RegisteredPacket
read_registered bs = record {
  ptype = byte_at bs 0;
  name = name_at bs 1;
  ltype = byte_at bs 13;
  cache = byte_at bs 14;
}

abbrev pub unregistered_bytes : UnregisteredPacket → List ℕ
unregistered_bytes p = p.ptype ∷ p.lambda_id ∷ p.name

abbrev pub read_unregistered : List ℕ → UnregisteredPacket
read_unregistered bs = record {
  ptype = byte_at bs 0;
  lambda_id = byte_at bs 1;
  name = name_at bs 2;
}

abbrev pub result_bytes : ResultPacket → List ℕ
result_bytes p = p.ptype ∷ p.lambda_id ∷ p.name

abbrev pub read_result : List ℕ → ResultPacket
read_result bs = record { ptype = byte_at bs 0; lambda_id = byte_at bs 1; name = name_at bs 2 }

abbrev pub error_bytes : ErrorResult → List ℕ
error_bytes p = result_bytes p.base ++ p.error_code ∷ []

abbrev pub read_error : List ℕ → ErrorResult
read_error bs = record { base = read_result bs; error_code = byte_at bs 14 }

abbrev pub int_bytes : Host → IntResult → List ℕ
int_bytes h p = result_bytes p.base ++ store_uint h 4 p.result

abbrev pub read_int : Host → List ℕ → IntResult
read_int h bs = record { base = read_result bs; result = load_uint h (take 4 (drop 14 bs)) }

abbrev pub double_bytes : {D : Type 0} → Doubles D → DoubleResult D → List ℕ
double_bytes d p = result_bytes p.base ++ d.bytes p.result

abbrev pub read_double : {D : Type 0} → Doubles D → List ℕ → DoubleResult D
read_double d bs = record { base = read_result bs; result = d.of_bytes (take 8 (drop 14 bs)) }

abbrev pub string_bytes : Host → StringResult → List ℕ
string_bytes h p = result_bytes p.base ++ (store_uint h 2 p.result_length ++ p.result)

abbrev pub read_string : Host → List ℕ → StringResult
read_string h bs = record {
  base = read_result bs;
  result_length = load_uint h (take 2 (drop 14 bs));
  result = drop 16 bs;
}

abbrev pub call_by_id_bytes : CallByIdPacket → List ℕ
call_by_id_bytes p = p.ptype ∷ p.lambda_id ∷ p.expected_type ∷ []

abbrev pub read_call_by_id : List ℕ → CallByIdPacket
read_call_by_id bs = record {
  ptype = byte_at bs 0;
  lambda_id = byte_at bs 1;
  expected_type = byte_at bs 2;
}

abbrev pub call_by_name_bytes : CallByNamePacket → List ℕ
call_by_name_bytes p = p.ptype ∷ p.name ++ p.expected_type ∷ []

abbrev pub read_call_by_name : List ℕ → CallByNamePacket
read_call_by_name bs = record {
  ptype = byte_at bs 0;
  name = name_at bs 1;
  expected_type = byte_at bs 13;
}
