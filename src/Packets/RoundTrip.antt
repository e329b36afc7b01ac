-- ===== src/Packets/RoundTrip.antt =====
-- What a receiver reads from the bytes that a sender made of a packet.
use mathlib.Core.List.{reverse}
use riotsensors.Prelude.{
  ℕ, zero, suc, ◌+◌, ◌^◌, take_exact, drop-drop, ◌<◌, ◌≡◌, refl, ap, ◌∙◌, List, [], ◌∷◌, ◌++◌,
  arith, length, take, drop, get_or, take_all, drop_all,
}
use riotsensors.Packets.{
  Host, little_endian, big_endian, Doubles, store_uint, load_uint, htons, ntohs, length-store_uint,
  length-le_bytes, load_uint-store_uint, ntohs-load-store, RegisteredPacket, ResultPacket,
  ErrorResult, IntResult, DoubleResult, StringResult, CallByNamePacket, hton_rs_packet_registered_t,
  ntoh_rs_packet_registered_t, hton_rs_packet_lambda_result_error_t,
  ntoh_rs_packet_lambda_result_error_t, hton_rs_packet_lambda_result_int_t,
  ntoh_rs_packet_lambda_result_int_t, hton_rs_packet_lambda_result_double_t,
  ntoh_rs_packet_lambda_result_double_t, hton_rs_packet_lambda_result_string_t,
  ntoh_rs_packet_lambda_result_string_t, hton_rs_packet_call_by_name_t,
  ntoh_rs_packet_call_by_name_t, le_value, le_bytes,
}
use riotsensors.Packets.Layout.{
  registered_bytes, read_registered, result_bytes, read_result, int_bytes, read_int, error_bytes,
  read_error, call_by_name_bytes, read_call_by_name, double_bytes, read_double, string_bytes,
  read_string,
}

-- A value behind a prefix.
get_or-append :
    (xs ys : List ℕ) (i j : ℕ) → j ≡ length xs + i → get_or (xs ++ ys) j 0 ≡ get_or ys i 0
get_or-append [] ys i j e = ap (λ k. get_or ys k 0) (e ∙ omega arith)
get_or-append (x ∷ xs) ys i zero e = absurd (omega arith)
get_or-append (x ∷ xs) ys i (suc j) e = get_or-append xs ys i j (omega arith)

-- A name array holds twelve bytes.
abbrev pub IsNameArray : List ℕ → Type 0
IsNameArray name = length name ≡ 12

read_result-append :
    (p : ResultPacket) (rest : List ℕ)
    → IsNameArray p.name
    → read_result (result_bytes p ++ rest) ≡ p
read_result-append p rest e =
    λ i. record { ptype = p.ptype; lambda_id = p.lambda_id; name = take_all 12 p.name rest e i }

payload :
    (p : ResultPacket) (rest : List ℕ)
    → IsNameArray p.name
    → drop 14 (result_bytes p ++ rest) ≡ rest
payload p rest e = drop_all 12 p.name rest e

-- The packet of a registration with a name array of twelve bytes is read as it was sent.
pub registered_round_trip :
    (p : RegisteredPacket)
    → IsNameArray p.name
    → ntoh_rs_packet_registered_t
        (read_registered (registered_bytes (hton_rs_packet_registered_t p)))
      ≡ p
registered_round_trip p e = λ i. record {
  ptype = p.ptype;
  name = take_all 12 p.name (p.ltype ∷ p.cache ∷ []) e i;
  ltype = get_or-append p.name (p.ltype ∷ p.cache ∷ []) 0 12 (omega arith) i;
  cache = get_or-append p.name (p.ltype ∷ p.cache ∷ []) 1 13 (omega arith) i;
}

pub error_round_trip :
    (p : ErrorResult)
    → IsNameArray p.base.name
    → ntoh_rs_packet_lambda_result_error_t
        (read_error (error_bytes (hton_rs_packet_lambda_result_error_t p)))
      ≡ p
error_round_trip p e = λ i. record {
  base = read_result-append p.base (p.error_code ∷ []) e i;
  error_code = get_or-append p.base.name (p.error_code ∷ []) 0 12 (omega arith) i;
}

pub call_by_name_round_trip :
    (p : CallByNamePacket)
    → IsNameArray p.name
    → ntoh_rs_packet_call_by_name_t
        (read_call_by_name (call_by_name_bytes (hton_rs_packet_call_by_name_t p)))
      ≡ p
call_by_name_round_trip p e = λ i. record {
  ptype = p.ptype;
  name = take_all 12 p.name (p.expected_type ∷ []) e i;
  expected_type = get_or-append p.name (p.expected_type ∷ []) 0 12 (omega arith) i;
}

-- An integer result of 32 bits with a name array of twelve bytes is read as it was sent, between
-- two hosts of the same byte order.
pub int_round_trip :
    (h : Host) (p : IntResult)
    → IsNameArray p.base.name
    → p.result < 256 ^ 4
    → ntoh_rs_packet_lambda_result_int_t
        (read_int h (int_bytes h (hton_rs_packet_lambda_result_int_t p)))
      ≡ p
int_round_trip h p e lt =
    λ i. record { base = read_result-append p.base (store_uint h 4 p.result) e i; result = value i }
  where
    value : load_uint h (take 4 (drop 14 (int_bytes h p))) ≡ p.result
    value =
        ap (λ bs. load_uint h (take 4 bs)) (payload p.base (store_uint h 4 p.result) e)
        ∙ ap (load_uint h) (take_exact 4 (store_uint h 4 p.result) (length-store_uint h 4 p.result))
        ∙ load_uint-store_uint h 4 p.result lt

-- An integer result that a little-endian host sends, with a name array of twelve bytes, is read
-- by a big-endian host with its four bytes reversed.
pub int_byte_order :
    (p : IntResult)
    → IsNameArray p.base.name
    → (ntoh_rs_packet_lambda_result_int_t (
        read_int big_endian
          (int_bytes little_endian (hton_rs_packet_lambda_result_int_t p)))).result
      ≡ le_value (reverse (le_bytes 4 p.result))
unfolding load_uint store_uint
int_byte_order p e =
    ap (λ bs. le_value (reverse (take 4 bs))) (payload p.base (le_bytes 4 p.result) e)
    ∙ ap (λ bs. le_value (reverse bs))
        (take_exact 4 (le_bytes 4 p.result) (length-le_bytes 4 p.result))

-- A double result with a name array of twelve bytes is read with the value that packing and
-- unpacking leave, and with all its other fields as they were sent.
pub double_round_trip :
    {D : Type 0} (d : Doubles D) (p : DoubleResult D)
    → IsNameArray p.base.name
    → ntoh_rs_packet_lambda_result_double_t d
        (read_double d (double_bytes d (hton_rs_packet_lambda_result_double_t d p)))
      ≡ record p { result = d.unpack (d.pack p.result) }
double_round_trip d p e = λ i. record {
  base = read_result-append p.base (d.bytes (d.pack p.result)) e i;
  result = d.unpack (value i);
}
  where
    value :
        d.of_bytes (take 8 (drop 14 (double_bytes d (record p { result = d.pack p.result }))))
        ≡ d.pack p.result
    value =
        ap (λ bs. d.of_bytes (take 8 bs)) (payload p.base (d.bytes (d.pack p.result)) e)
        ∙ ap d.of_bytes
            (take_exact 8 (d.bytes (d.pack p.result)) (d.length-bytes (d.pack p.result)))
        ∙ d.of_bytes-bytes (d.pack p.result)

-- A string result with a name array of twelve bytes and a length of 16 bits is read as it was
-- sent, whatever the byte orders of the two hosts.
pub string_round_trip :
    (sender receiver : Host) (p : StringResult)
    → IsNameArray p.base.name
    → p.result_length < 65536
    → ntoh_rs_packet_lambda_result_string_t receiver (
        read_string receiver (string_bytes sender (hton_rs_packet_lambda_result_string_t sender p)))
      ≡ p
string_round_trip s r p e lt = λ i. record {
  base = read_result-append p.base (size ++ p.result) e i;
  result_length = value i;
  result = text i;
}
  where
    size : List ℕ
    size = store_uint s 2 (htons s p.result_length)

    value :
        ntohs r (load_uint r (take 2 (drop 14 (result_bytes p.base ++ (size ++ p.result)))))
        ≡ p.result_length
    value =
        ap (λ bs. ntohs r (load_uint r (take 2 bs))) (payload p.base (size ++ p.result) e)
        ∙ ap (λ bs. ntohs r (load_uint r bs)) (take_all 2 size p.result (length-store_uint s 2 _))
        ∙ ntohs-load-store s r p.result_length lt

    text : drop 16 (result_bytes p.base ++ (size ++ p.result)) ≡ p.result
    text =
        drop-drop 14 2 16 (result_bytes p.base ++ (size ++ p.result)) refl
        ∙ ap (drop 2) (payload p.base (size ++ p.result) e)
        ∙ drop_all 2 size p.result (length-store_uint s 2 _)
