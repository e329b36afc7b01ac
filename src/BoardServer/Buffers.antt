-- ===== src/BoardServer/Buffers.antt =====
-- rs_coap_server.c: requests, responses, what is printed, and the two buffers.
use riotsensors.Prelude.{
  ℕ, zero, suc, ◌+◌, ◌-◌, ◌/◌, ◌%◌, ◌^◌, List, [], ◌∷◌, ◌++◌, Option, none, some, ltb, leb,
  if◌then◌else◌, length, take, drop, codes,
}
use riotsensors.Prelude.Int.{ℤ, pos, negsuc}
use riotsensors.CString.{c_str}
use riotsensors.Registry.{RegisteredLambda, name_mem}
use riotsensors.CoapUtils.{index_of}

-- An option: the memory from its first byte on, and its length.
pub record Opt : Type 0 where
  pub mem : List ℕ
  pub len : ℕ

-- The codes and the content types that are used.
pub data Code : Type 0 where
  content bad_request : Code

pub data ContentType : Type 0 where
  text_plain application_json application_linkformat : ContentType

pub record Response : Type 0 where
  pub code : Code
  pub type : ContentType
  pub payload : List ℕ

-- A literal that is sent with its NUL.
abbrev pub refuse : List ℕ → Response
refuse message = record { code = bad_request; type = text_plain; payload = message ++ 0 ∷ [] }

abbrev pub answer : List ℕ → Response
answer body = record { code = content; type = application_json; payload = body }

-- "%u" and "%d": the digits of a number of at most `fuel` digits.
unfoldable pub print_digits : ℕ → ℕ → List ℕ
print_digits zero n = []
print_digits (suc fuel) n =
    let before = print_digits fuel (n / 10) in
    if ltb n 10 then (b'0' + n) ∷ [] else before ++ (b'0' + n % 10) ∷ []

-- A 32-bit number has at most ten digits.
abbrev pub print_uint : ℕ → List ℕ
print_uint n = print_digits 10 n

abbrev pub print_int : ℤ → List ℕ
print_int (pos n) = print_uint n
print_int (negsuc n) = b'-' ∷ print_uint (n + 1)

-- sprintf(buf, ...): the text and its NUL fit into 200 bytes.
abbrev pub sprintf_buf : List ℕ → Option (List ℕ)
sprintf_buf text = if ltb (length text) 200 then some text else none

-- strncat(rsp, text, len) and the subtraction behind it: what `rsp` holds, and the new `len`.
pub record Rsp : Type 0 where
  pub text : List ℕ
  pub len : ℕ

abbrev pub less : ℕ → ℕ → ℕ
less len n = if leb n len then len - n else len + 2 ^ 32 - n

unfoldable pub append : Rsp → List ℕ → Option Rsp
append r text =
    let whole = r.text ++ take r.len text in
    if ltb (length whole) 500
    then some (record { text = whole; len = less r.len (length text) })
    else none

-- INITIALIZE_COAP_KEY_VALUE_FROM_OPT: the key and the value.
abbrev pub key_value_at : Opt → ℤ → Option (List ℕ × List ℕ)
key_value_at opt (negsuc n) = some (take opt.len opt.mem, [])
key_value_at opt (pos split_at) =
    if ltb split_at opt.len
    then some (take split_at opt.mem, take (opt.len - split_at - 1) (drop (split_at + 1) opt.mem))
    else none

unfoldable pub key_value : Opt → Option (List ℕ × List ℕ)
key_value opt = key_value_at opt (index_of opt.mem b'=')

-- "name", type and cache of a lambda as they are printed.
abbrev pub name_type_cache : RegisteredLambda ℕ → List ℕ
name_type_cache l =
    codes ",\"name\":\""
    ++ (c_str (name_mem l)
        ++ (codes "\",\"type\":"
            ++ (print_uint l.type ++ (codes ",\"cache\":" ++ print_uint l.cache))))
