-- ===== src/Tests/Data.antt =====
-- The inputs of the tests: a registry with one lambda, and the machines at the two ends of a line.
use riotsensors.Prelude.{
  ℕ, ◌≡◌, refl, List, [], ◌∷◌, Bool, true, false, not, ◌==◌, Option, none, some, arith, length,
  replicate, get_or-replicate, get_elem?, zero, suc, sym, ◌∙◌,
}
use riotsensors.Prelude.Int.{pos}
use riotsensors.Registry.{
  RegisteredLambda, Block, Registry, slot, initial, all_alnum, find_name, name_accepted,
  get_registered_lambda_by_name, lambda_registry_register,
}
use riotsensors.CString.{strlen, c_str, isalnum, strcpy}
use riotsensors.Registry.Names.{IsName, name_accepted_iff}
use riotsensors.Registry.Register.{IsTaken}
use riotsensors.Registry.Invariant.{
  cleared-IsValid, IsValid, register, run, step, initial-IsValid, run-IsValid,
}
use riotsensors.Packets.{Doubles, ResultPacket, IntResult, DoubleResult, StringResult, ErrorResult}
use riotsensors.Connector.Invariant.{IsReady, IsValid as IsValidConnector}
use riotsensors.Board.State.{Board, Lambdas}
use riotsensors.Connector.State.{Memory, Connector, LinuxLambda, signals, unset, ret_i}

-- "temp" and "hum".
abbrev pub temp : List ℕ
temp = b't' ∷ b'e' ∷ b'm' ∷ b'p' ∷ 0 ∷ []

abbrev pub hum : List ℕ
hum = b'h' ∷ b'u' ∷ b'm' ∷ 0 ∷ []

-- "abcdefghijkl": twelve characters.
abbrev pub twelve : List ℕ
twelve = b'a' ∷ b'b' ∷ b'c' ∷ b'd' ∷ b'e' ∷ b'f' ∷ b'g' ∷ b'h' ∷ b'i' ∷ b'j' ∷ b'k' ∷ b'l' ∷ 0 ∷ []

abbrev pub zeros : List ℕ
zeros = 0 ∷ 0 ∷ 0 ∷ 0 ∷ 0 ∷ 0 ∷ 0 ∷ 0 ∷ 0 ∷ 0 ∷ 0 ∷ 0 ∷ []

-- "temp" in an array of 12 bytes.
abbrev pub temp_array : List ℕ
temp_array = b't' ∷ b'e' ∷ b'm' ∷ b'p' ∷ 0 ∷ 0 ∷ 0 ∷ 0 ∷ 0 ∷ 0 ∷ 0 ∷ 0 ∷ []

abbrev pub block : Block
block = record { name = zeros; beyond = [] }

-- An integer lambda that is called every time, with the argument 0.
abbrev pub temp_lambda : ℕ → ℕ → RegisteredLambda ℕ
temp_lambda cache arg = record {
  id = 0;
  name = temp_array;
  type = 1;
  cache = cache;
  arg = arg;
  beyond = [];
}

abbrev pub one : ℕ → ℕ → Registry ℕ
one cache arg = record { slots = some (temp_lambda cache arg) ∷ replicate 254 none; counter = 1 }

pub one_is_run :
    (cache arg : ℕ) → run initial (register temp 1 cache arg (some block) ∷ []) ≡ one cache arg
unfolding run step lambda_registry_register name_accepted strlen c_str all_alnum isalnum
    get_registered_lambda_by_name find_name strcpy
one_is_run cache arg = refl

pub one-IsValid : (cache arg : ℕ) → IsValid (one cache arg)
one-IsValid cache arg =
    rw (one_is_run cache arg) at
      (run-IsValid initial (register temp 1 cache arg (some block) ∷ []) (refl, tt) initial-IsValid)

-- Two doubles, true and false, as eight bytes; the conversions for the network swap them.
abbrev pub seven_zeros : List ℕ
seven_zeros = 0 ∷ 0 ∷ 0 ∷ 0 ∷ 0 ∷ 0 ∷ 0 ∷ []

abbrev pub bytes_of : Bool → List ℕ
bytes_of true = 1 ∷ seven_zeros
bytes_of false = 0 ∷ seven_zeros

abbrev pub bit_of : List ℕ → Bool
bit_of [] = false
bit_of (n ∷ _) = n == 1

pub length-bytes_of : (b : Bool) → length (bytes_of b) ≡ 8
length-bytes_of true = refl
length-bytes_of false = refl

pub bit_of-bytes_of : (b : Bool) → bit_of (bytes_of b) ≡ b
bit_of-bytes_of true = refl
bit_of-bytes_of false = refl

abbrev pub bits : Doubles Bool
bits = record {
  bytes = bytes_of;
  of_bytes = bit_of;
  length-bytes = length-bytes_of;
  of_bytes-bytes = bit_of-bytes_of;
  pack = not;
  unpack = not;
}

-- Packets for the lambda 0.
abbrev pub result_of : ℕ → ResultPacket
result_of ptype = record { ptype = ptype; lambda_id = 0; name = temp_array }

abbrev pub int_42 : IntResult
int_42 = record { base = result_of 6; result = 42 }

abbrev pub double_true : DoubleResult Bool
double_true = record { base = result_of 7; result = true }

abbrev pub hi : StringResult
hi = record { base = result_of 8; result_length = 3; result = b'h' ∷ b'i' ∷ 0 ∷ [] }

abbrev pub error_not_found : ErrorResult
error_not_found = record { base = result_of 5; error_code = 255 }

-- Memory is found for everything.
abbrev pub memory : Memory Bool
memory = record {
  fresh = some (record { last_call_error = pos 0; ret = unset });
  block = some block;
  stack = [];
  copy = true;
  text = true;
}

-- The block of the lambda 0, without and with a cached value.
abbrev pub uncached : LinuxLambda Bool
uncached = record {
  wait_result = signals 0;
  data_cached = false;
  last_call_error = pos 0;
  ret = unset;
}

abbrev pub cached : LinuxLambda Bool
cached = record {
  wait_result = signals 1;
  data_cached = true;
  last_call_error = pos 0;
  ret = ret_i 41;
}

abbrev pub linux : ℕ → LinuxLambda Bool → Connector Bool
linux cache a = record { registry = one cache 0; heap = a ∷ [] }

-- A board on which the function at address 7 returns 42.
abbrev pub lambdas : Lambdas Bool
lambdas = record {
  int = λ arg id. 42;
  double = λ arg id. true;
  string = λ arg id. b'h' ∷ b'i' ∷ 0 ∷ [];
}

abbrev pub running : Board
running = record { registry = one 1 7; rs_spt_started = true; sent = [] }

-- The only lambda of the registry.
only_slot :
    (cache arg i : ℕ) (l : RegisteredLambda ℕ)
    → slot (one cache arg) i ≡ some l
    → (i ≡ 0) × (l ≡ temp_lambda cache arg)
only_slot cache arg zero l at = let q : some (temp_lambda cache arg) ≡ some l = at in (refl, cc q)
only_slot cache arg (suc i) l at =
    absurd (cc (get_or-replicate {A = Option (RegisteredLambda ℕ)} 254 i none, at))

pub linux-IsValid :
    (cache : ℕ) (a : LinuxLambda Bool) → IsReady a.wait_result → IsValidConnector (linux cache a)
linux-IsValid cache a ok = record {
  registry = one-IsValid cache 0;
  allocated = λ i l at. rw (only_slot cache 0 i l at).1 (omega arith);
  separate =
      λ i j l m at at' same. (only_slot cache 0 i l at).0 ∙ sym (only_slot cache 0 j m at').0;
  ready = λ i l b at here.
      let e : get_elem? (a ∷ []) 0 ≡ some b = rw (only_slot cache 0 i l at).1 at here in
      let q : a ≡ b = cc e in rw q at ok;
}

-- A registry whose first 128 lambdas have been unregistered.
abbrev pub late : Registry ℕ
late = record { slots = replicate 255 none; counter = 128 }

pub late-IsValid : IsValid late
late-IsValid = cleared-IsValid late refl (omega arith) (λ i. get_or-replicate 255 i none)

pub temp-IsName : IsName (c_str temp)
unfolding name_accepted strlen c_str all_alnum isalnum
temp-IsName = (name_accepted_iff temp).0 refl

pub not-IsTaken-temp : ¬ IsTaken late (c_str temp)
not-IsTaken-temp (i, l, lt, at, same) =
    cc (get_or-replicate {A = Option (RegisteredLambda ℕ)} 255 i none, at)
