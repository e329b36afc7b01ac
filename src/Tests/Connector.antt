-- ===== src/Tests/Connector.antt =====
-- Tests of the Linux side.
use riotsensors.Prelude.{
  ℕ, ◌≡◌, refl, ap, sym, ◌⊎◌, inl, inr, List, [], ◌∷◌, Bool, true, false, Option, none, some, arith,
}
use riotsensors.Prelude.Int.{negsuc}
use riotsensors.Constants.{rs_call_success, rs_call_cache}
use riotsensors.Registry.{get_registered_lambda_by_id}
use riotsensors.Packets.{
  store_uint, load_uint, little_endian, big_endian, hton_rs_packet_lambda_result_int_t,
  hton_rs_packet_lambda_result_string_t, hton_rs_packet_lambda_result_error_t,
}
use riotsensors.Packets.Layout.{int_bytes, string_bytes, error_bytes}
use riotsensors.Connector.State.{Connector, LinuxLambda, Memory, signals, ret_i, ret_s}
use riotsensors.Connector.Handler.{on_result_int, on_result_error, handle_received_packet}
use riotsensors.Connector.Call.{Wait, reply, call_by_id_request, handle_all, call_lambda_by_id}
use riotsensors.Connector.Invariant.{IsValid}
use riotsensors.Connector.Preservation.{handle_all-IsValid}
use riotsensors.Connector.Results.{Stores, string_result-Stores}
use riotsensors.Connector.Answers.{Answers, call_lambda_by_id-Answers}
use riotsensors.Connector.Waits.{fresh_result, cached_result}
use riotsensors.Connector.Errors.{error_woken}
use riotsensors.Connector.Ignored.{HasSize, malformed_ignored}
use riotsensors.Tests.Data.{
  zeros, temp_lambda, one, bits, memory, int_42, hi, error_not_found, uncached, cached, linux,
  linux-IsValid,
}

-- The connector after an integer result and an error.
abbrev two_packets : Connector Bool
two_packets = record {
  registry = one 1 0;
  heap =
      record {
        wait_result = signals 2;
        data_cached = true;
        last_call_error = negsuc 0;
        ret = ret_i 42;
      }
      ∷ [];
}

handle_all-IsValid_example : IsValid two_packets
unfolding handle_all handle_received_packet store_uint load_uint on_result_int on_result_error
    get_registered_lambda_by_id
handle_all-IsValid_example =
    handle_all-IsValid little_endian bits (linux 1 uncached) two_packets
      ((memory, int_bytes little_endian (hton_rs_packet_lambda_result_int_t int_42))
        ∷ (memory, error_bytes (hton_rs_packet_lambda_result_error_t error_not_found))
        ∷ [])
      (linux-IsValid 1 uncached tt) (refl, (refl, tt)) refl

-- A call that waits for an answer, and one that times out.
abbrev asking : List (Memory Bool × List ℕ) → Bool → Wait Bool
asking during late = record { request = some zeros; during = during; timed_out = late }

call_lambda_by_id-Answers_example :
    Answers little_endian bits
      (linux 3 cached)
      1
      (λ _. some (call_by_id_request 0 1))
      (asking [] false)
      (get_registered_lambda_by_id (one 3 0) 0)
      (call_lambda_by_id little_endian bits (linux 3 cached) 0 1 (asking [] false))
call_lambda_by_id-Answers_example =
    call_lambda_by_id-Answers little_endian bits (linux 3 cached) (linux-IsValid 3 cached tt) 0 1
      (asking [] false)

abbrev int_packet : List ℕ
int_packet = int_bytes little_endian (hton_rs_packet_lambda_result_int_t int_42)

fresh_result_example :
    (c' : Connector Bool) × (call_lambda_by_id little_endian bits
        (linux 1 cached)
        0
        1
        (asking ((memory, []) ∷ (memory, int_packet) ∷ []) false)
      ≡ some (
        c',
        record {
          code = rs_call_success;
          result = some (ret_i 42);
          sent = call_by_id_request 0 1 ∷ [];
        },
      ))
    × Stores (linux 1 cached) c' (temp_lambda 1 0) (ret_i 42)
unfolding get_registered_lambda_by_id handle_all handle_received_packet
fresh_result_example =
    fresh_result little_endian bits (linux 1 cached) (linux 1 cached)
      (asking ((memory, []) ∷ (memory, int_packet) ∷ []) false) (temp_lambda 1 0) int_42 memory
      ((memory, []) ∷ []) (linux-IsValid 1 cached tt) (refl, tt) refl refl (λ e. omega arith)
      (λ e. omega arith) refl refl refl refl refl refl refl (omega arith)

cached_result_example :
    (c' : Connector Bool) × (handle_received_packet little_endian bits
        (linux 2 uncached)
        memory
        int_packet
      ≡ some c')
    × (((temp_lambda 2 0).cache ≡ 2) ⊎ ((temp_lambda 2 0).cache ≡ 3)
        → call_lambda_by_id little_endian bits c' 0 1 (asking [] false)
          ≡ reply c' rs_call_cache (some (ret_i 42)))
unfolding get_registered_lambda_by_id
cached_result_example =
    cached_result little_endian bits (linux 2 uncached) (asking [] false) (temp_lambda 2 0) int_42
      memory (linux-IsValid 2 uncached tt) refl refl refl refl (omega arith)

-- From a board of the other byte order.
string_result-Stores_example :
    (c' : Connector Bool) × (handle_received_packet little_endian bits
        (linux 1 uncached)
        memory
        (string_bytes big_endian (hton_rs_packet_lambda_result_string_t big_endian hi))
      ≡ some c')
    × Stores (linux 1 uncached) c' (temp_lambda 1 0) (ret_s (b'h' ∷ b'i' ∷ 0 ∷ []))
unfolding get_registered_lambda_by_id
string_result-Stores_example =
    string_result-Stores little_endian bits (linux 1 uncached) (linux-IsValid 1 uncached tt)
      big_endian memory hi (temp_lambda 1 0) refl refl (omega arith) (omega arith) (omega arith)
      refl refl refl (λ a here. inl (ap (λ o. no_value o) (sym here)))
  where
    no_value : Option (LinuxLambda Bool) → Bool
    no_value none = false
    no_value (some a) = a.data_cached

abbrev not_found_packet : List ℕ
not_found_packet = error_bytes (hton_rs_packet_lambda_result_error_t error_not_found)

-- The value that was cached before.
error_woken_example :
    call_lambda_by_id little_endian bits
      (linux 1 cached)
      0
      1
      (asking ((memory, not_found_packet) ∷ []) false)
    ≡ some (
      linux 1 (record cached { last_call_error = negsuc 0; wait_result = signals 2 }),
      record {
        code = rs_call_success;
        result = some (ret_i 41);
        sent = call_by_id_request 0 1 ∷ [];
      },
    )
unfolding get_registered_lambda_by_id
error_woken_example =
    error_woken little_endian bits (linux 1 cached) (linux-IsValid 1 cached tt)
      (asking ((memory, not_found_packet) ∷ []) false) (temp_lambda 1 0) error_not_found memory
      cached refl (λ e. omega arith) (λ e. omega arith) refl refl refl refl refl refl

-- A call packet is not for Linux; a result for the lambda 9 is unknown.
call_packet : ¬ HasSize 3 3
call_packet h = ground arith

malformed_ignored_example :
    handle_received_packet little_endian bits (linux 1 cached) memory (3 ∷ 0 ∷ 1 ∷ [])
    ≡ some (linux 1 cached)
malformed_ignored_example =
    malformed_ignored little_endian bits (linux 1 cached) memory (3 ∷ 0 ∷ 1 ∷ []) (inr call_packet)
