-- ===== src/Tests/System.antt =====
-- Tests of the two sides together.
use riotsensors.System.Histories.{Attempt}
use riotsensors.Prelude.{ℕ, ◌≡◌, refl, List, [], ◌∷◌, Bool, true, false, some, arith}
use riotsensors.CString.{strlen, c_str}
use riotsensors.Constants.{rs_call_success, rs_unregister_success}
use riotsensors.Registry.{initial, get_registered_lambda_by_id, lambda_registry_unregister}
use riotsensors.Packets.{little_endian}
use riotsensors.Connector.State.{Connector, ret_i}
use riotsensors.Connector.Handler as Connector
use riotsensors.Connector.Call.{call_by_id_request, call_lambda_by_id}
use riotsensors.Board.State.{Board, spt_send_packet}
use riotsensors.Board.Calls.{unregister_lambda}
use riotsensors.Board.Handler as Board
use riotsensors.System.Remote.{remote_call, unregistration_ignored}
use riotsensors.Tests.Data.{
  temp, hum, zeros, block, temp_lambda, one, bits, memory, uncached, linux, linux-IsValid, lambdas,
  running,
}

remote_call_example :
    (packet : List ℕ) × (c' : Connector Bool) × (Board.handle_received_packet little_endian bits
        lambdas running zeros []
        (call_by_id_request 0 1)
      ≡ some (spt_send_packet running packet))
    × (call_lambda_by_id little_endian bits
          (linux 1 uncached)
          0
          1
          (record { request = some zeros; during = (memory, packet) ∷ []; timed_out = false })
        ≡ some (
          c',
          record {
            code = rs_call_success;
            result = some (ret_i 42);
            sent = call_by_id_request 0 1 ∷ [];
          },
        ))
unfolding get_registered_lambda_by_id strlen c_str
remote_call_example =
    remote_call little_endian bits (linux 1 uncached) running lambdas (temp_lambda 1 7)
      (temp_lambda 1 0) zeros [] zeros memory (linux-IsValid 1 uncached tt) refl refl
      (λ e. omega arith) (λ e. omega arith) refl refl (λ e. omega arith) (omega arith) refl refl
      (omega arith)

unregistration_ignored_example :
    (packet : List ℕ) × (unregister_lambda running 0 zeros
      ≡ some (
        record (spt_send_packet running packet) {
          registry = (lambda_registry_unregister (one 1 7) 0).0;
        },
        rs_unregister_success,
      ))
    × (Connector.handle_received_packet little_endian bits (linux 1 uncached) memory packet
        ≡ some (linux 1 uncached))
unfolding get_registered_lambda_by_id strlen c_str
unregistration_ignored_example =
    unregistration_ignored little_endian bits (linux 1 uncached) running 0 (temp_lambda 1 7) zeros
      memory refl (omega arith) refl refl

abbrev fresh_board : Board
fresh_board = record { registry = initial; rs_spt_started = true; sent = [] }

abbrev fresh_linux : Connector Bool
fresh_linux = record { registry = initial; heap = [] }

-- Two registrations, and a third under the first name again.
abbrev attempt_of : List ℕ → Attempt Bool
attempt_of name = record {
  name = name;
  lambda = 7;
  type = 1;
  cache = 1;
  block = block;
  stack = zeros;
  mem = memory;
}

abbrev attempts : List (Attempt Bool)
attempts = attempt_of temp ∷ attempt_of hum ∷ attempt_of temp ∷ []
