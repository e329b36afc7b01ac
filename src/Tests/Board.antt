-- ===== src/Tests/Board.antt =====
-- Tests of the board.
use riotsensors.Prelude.{true, ℕ, ◌≡◌, refl, [], some, arith}
use riotsensors.Prelude.Int.{negsuc}
use riotsensors.Registry.{get_registered_lambda_by_id}
use riotsensors.Packets.{little_endian}
use riotsensors.Board.State.{Board, power_on, rs_start, rs_stop}
use riotsensors.Board.Calls.{register_lambda}
use riotsensors.Board.Steps.{
  StepKeeps, starts, stops, registers, at_start, later, reachable-StepKeeps,
}
use riotsensors.Board.Limits.{high_id_not_announced}
use riotsensors.Registry.{RegisteredLambda, Registry}
use riotsensors.Tests.Data.{
  late, late-IsValid, temp-IsName, not-IsTaken-temp, temp, block, zeros, bits,
}

-- The board after its start and a registration.
reachable-StepKeeps_example :
    StepKeeps
      (register_lambda (rs_start power_on) temp 7 1 1 (some block) zeros).0
      (rs_stop (register_lambda (rs_start power_on) temp 7 1 1 (some block) zeros).0)
reachable-StepKeeps_example =
    reachable-StepKeeps little_endian bits _ _
      (later (later at_start starts) (registers temp 7 1 1 (some block) zeros refl)) stops

abbrev late_board : Board
late_board = record { registry = late; rs_spt_started = true; sent = [] }

high_id_not_announced_example :
    (r' : Registry ℕ) × (register_lambda late_board temp 7 1 1 (some block) zeros
      ≡ (record late_board { registry = r' }, negsuc 127))
    × (l : RegisteredLambda ℕ) × (get_registered_lambda_by_id r' 128 ≡ some l)
    × (l.arg ≡ 7)
high_id_not_announced_example =
    high_id_not_announced late_board temp zeros 7 1 1 block late-IsValid (λ e. omega arith)
      (omega arith) (omega arith) temp-IsName not-IsTaken-temp refl
