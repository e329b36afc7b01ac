-- ===== src/Board/State.antt =====
-- The state of riotmodule/rs.c. A lambda's argument is the address of a function, 0 is NULL. What the
-- application's functions return is given by a `Lambdas` for each operation. `sent` holds the packets
-- handed to `spt_send_packet`, in order. `none` as a result is undefined behaviour: a call of NULL, or
-- a write behind a packet on the stack. `stack` is the memory in which a packet's name is built.
use riotsensors.Prelude.{ℕ, List, [], ◌∷◌, ◌++◌, Bool, true, false}
use riotsensors.Registry.{Registry, initial, init_lambda_registry, free_lambda_registry}

pub record Board : Type 0 where
  pub registry : Registry ℕ
  pub rs_spt_started : Bool
  pub sent : List (List ℕ)

-- What a function at an address returns for an id; a string is the memory at the `char *`.
pub record Lambdas (D : Type 0) : Type 0 where
  pub int : ℕ → ℕ → ℕ
  pub double : ℕ → ℕ → D
  pub string : ℕ → ℕ → List ℕ

-- The program's start.
abbrev pub power_on : Board
power_on = record { registry = initial; rs_spt_started = false; sent = [] }

abbrev pub spt_send_packet : Board → List ℕ → Board
spt_send_packet b packet = record b { sent = b.sent ++ packet ∷ [] }

unfoldable pub rs_start : Board → Board
rs_start b = record b { registry = init_lambda_registry b.registry; rs_spt_started = true }

unfoldable pub rs_stop : Board → Board
rs_stop b = record b { registry = free_lambda_registry b.registry; rs_spt_started = false }
