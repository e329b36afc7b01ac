-- ===== src/System/Histories.antt =====
-- Registrations on the board one after the other, whose packets the Linux end handles in order, whenever it
-- does: `register_lambda` of riotmodule/rs.c and `handle_received_packet` of linuxconnector/rs_connector.c.
use riotsensors.Prelude.{ℕ, ◌<◌, ◌≡◌, List, [], ◌∷◌, some, length, if◌then◌else◌}
use riotsensors.Prelude.Int.{ℤ, is_negative}
use riotsensors.CString.{strlen}
use riotsensors.Registry.{Block, Registry}
use riotsensors.Connector.State.{Connector, Memory, Garbage}
use riotsensors.Board.State.{Board}
use riotsensors.Board.Calls.{register_lambda, registered_packet}

-- A registration, with the memory that is found on the board and, for its packet, on Linux.
pub record Attempt (D : Type 0) : Type 0 where
  pub name : List ℕ
  pub lambda : ℕ
  pub type : ℕ
  pub cache : ℕ
  pub block : Block
  pub stack : List ℕ
  pub mem : Memory D

-- A name of fewer than twelve characters, and memory of the sizes asked for.
pub record IsFit {D : Type 0} (a : Attempt D) : Type 0 where
  pub short : strlen a.name < 12
  pub room : length a.stack ≡ 12
  pub size : length a.block.name ≡ 12
  pub fresh : (g : Garbage D) × (a.mem.fresh ≡ some g)
  pub found : (block : Block) × (a.mem.block ≡ some block) × (length block.name ≡ 12)

abbrev pub AllFit : {D : Type 0} → List (Attempt D) → Type 0
AllFit [] = Unit {0}
AllFit (a ∷ later) = IsFit a × AllFit later

module _ {D : Type 0} where
  abbrev pub attempt : Board → Attempt D → Board × ℤ
  attempt b a = register_lambda b a.name a.lambda a.type a.cache (some a.block) a.stack

  -- The board after the registrations, and a packet for each that reports an id.
  unfoldable pub run_attempts : Board → List (Attempt D) → Board × List (Memory D × List ℕ)
  run_attempts b [] = (b, [])
  run_attempts b (a ∷ later) =
      let (b', packets) = run_attempts (attempt b a).0 later in
      (
        b',
        if is_negative (attempt b a).1
            then packets
            else (a.mem, registered_packet a.stack a.name a.type a.cache) ∷ packets,
      )

  abbrev pub packets_of : List (Memory D × List ℕ) → List (List ℕ)
  packets_of [] = []
  packets_of ((mem, packet) ∷ rest) = packet ∷ packets_of rest
