-- ===== src/Connector/Safety.antt =====
-- When `handle_received_packet` of rs_connector.c is defined: no NULL, dangling pointer or destroyed
-- condition variable is used.
use riotsensors.Prelude.{◌≡◌, Option, some}
use riotsensors.Connector.State.{Connector}

abbrev pub IsDefined : {D : Type 0} → Option (Connector D) → Type 0
IsDefined {D} o = (c : Connector D) × (o ≡ some c)
