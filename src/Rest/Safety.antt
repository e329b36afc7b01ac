-- ===== src/Rest/Safety.antt =====
-- The calls of the REST server that are defined.
use riotsensors.Connector.State.{Connector}
use riotsensors.Rest.Json.{Json}
use Prim.Native.String.{String}
