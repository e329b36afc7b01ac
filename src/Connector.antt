-- ===== src/Connector.antt =====
-- linuxconnector/rs_connector.c and include/rs_connector.h: the Linux side of the serial line.
-- State: the structures. Handler: `handle_received_packet`. Call: the two call functions. The proofs
-- stand in the other modules.
pub mod State
pub mod Handler
pub mod Call
pub mod Invariant
pub mod Preservation
pub mod Results
pub mod Answers
pub mod Waits
pub mod Errors
pub mod Ignored
pub mod Safety
