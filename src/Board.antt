-- ===== src/Board.antt =====
-- riotmodule/rs.c and include/rs.h: the library on the board.
-- State: the registry and the packets sent. Calls: registration, the local calls and the results.
-- Handler: the packets of the serial line. The proofs stand in the other modules.
pub mod State
pub mod Calls
pub mod Handler
pub mod Answers
pub mod Sends
pub mod Steps
pub mod Limits
