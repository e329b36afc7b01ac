-- ===== src/BoardServer.antt =====
-- riotmodule/rs_coap_server.c: the handlers of the board's CoAP server. microcoap is a library: a request
-- is the list of its URI query options, a response what `coap_make_response` is given. `response` has
-- 500 bytes and `buf` 200. none is undefined behaviour: a write behind one of them or behind `name`, a
-- value whose length wraps around, or a call of NULL; in `for_ids` it is the end of the fuel.
-- A `size_t` has 32 bits, as on the boards. `print_double` is what "%f" prints.
pub mod Buffers
pub mod List
pub mod Core
pub mod Call
pub mod Loops
pub mod Appended
pub mod Printed
pub mod Listing
pub mod Calls
