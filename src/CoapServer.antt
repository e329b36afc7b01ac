-- ===== src/CoapServer.antt =====
-- restserver/rs_server_coap.cpp: the class RiotsensorsCoAPProvider. libcoap is a library: a request is
-- the list of the values of its URI query options in order, a response what is set in its PDU. none is
-- an exception that leaves the handler (`std::out_of_range`), or undefined behaviour. `long_max` is
-- LONG_MAX, which is beyond INT_MAX.
pub mod Query
pub mod Handlers
pub mod Options
pub mod Decimals
pub mod Queries
pub mod Answers
