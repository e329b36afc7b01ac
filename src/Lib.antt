-- ===== src/Lib.antt =====
-- riotsensors lets applications on a RIOT board register lambdas (functions of the type int,
-- double or string, with a name and a cache policy) and lets Linux programs call them over a
-- serial line. This library models the code of the protocol, of both ends of the line, and of the
-- REST and CoAP servers on top of them, and proves theorems of it.
--
-- The parts, and the files that model them:
-- * protocol/lambda_registry.c, the table of the registered lambdas that both ends keep:
--   Registry.antt has its state and one function for each of its functions, with the source's
--   names. Registry/Register and Registry/Names describe a registration, Registry/Invariant
--   well-formedness over histories of calls, Registry/Contract, Registry/Removal and
--   Registry/Lookup the lookups, Registry/Histories the ids, Registry/Limits what happens at
--   twelve characters and from the id 128 on, and Registry/Types get_lambda_type_from_string.
-- * protocol/include/rs_constants.h and the constants of the other headers: Constants.antt.
-- * protocol/rs_packets.c and rs_packets.h, the packets: Packets.antt has the structures and the
--   conversions, Packets/Bytes the integers in the memory of a host, Packets/Layout the packed
--   structures as bytes, Packets/RoundTrip what is read of what was sent.
-- * linuxconnector/rs_connector.c, the Linux end: Connector/State has the registry and the heap
--   of the rs_linux_registered_lambda, Connector/Handler the packet handler with a function for
--   each branch, Connector/Call the two calls with their wait. Connector/Preservation, Safety,
--   Results, Answers, Waits, Errors and Ignored hold the theorems.
-- * riotmodule/rs.c, the board: Board/State, Board/Calls (registration, local calls, results,
--   unregistration) and Board/Handler (handle_call_lambda and the packet handler). Board/Answers,
--   Sends, Steps and Limits hold the theorems, Steps those for any order of operations.
-- * riotmodule/rs_coap_utils.c, the parameters of a URI: CoapUtils.antt, with its theorems in
--   CoapUtils/Index and CoapUtils/Split.
-- * protocol/rs_constants.c and the end of rs_packets.c, the names of constants: Names.antt,
--   Names/Tables.
-- * restserver/rs_rest.cpp, the JSON documents of the REST server: Rest/Writer, Print and List
--   have the calls that each function makes of rapidjson's Writer, as a list of events. Rest/Json
--   has JSON values and what prints them, Rest/Trees the values that the documents are to be.
--   Rest/Documents, Entries and Listed hold the theorems.
-- * restserver/rs_server.cpp, the handlers: Rest/Handler, with theorems in Rest/Answers,
--   Registered and Safety.
-- * restserver/rs_server_http.cpp and rs_server_coap.cpp, the two servers on Linux:
--   HttpServer.antt, and CoapServer/Query (the options of a request) and Handlers, have the
--   handlers. HttpServer/Listings and Calls, and CoapServer/Options (one option), Decimals,
--   Queries and Answers hold the theorems.
-- * riotmodule/rs_coap_server.c, the CoAP server of the board: BoardServer/Buffers has the
--   options and the two buffers, List, Call and Core the handlers. Loops, Appended, Printed,
--   Listing and Calls hold the theorems.
-- * Several parts together: System/Remote has a call over the line and an unregistration,
--   System/Mirror and System/Registration a registration, System/Histories any number of them,
--   System/Web a call of the REST handlers that the board answers, System/Servers the same call as a
--   request to one of the two servers on Linux.
-- CString models the C string functions and strtol, Prelude the shared helpers, Tests runs the
-- model.
--
-- A state is a record, an operation a function from it to the new state. `none` as a result of an
-- operation is undefined behaviour of the C code: NULL or a dangling pointer is used, memory
-- behind an object is read or written, a value that is no string is freed. A NUL that `strcpy`
-- writes behind a name array is left out where the next assignments overwrite it, and CoapUtils
-- counts the bytes written behind a block. What `malloc` returns (NULL or memory with arbitrary
-- bytes) and what lies on the stack are arguments of the operations. Fixed-width integers are
-- numbers with the wrap-around written out, a signed 32-bit result is its bit pattern, and an
-- `int8_t` result is a ℤ of the model's own. Loops are structural recursion, on the number of
-- rounds that the source's counter gives or on the list, but for two that have fuel: the loop of
-- the board's server over the ids has 256 rounds, which is enough as the registry has at most 255
-- lambdas, and a number is printed with at most ten digits, as many as 32 bits have. The Linux
-- end runs two threads: a call is one sequence of steps, with the packets that the other thread
-- handles during the wait, and whether the wait times out, as arguments. The REST handlers have
-- those that are handled between a call's return and the second lookup as the argument `between`.
--
-- Doubles are the interface `Doubles` of Packets.antt: a type with its eight bytes and the two
-- conversions of ieee754_network.c, of which nothing is assumed. The functions of the application
-- are the record `Lambdas` of Board/State. Sending a packet appends it to a list.
--
-- LONG_MAX is the argument `long_max` of what calls `strtol`, a size_t of the board has 32 bits,
-- and what "%f" prints is the argument `print_double`. What pistache, libcoap, microcoap and
-- rapidjson do is not modelled: a request is the values that a handler reads of it, an answer
-- what it hands to the library.
--
-- Not modelled: log output, the serial line and its threads (libspt), opening and closing the
-- line on Linux, protocol/ieee754_network.c, the start of the three servers with their sockets,
-- routes and command lines, and the tests.
pub mod Prelude
pub mod CString
pub mod Constants
pub mod Registry
pub mod Packets
pub mod Connector
pub mod Board
pub mod System
pub mod CoapUtils
pub mod Names
pub mod Rest
pub mod HttpServer
pub mod CoapServer
pub mod BoardServer
pub mod Tests
