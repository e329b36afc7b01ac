-- ===== src/Rest.antt =====
-- restserver/rs_rest.cpp: the JSON documents of the REST server. `rapidjson::Writer` is a library:
-- a function is the list of the calls that it makes of the writer, and a document is what the writer
-- was told in order. A call that is undefined, because its argument is NULL or an object that is no
-- longer there is read, is none, and makes the document none.
pub mod Writer
pub mod Print
pub mod List
pub mod Json
pub mod Trees
pub mod Entries
pub mod Listed
pub mod Documents
pub mod Handler
pub mod Answers
pub mod Registered
pub mod Safety
