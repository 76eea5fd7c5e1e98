-- ===== src/Symbol.antt =====
-- yagi/src/idasymbol.cc: what the plugin keeps in the IDA database for a function, and the names
-- that it reads there.
pub mod Netnode
pub mod Nodes
pub mod Saved
pub mod Frame
pub mod Location
pub mod FunctionName
pub mod Info
