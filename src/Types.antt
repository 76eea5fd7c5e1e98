-- ===== src/Types.antt =====
-- How the types of IDA become types of Ghidra, yagi/src/typemanager.cc and yagi/src/idatype.cc.
pub mod Convention
pub mod Tinfo
pub mod Factory
pub mod Manager
