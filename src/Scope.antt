-- ===== src/Scope.antt =====
-- `YagiScope`, yagi/src/scope.cc: the global scope of Ghidra's decompiler, filled from IDA.
pub mod Proxy
pub mod Resolve
pub mod Calls
