-- ===== src/Action.antt =====
-- The actions that bring IDA's names into a decompilation, yagi/src/yagiaction.cc.
pub mod Rename
pub mod SyncStack
pub mod LoadScope
pub mod MipsT9
pub mod Clone
