-- ===== src/Syscall.antt =====
-- The eBPF helper functions the plugin declares: `ActionAddeBPFSyscall`, yagi/src/yagiaction.cc.
pub mod Table
pub mod Calls
pub mod Register
pub mod Numbers
pub mod Prototypes
