-- ===== src/Syscall/Table.antt =====
-- The whole list of `ActionAddeBPFSyscall::apply`.
pub mod Low
pub mod Middle
pub mod High
use yagi.Common.{List, ◌++◌}
use yagi.Syscall.Calls.{Syscall}
use yagi.Syscall.Table.Low.{syscalls_from_00, syscalls_from_17, syscalls_from_2b}
use yagi.Syscall.Table.Middle.{syscalls_from_3c, syscalls_from_4d, syscalls_from_61}
use yagi.Syscall.Table.High.{syscalls_from_73, syscalls_from_87, syscalls_from_9a}

abbrev pub syscalls : List Syscall
syscalls =
    syscalls_from_00 ++ syscalls_from_17 ++ syscalls_from_2b ++ syscalls_from_3c ++ syscalls_from_4d
    ++ syscalls_from_61 ++ syscalls_from_73 ++ syscalls_from_87 ++ syscalls_from_9a
