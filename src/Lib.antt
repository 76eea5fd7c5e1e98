-- ===== src/Lib.antt =====
-- Yagi puts Ghidra's decompiler into IDA: a plugin decompiles the function at the cursor, shows
-- the text in a view, and lets the user rename and retype what stands under the cursor. This
-- library models the parts of it that compute: what is written into the database and read back,
-- what is printed and how the view finds the word under the cursor in it, how the decompiler is
-- configured, started and run, how IDA's types become Ghidra's, and how Ghidra's scope is
-- filled.
--
-- The parts and their files, with paths from the repository's root:
--
-- - Base (yagi/src/base.cc): `to_hex` and `split`, on lists of bytes. Base/Stoull is the reader
--   `std::stoull` of the C++ library in base 16, which the database's reader calls;
--   Base/RoundTrip relates it to `to_hex`.
-- - Symbol (yagi/src/idasymbol.cc, yagi/src/symbolinfo.cc): Symbol/Info has the tests and names
--   of a symbol, Symbol/FunctionName the name of a function, Symbol/Frame the search for a
--   stack variable, Symbol/Saved the names and types that are saved. Saved items are values of
--   IDA's netnodes: Symbol/Netnode is the record of the operations the code calls, with what
--   they do to the values; Symbol/Nodes has the names of the nodes. A search returns its result
--   with the offset it stores, or the exception of `stoull`.
-- - Print (yagi/src/print.cc): Print/Emit has the methods of `IdaEmit` as the calls they make
--   on Ghidra's emitter, Print/Tokens what these write, and Plugin/Keyword/Readback the reader
--   of a line without its tags.
-- - Plugin (yagi/src/plugin.cc, yagi/src/yagi.cc): Plugin/Keyword is `_ComputeKeyword`, with a
--   result for a read outside the line, Plugin/Keyboard `_KeyboardCallback`, with the word
--   under the cursor in Plugin/Keyboard/Pointed, Plugin/DoubleClick `_DoubleClickCallback`,
--   Plugin/DeclType `_PrintDeclType`, Plugin/View `Plugin::run` and `Plugin::view`,
--   Plugin/Windows what these and `_Close` allocate and delete, Plugin/Start `yagi_init` of
--   yagi/src/yagi.cc. What IDA and its user answer is a record of functions; what the callback
--   makes IDA do is a list of effects.
-- - Decompiler (yagi/src/yagi.cc, yagi/src/ghidradecompiler.cc, yagi/include/decompiler.hh):
--   Decompiler/Detect is `compute_compiler`, whose results Decompiler/Detect/Described tells by
--   the language, Decompiler/Sleigh the names Ghidra knows a configuration by,
--   Decompiler/Symbols the map from words to locations that the callbacks look words up in,
--   Decompiler/Decompile `decompile`, with a result for an exception and one for a null pointer
--   that is used.
-- - Scope (yagi/src/scope.cc): Scope/Resolve has the lookups of `YagiScope`. Ghidra's
--   `ScopeInternal` behind it is the record Scope/Proxy of operations on a state, with what its
--   documentation says of added functions; the type manager may throw. Scope/Calls has the
--   operations that are handed on to it or not implemented.
-- - Action (yagi/src/yagiaction.cc): Action/Rename is `ActionRenameVar`, which gives the saved
--   names to the variables, and Action/SyncStack `ActionSyncStackVar`, which gives them the
--   names of the frame, and Action/LoadScope `ActionLoadLocalScope`, which gives them the saved
--   types; Action/MipsT9 is the action on functions of a MIPS, and Action/Clone has the
--   constructors and `clone` of yagi/include/yagiaction.hh. The local scope's search is an
--   argument, and so is what `offset` holds where the search does not set it; what is done to
--   the scope is a list.
-- - Session: the keys of Plugin/Keyboard and the actions of Action as events on one database,
--   in any order. Session/Store has the two tables that a session amounts to,
--   Plugin/Keyboard/Change what each key asks for; Session/Represented relates them to the
--   netnodes.
-- - Architecture (yagi/src/yagiarchitecture.cc, `build` of yagi/src/ghidradecompiler.cc): what
--   an architecture holds, how it is set up for a language, and in Architecture/Perform the
--   calls of `performActions` on Ghidra's groups of actions, where what a group returns is an
--   argument. Architecture/CoreTypes is the table of Ghidra's core types, Architecture/Guard
--   the rule of yagi/src/yagirule.cc on the scope's `findContainer`.
-- - Syscall (yagi/src/yagiaction.cc): the eBPF helpers. Syscall/Table has the calls of
--   `addSyscall` in the order of the source, Syscall/Register what each of them does to
--   Ghidra's scope, as a log.
-- - Types (yagi/src/typemanager.cc, yagi/src/idatype.cc): Types/Tinfo has the classes over
--   IDA's `tinfo_t`, which is a record of functions, Types/Convention the calling convention
--   that `parseFunc` chooses, Types/Manager `findById`, `findByTypeInfo` and `parseTypeInfo` in
--   a monad with the state of Ghidra's `TypeFactory`, the record Types/Factory of operations
--   and laws, and Types/Manager/Update `update`. Types/Manager/Fuel measures the depth of the
--   calls.
-- - Exception (yagi/src/exception.cc): the exceptions and their messages.
-- - Logger (yagi/include/logger.hh, yagi/src/idalogger.cc): the lines of the log; what IDA
--   prints for a format is an argument. Loader (yagi/src/idaloader.cc): the image that Ghidra
--   reads its bytes from.
-- - Common has what the parts share, Examples runs and theorems at concrete inputs.
--
-- Loops are structural: over the bytes of a line or text, the list of addresses, members,
-- varnodes or calls. Three recursions have fuel. That of the hexadecimal digits is given the
-- number itself and divides by 16 in each step; that of the decimal digits is given 10, the
-- most a 32-bit number has. That of `parseTypeInfo` bounds the depth of its calls: a structure
-- is known to the factory before its members are read, so each structure is entered once, and
-- between two structures the rank of the types falls. Addresses are numbers with their wrap at
-- 2 ^ 64 written out where the code adds or subtracts; 32-bit comparisons take the rest by 2 ^
-- 32.
--
-- Not modelled: the set up of Ghidra's library (yagi/src/ghidra.cc), and the calls of the
-- logger that the parts make, save where the specifications are loaded. Ghidra and the IDA SDK
-- are not part of the repository: what the code asks of them is an argument.
pub mod Action
pub mod Architecture
pub mod Base
pub mod Common
pub mod Decompiler
pub mod Examples
pub mod Exception
pub mod Loader
pub mod Logger
pub mod Plugin
pub mod Print
pub mod Scope
pub mod Session
pub mod Symbol
pub mod Syscall
pub mod Types
