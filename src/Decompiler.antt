-- ===== src/Decompiler.antt =====
-- The decompiler: how it is configured for a binary, and the symbols it hands to the view.
pub mod Compiler
pub mod Sleigh
pub mod Detect
pub mod Symbols
pub mod Decompile
