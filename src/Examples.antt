-- ===== src/Examples.antt =====
-- Runs of the definitions, and the theorems at concrete inputs.
pub mod Actions
pub mod Base
pub mod Database
pub mod Symbols
pub mod Saved
pub mod Text
pub mod Keys
pub mod Configuration
pub mod Scopes
pub mod Types
pub mod Library
pub mod Factory
pub mod Managed
pub mod Retyped
pub mod Sessions
pub mod Decompilations
