-- ===== src/Plugin.antt =====
-- yagi/src/plugin.cc: what the view of the decompiled text does with the cursor.
pub mod Keyword
pub mod DoubleClick
pub mod DeclType
pub mod Keyboard
pub mod View
pub mod Windows
pub mod Start
