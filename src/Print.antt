-- ===== src/Print.antt =====
-- yagi/src/print.cc: the emitter that writes the decompiled text with the color tags of IDA.
pub mod Emit
pub mod Tokens
