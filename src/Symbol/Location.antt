-- ===== src/Symbol/Location.antt =====
-- `MemoryLocation` of yagi/include/decompiler.hh.
use yagi.Common.{ℕ, List, Bytes}

pub record MemoryLocation : Type 0 where
  pub space_name : Bytes
  pub offset : ℕ
  pub addr_size : ℕ
  pub pc : List ℕ
