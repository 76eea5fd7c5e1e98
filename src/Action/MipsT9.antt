-- ===== src/Action/MipsT9.antt =====
-- `ActionMIPST9Optimization::apply` of yagi/src/yagiaction.cc: a function of a MIPS begins with the
-- register t9 at its address. Ghidra's warning in the text of the function is left out.
use yagi.Common.{ℕ, zero, suc, List, [], ◌∷◌, Bytes, codes}

-- An operation at an address: one of the function's, or a copy of a constant of a size into a
-- register of a size.
pub data PcodeOp : Type 0 where
  op : ℕ → PcodeOp
  copy : ℕ → ℕ → ℕ → Bytes → ℕ → PcodeOp

-- `opInsertBegin`: the first operation of a block, of the function's list of blocks.
unfoldable pub insert_begin : PcodeOp → ℕ → List (List PcodeOp) → List (List PcodeOp)
insert_begin new i [] = []
insert_begin new zero (block ∷ blocks) = (new ∷ block) ∷ blocks
insert_begin new (suc i) (block ∷ blocks) = block ∷ insert_begin new i blocks

-- `parent` is the block of the first operation at the function's address, which Ghidra knows.
unfoldable pub apply_t9 : ℕ → ℕ → ℕ → List (List PcodeOp) → List (List PcodeOp)
unfolding insert_begin
apply_t9 addr_size func_addr parent blocks =
    insert_begin (copy func_addr addr_size func_addr (codes "t9") addr_size) parent blocks
