-- ===== src/Symbol/Saved.antt =====
-- `saveName`, `findName`, `saveType`, `findType` and `clearType` of `IdaFunctionSymbolInfo`.
pub mod Laws
pub mod Apart
pub mod Clear
pub mod Bars
pub mod Tables
use yagi.Common.{
  ℕ, ◌+◌, ◌≡◌, Bool, true, false, ◌||◌, List, [], ◌∷◌, ◌++◌, Option, none, some, Bytes, codes,
  find_byte, take, drop,
}
use yagi.Base.Hex.{to_hex}
use yagi.Base.Stoull.{Stoull, stoull}
use yagi.Symbol.Location.{MemoryLocation}
use yagi.Symbol.Netnode.{NetnodeApi}
use yagi.Symbol.Nodes.{Tag, yagireg, yagitype, node_name}

-- What a search does: it throws what `std::stoull` throws, or returns its result. The second
-- component of `returns` is what it stores through the reference `offset`, if it does.
pub data Outcome (A : Type 0) : Type 0 where
  throws : Stoull → Outcome A
  returns : Option A → Option ℕ → Outcome A

-- The text of a value: what it names, and the offset.
pub encode : Bytes → ℕ → Bytes
encode value address = value ++ (b'|' ∷ to_hex address)

pub decode_offset : Bytes → Stoull → Outcome Bytes
decode_offset value (Stoull.value offset) = returns (some value) (some offset)
decode_offset value Stoull.invalid_argument = throws Stoull.invalid_argument
decode_offset value Stoull.out_of_range = throws Stoull.out_of_range

decode_at : Bytes → Option ℕ → Outcome Bytes
unfolding decode_offset
decode_at res none = returns none none
decode_at res (some pb) = decode_offset (take pb res) (stoull (drop (pb + 1) res))

-- What both searches do with a node's value.
pub decode : Bytes → Outcome Bytes
unfolding decode_at
decode [] = returns none none
decode (c ∷ res) = decode_at (c ∷ res) (find_byte b'|' (c ∷ res))

module _ (api : NetnodeApi) where
  open api use {Db, open_node, valstr, set, delvalue}

  -- The body of the inner `saveName` and of the inner `saveType`.
  pub save_at : Tag → ℕ → ℕ → Bytes → ℕ → Bytes → Db → Db
  save_at tag func address space pc value db =
      let n = node_name tag func space pc in set n (encode value address) (open_node n db)

  pub save_each : Tag → ℕ → ℕ → Bytes → List ℕ → Bytes → Db → Db
  save_each tag func address space [] value db = db
  save_each tag func address space (pc ∷ pcs) value db =
      save_each tag func address space pcs value (save_at tag func address space pc value db)

  pub save_name : ℕ → MemoryLocation → Bytes → Db → Db
  save_name func loc value db = save_each yagireg func loc.offset loc.space_name loc.pc value db

  -- `saveType` is given the type's name, `newType.getName()`.
  pub save_type : ℕ → MemoryLocation → Bytes → Db → Db
  save_type func loc type_name db =
      save_each yagitype func loc.offset loc.space_name loc.pc type_name db

  unfoldable pub find_name : ℕ → ℕ → Bytes → Db → Outcome Bytes × Db
  find_name func pc space db =
      let n = node_name yagireg func space pc in
      let db' = open_node n db in (decode (valstr n db'), db')

  -- `parse_decl` is IDA's, on the declaration `typeName + ";"`.
  pub build_type : {T : Type 0} → (Bytes → Option T) → Outcome Bytes → Outcome T
  build_type parse_decl (throws e) = throws e
  build_type parse_decl (returns none offset) = returns none offset
  build_type parse_decl (returns (some type_name) offset) =
      returns (parse_decl (type_name ++ codes ";")) offset

  pub find_type : {T : Type 0} → (Bytes → Option T) → ℕ → ℕ → Bytes → Db → Outcome T × Db
  unfolding build_type
  find_type parse_decl func pc from db =
      let n = node_name yagitype func from pc in
      let db' = open_node n db in (build_type parse_decl (decode (valstr n db')), db')

  pub clear_type_at : ℕ → Bytes → ℕ → Db → Bool × Db
  clear_type_at func space pc db =
      let n = node_name yagitype func space pc in delvalue n (open_node n db)

  -- `result |= clearType(…)` calls it for every definition address.
  pub clear_each : ℕ → Bytes → List ℕ → Bool → Db → Bool × Db
  clear_each func space [] result db = (result, db)
  clear_each func space (pc ∷ pcs) result db =
      let (done, db') = clear_type_at func space pc db in
      clear_each func space pcs (result || done) db'

  pub clear_type : ℕ → MemoryLocation → Db → Bool × Db
  clear_type func loc db = clear_each func loc.space_name loc.pc false db
