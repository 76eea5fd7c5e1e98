-- ===== src/Symbol/Saved/Laws.antt =====
-- What a search finds after names and types were saved.
use yagi.Common.{
  ℕ, ◌^◌, ◌<◌, ◌≡◌, refl, ap, ◌∙◌, Bool, true, false, ◌&&◌, ◌||◌, List, [], ◌∷◌, ◌++◌, Option, some,
  arith, Bytes, codes, Lacks, find_byte, find_byte-append, ◌==◌, bytes_eq, take-append_length,
  drop-append_past, ap₂, if◌then◌else◌, bytes_eq_refl, ==_refl,
}
use yagi.Base.Stoull.{stoull}
use yagi.Base.RoundTrip.{stoull-to_hex}
use yagi.Symbol.Netnode.{NetnodeApi}
use yagi.Symbol.Nodes.{Tag, yagireg, yagitype, node_name, same_tag, same_node, bytes_eq-node_name}
use yagi.Symbol.Location.{MemoryLocation}
use yagi.Symbol.Saved.{
  returns, encode, decode_offset, decode_at, decode, save_at, save_each, save_name, save_type,
  find_name, find_type, build_type,
}

decode-decode_at :
    (v s : Bytes)
    → decode (v ++ b'|' ∷ s) ≡ decode_at (v ++ b'|' ∷ s) (find_byte b'|' (v ++ b'|' ∷ s))
unfolding decode
decode-decode_at [] s = refl
decode-decode_at (c ∷ v) s = refl

-- The value is cut at its first bar, whatever stands behind it.
pub decode_cut : (v s : Bytes) → Lacks b'|' v → decode (v ++ b'|' ∷ s) ≡ decode_offset v (stoull s)
unfolding decode_at
decode_cut v s h =
    decode-decode_at v s
    ∙ rw (find_byte-append b'|' v s h)
        (ap₂ decode_offset (take-append_length v _) (ap stoull (drop-append_past v s b'|')))

-- An encoded value is decoded to itself.
pub decode-encode :
    (v : Bytes) (address : ℕ)
    → Lacks b'|' v
    → address < 2 ^ 64
    → decode (encode v address) ≡ returns (some v) (some address)
unfolding encode decode_offset
decode-encode v address h fits =
    decode_cut v _ h ∙ ap (decode_offset v) (stoull-to_hex address fits)

-- Is the address one of the definition addresses?
abbrev pub elem : ℕ → List ℕ → Bool
elem a [] = false
elem a (b ∷ bs) = b == a || elem a bs

module _ (api : NetnodeApi) where
  open api use {
    Db, open_node, valstr, set, delvalue, valstr-open_node, valstr-set, valstr-delvalue,
    delvalue-done,
  }

  valstr-save_at :
      (t t' : Tag) (f f' address : ℕ) (s s' : Bytes) (pc pc' : ℕ) (v : Bytes) (db : Db)
      → valstr (node_name t' f' s' pc') (save_at api t f address s pc v db) ≡ (
          if same_node t f s pc t' f' s' pc'
          then encode v address
          else valstr (node_name t' f' s' pc') db)
  unfolding save_at
  valstr-save_at t t' f f' address s s' pc pc' v db =
      rw (valstr-set, valstr-open_node, bytes_eq-node_name)

  -- After a save every node holds the new value if it is one of those saved, and else what it held.
  pub valstr-save_each :
      (t t' : Tag) (f f' address : ℕ) (s s' : Bytes) (pcs : List ℕ) (pc' : ℕ) (v : Bytes) (db : Db)
      → valstr (node_name t' f' s' pc') (save_each api t f address s pcs v db) ≡ (
          if same_tag t t' && (f == f' && (bytes_eq s s' && elem pc' pcs))
          then encode v address
          else valstr (node_name t' f' s' pc') db)
  unfolding save_each
  valstr-save_each t t' f f' address s s' [] pc' v db = ground arith
  valstr-save_each t t' f f' address s s' (pc ∷ pcs) pc' v db =
      let step = valstr-save_at t t' f f' address s s' pc pc' v db in
      let rest =
        valstr-save_each t t' f f' address s s' pcs pc' v (save_at api t f address s pc v db) in
      ground (arith, step, rest)

  -- A name without a bar, saved for a location with a 64-bit offset, is found at each of the
  -- location's definition addresses, together with that offset.
  pub find_name-save_name :
      (func : ℕ) (loc : MemoryLocation) (name : Bytes) (pc : ℕ) (db : Db)
      → Lacks b'|' name
      → loc.offset < 2 ^ 64
      → elem pc loc.pc ≡ true
      → (find_name api func pc loc.space_name (save_name api func loc name db)).0
        ≡ returns (some name) (some loc.offset)
  unfolding find_name save_name
  find_name-save_name func loc name pc db bar fits defined =
      let held =
        valstr-save_each yagireg yagireg func func loc.offset loc.space_name loc.space_name loc.pc
          pc name db in
      rw (valstr-open_node, held, bytes_eq_refl loc.space_name, defined, ==_refl func)
        (decode-encode name loc.offset bar fits)

  -- Saving a name for a location leaves the result of each search for a name with another
  -- function, space or program counter.
  pub find_name-save_name_other :
      (func func' : ℕ) (loc : MemoryLocation) (name space : Bytes) (pc : ℕ) (db : Db)
      → (func == func' && (bytes_eq loc.space_name space && elem pc loc.pc)) ≡ false
      → (find_name api func' pc space (save_name api func loc name db)).0
        ≡ (find_name api func' pc space db).0
  unfolding find_name save_name
  find_name-save_name_other func func' loc name space pc db other =
      let held =
        valstr-save_each yagireg yagireg func func' loc.offset loc.space_name space loc.pc pc name
          db in
      rw (valstr-open_node, held, other, valstr-open_node)

  -- A search makes a node at most, which is no value.
  pub find_name-find_name :
      (func : ℕ) (space : Bytes) (pc pc' : ℕ) (db : Db)
      → (find_name api func pc' space (find_name api func pc space db).1).0
        ≡ (find_name api func pc' space db).0
  unfolding find_name
  find_name-find_name func space pc pc' db =
      rw (valstr-open_node, valstr-open_node, valstr-open_node) refl

  -- Where a type name without a bar is saved for a location with a 64-bit offset, the search at
  -- each of its definition addresses gives what IDA's parser makes of the name and a semicolon,
  -- together with the offset.
  pub find_type-save_type :
      {T : Type 0} (parse_decl : Bytes → Option T) (func : ℕ) (loc : MemoryLocation)
      (type_name : Bytes) (pc : ℕ) (db : Db)
      → Lacks b'|' type_name
      → loc.offset < 2 ^ 64
      → elem pc loc.pc ≡ true
      → (find_type api parse_decl func pc loc.space_name (save_type api func loc type_name db)).0
        ≡ returns (parse_decl (type_name ++ codes ";")) (some loc.offset)
  unfolding find_type save_type
  find_type-save_type parse_decl func loc type_name pc db bar fits defined =
      let held =
        valstr-save_each yagitype yagitype func func loc.offset loc.space_name loc.space_name loc.pc
          pc type_name db in
      rw (valstr-open_node, held, bytes_eq_refl loc.space_name, defined, ==_refl func)
        (ap (build_type api parse_decl) (decode-encode type_name loc.offset bar fits))

  -- Saving a name leaves the result of each search for a type, and saving a type that of each
  -- search for a name.
  pub find_type-save_name :
      {T : Type 0} (parse_decl : Bytes → Option T) (func func' : ℕ) (loc : MemoryLocation)
      (name space : Bytes) (pc : ℕ) (db : Db)
      → ((find_type api parse_decl func' pc space (save_name api func loc name db)).0
          ≡ (find_type api parse_decl func' pc space db).0)
        × ((find_name api func' pc space (save_type api func loc name db)).0
            ≡ (find_name api func' pc space db).0)
  unfolding find_type save_type find_name save_name
  find_type-save_name parse_decl func func' loc name space pc db =
      let names =
        valstr-save_each yagireg yagitype func func' loc.offset loc.space_name space loc.pc pc name
          db in
      let types =
        valstr-save_each yagitype yagireg func func' loc.offset loc.space_name space loc.pc pc name
          db in
      (
        rw (valstr-open_node, names, valstr-open_node),
        rw (valstr-open_node, types, valstr-open_node),
      )
