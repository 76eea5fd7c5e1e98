-- ===== src/Symbol/Saved/Bars.antt =====
-- What a search finds after a text that holds a bar was saved.
use yagi.Common.{
  ℕ, ◌≡◌, ◌≢◌, ap, true, ◌∷◌, ◌++◌, some, arith, Bytes, Lacks, length, append_assoc, bytes_eq_refl,
  ==_refl, Option, length-append,
}
use yagi.Base.Stoull.{Stoull}
use yagi.Symbol.Netnode.{NetnodeApi}
use yagi.Symbol.Nodes.{yagireg}
use yagi.Symbol.Location.{MemoryLocation}
use yagi.Symbol.Saved.{returns, encode, decode_offset, save_name, find_name}
use yagi.Symbol.Saved.Laws.{elem, decode_cut, valstr-save_each}

shorter : (a b : Bytes) → a ≢ a ++ b'|' ∷ b
shorter a b e = omega (arith, ap length e, length-append {0} a (b'|' ∷ b))

decode_offset-ne :
    (a b : Bytes) (r : Stoull) (o : Option ℕ) → decode_offset a r ≢ returns (some (a ++ b'|' ∷ b)) o
unfolding decode_offset
decode_offset-ne a b (Stoull.value n) o e = shorter a b (cc)
decode_offset-ne a b Stoull.invalid_argument o e = cc
decode_offset-ne a b Stoull.out_of_range o e = cc

module _ (api : NetnodeApi) where
  open api use {Db, valstr-open_node}

  -- A name that holds a bar is not found at any definition address it was saved for: the search
  -- gives another result or throws.
  pub find_name-save_name_bar :
      (func : ℕ) (loc : MemoryLocation) (a b : Bytes) (pc : ℕ) (db : Db) (o : Option ℕ)
      → Lacks b'|' a
      → elem pc loc.pc ≡ true
      → (find_name api func pc loc.space_name (save_name api func loc (a ++ b'|' ∷ b) db)).0
        ≢ returns (some (a ++ b'|' ∷ b)) o
  unfolding find_name save_name encode
  find_name-save_name_bar func loc a b pc db o bar defined =
      let held =
        valstr-save_each api yagireg yagireg func func loc.offset loc.space_name loc.space_name
          loc.pc pc (a ++ b'|' ∷ b) db in
      rw
        (
          valstr-open_node,
          held,
          bytes_eq_refl loc.space_name,
          defined,
          ==_refl func,
          append_assoc,
          decode_cut a _ bar,
        )
        (decode_offset-ne a b _ o)
