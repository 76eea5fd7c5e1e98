-- ===== src/Examples/Saved.antt =====
-- The saved names and types of yagi/src/idasymbol.cc on a concrete store.
use yagi.Common.{ℕ, ◌≡◌, ◌≢◌, refl, [], ◌∷◌, ◌++◌, Option, some, arith, Bytes, codes}
use yagi.Symbol.Nodes.{yagireg, node_name_injective}
use yagi.Symbol.Location.{MemoryLocation}
use yagi.Symbol.Saved.{returns, save_name, save_type, find_name, find_type}
use yagi.Symbol.Saved.Laws.{find_name-save_name, find_type-save_type}
use yagi.Symbol.Saved.Bars.{find_name-save_name_bar}
use yagi.Examples.Database.{memory, empty_db, register_at}

abbrev rax : MemoryLocation
rax = register_at (4100 ∷ 4104 ∷ [])

abbrev main : ℕ
main = 4096

abbrev entry : ℕ
entry = 4100

abbrev accept : Bytes → Option Bytes
accept text = some text

abbrev typed : Bytes → Bytes
typed = save_type memory 4096 rax (codes "int") empty_db

node_name_injective_example :
    (yagireg ≡ yagireg) × (main ≡ main) × (codes "stack" ≡ codes "stack") × (entry ≡ entry)
node_name_injective_example =
    node_name_injective yagireg yagireg main main (codes "stack") (codes "stack") entry entry refl

find_name-save_name_example :
    (find_name memory 4096 4104
      (codes "register")
      (save_name memory 4096 rax (codes "count") empty_db)).0
    ≡ returns (some (codes "count")) (some 16)
find_name-save_name_example =
    find_name-save_name memory 4096 rax (codes "count") 4104 empty_db (ground arith) (omega arith)
      refl

find_type-save_type_example :
    (find_type memory accept 4096 4100 (codes "register") typed).0
    ≡ returns (some (codes "int;")) (some 16)
find_type-save_type_example =
    find_type-save_type memory accept 4096 rax (codes "int") 4100 empty_db (ground arith)
      (omega arith) refl

find_name-save_name_bar_example :
    (find_name memory 4096 4100
      (codes "register")
      (save_name memory 4096 rax (codes "a" ++ b'|' ∷ codes "b") empty_db)).0
    ≢ returns (some (codes "a" ++ b'|' ∷ codes "b")) (some 16)
find_name-save_name_bar_example =
    find_name-save_name_bar memory 4096 rax (codes "a") (codes "b") 4100 empty_db (some 16)
      (ground arith) refl
