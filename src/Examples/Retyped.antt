-- ===== src/Examples/Retyped.antt =====
-- `ActionLoadLocalScope` of yagi/src/yagiaction.cc at concrete inputs, with the type manager.
use yagi.Common.{
  ℕ, ◌≡◌, refl, Bool, ◌&&◌, [], ◌∷◌, List, Option, none, some, arith, Bytes, codes, bytes_eq,
  bytes_eq_refl, ◌==◌, ==_refl, if◌then◌else◌,
}
use yagi.Symbol.Location.{MemoryLocation}
use yagi.Symbol.Saved.{save_type}
use yagi.Types.Tinfo.{is_unicode, to_struct, to_ptr, build_named, get_fields}
use yagi.Types.Manager.{shape_of, find_by_type_info, parse_type_info}
use yagi.Types.Manager.Monad.{M, for_each}
use yagi.Action.Rename.{searched}
use yagi.Action.LoadScope.{LocalScope, load_vars}
use yagi.Action.LoadScope.Laws.{with_symbol, load_vars-save_type}
use yagi.Examples.Database.{memory, empty_db}
use yagi.Examples.Library.{ListType, list_library}
use yagi.Examples.Factory.{named_types, NamedType, small_arch}

-- A constant that is an address of the stack, used by two operations.
abbrev frame_x : MemoryLocation
frame_x = record { space_name = codes "const"; offset = 16; addr_size = 8; pc = 4100 ∷ 4104 ∷ [] }

abbrev pub parse_list : Bytes → Option ListType
parse_list text = if bytes_eq text (codes "list *;") then some ListType.list_ptr else none

abbrev pub find_list : ListType → M (List NamedType) NamedType
find_list =
    find_by_type_info list_library named_types small_arch
      (parse_type_info list_library named_types small_arch 8)

-- A scope that keeps the type at each address.
abbrev pub types_at : LocalScope NamedType
types_at = record {
  S = Bytes → ℕ → Option NamedType;
  Symbol = NamedType;
  find_addr = λ space offset usepoint s. s space offset;
  add_symbol = λ d space offset usepoint s. (
    d,
    λ space' offset'.
        if bytes_eq space space' && offset == offset' then some d else s space' offset',
  );
  lock_type = λ sym s. s;
  find_addr-add_symbol = λ d space offset usepoint s. rw (bytes_eq_refl space, ==_refl offset) refl;
  find_addr-lock_type = λ sym space offset usepoint s. refl;
}

abbrev pub nothing_typed : Bytes → ℕ → Option NamedType
nothing_typed space offset = none

abbrev pointer : NamedType
pointer = record { name = []; structure = Bool.false; params = 0 }

load_vars-save_type_example :
    let r =
      load_vars memory parse_list find_list types_at 0 4096
        (codes "const")
        (4104 ∷ 4100 ∷ [])
        (save_type memory 4096 frame_x (codes "list *") empty_db)
        []
        nothing_typed in
    (r.0 ≡ none)
    × (r.2 ≡ (find_list ListType.list_ptr []).1)
    × (r.3 ≡ with_symbol memory parse_list find_list types_at 0 pointer 16 nothing_typed)
unfolding searched find_by_type_info parse_type_info for_each shape_of build_named to_ptr to_struct
    is_unicode get_fields
load_vars-save_type_example =
    load_vars-save_type memory parse_list find_list types_at 0 4096 frame_x (codes "list *")
      ListType.list_ptr pointer 4104 (4100 ∷ []) empty_db [] (find_list ListType.list_ptr []).1
      nothing_typed (ground arith) (omega arith) refl refl refl (refl, (refl, tt)) refl
