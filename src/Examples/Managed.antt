-- ===== src/Examples/Managed.antt =====
-- The types of yagi/src/typemanager.cc at concrete inputs: a list that points to itself, and a
-- pointer to a function on lists.
use yagi.Common.{true, false, List, ◌==◌, ◌≡◌, ◌≢◌, refl, arith, [], ◌∷◌, codes}
use yagi.Types.Convention.{choose_cc, asked_cc, get_calling_conv}
use yagi.Types.Tinfo.{
  param_name, is_unicode, to_struct, build_named, get_fields, func_calling_conv, param_names_from,
  get_func_param_name, get_func_prototype, build_at, to_func, to_ptr,
}
use yagi.Types.Tinfo.ParamNames.{param_names_from_distinct}
use yagi.Types.Manager.{Shape, shape_of, parse_func, find_by_type_info, parse_type_info}
use yagi.Types.Manager.Monad.{Result, ok, for_each}
use yagi.Types.Manager.Ends.{is_finished}
use yagi.Types.Manager.Terminates.{find_by_type_info-ends}
use yagi.Types.Manager.Named.{find_by_type_info-again}
use yagi.Types.Manager.Update.{set_pieces, update}
use yagi.Types.Manager.Update.Ends.{Updates, update-Updates}
use yagi.Examples.Library.{ListType, list_library, list_ranks}
use yagi.Examples.Factory.{named_types, NamedType, named_pieces, small_arch}

param_names_from_distinct_example : codes "a1" ≢ codes "a3"
unfolding param_names_from param_name
param_names_from_distinct_example =
    param_names_from_distinct 0 2
      (([], ListType.int) ∷ (codes "head", ListType.list_ptr) ∷ ([], ListType.int) ∷ [])
      (omega arith) (omega arith) (omega arith) refl refl (omega arith)

find_by_type_info-ends_example :
    is_finished
      (find_by_type_info list_library named_types small_arch
        (parse_type_info list_library named_types small_arch 8)
        ListType.visit_ptr
        []).0
    ≡ true
find_by_type_info-ends_example =
    find_by_type_info-ends list_library named_types small_arch list_ranks 8 ListType.visit_ptr []
      (omega arith)

-- The pointer to a function on lists.
abbrev find_visit : Result NamedType × List NamedType
find_visit =
    find_by_type_info list_library named_types small_arch
      (parse_type_info list_library named_types small_arch 8) ListType.visit_ptr []

no_array :
    (u : ListType)
    → list_library.print u ≡ list_library.print ListType.visit_ptr
    → shape_of list_library u ≡ Shape.array
    → (list_library.get_size u == 0) ≡ false
no_array u named is = refl

find_by_type_info-again_example :
    (d : NamedType) × (find_by_type_info list_library named_types small_arch
        (parse_type_info list_library named_types small_arch 8)
        ListType.visit_ptr
        find_visit.1
      ≡ (ok d, find_visit.1))
unfolding parse_func find_by_type_info parse_type_info for_each choose_cc asked_cc get_calling_conv
    func_calling_conv shape_of build_named to_func to_ptr to_struct is_unicode get_func_prototype
    get_fields
find_by_type_info-again_example =
    find_by_type_info-again list_library named_types small_arch list_ranks 7 (omega arith)
      ListType.visit_ptr [] find_visit.1 (record { name = []; structure = false; params = 0 })
      (parse_type_info list_library named_types small_arch 8) no_array refl

update-Updates_example :
    Updates list_library named_types small_arch named_pieces 8 4096 []
      (update list_library named_types small_arch named_pieces 8 4096 []).0
update-Updates_example =
    update-Updates list_library named_types small_arch named_pieces list_ranks 8 [] (omega arith)
      4096

-- The function at 4096 gets the names of its parameters.
names_given :
    (update list_library named_types small_arch named_pieces 8 4096 []).0
    ≡ ok (set_pieces (codes "head" ∷ codes "a2" ∷ []))
unfolding update parse_func find_by_type_info parse_type_info for_each choose_cc asked_cc
    get_calling_conv func_calling_conv shape_of build_at build_named to_func to_ptr to_struct
    is_unicode get_func_prototype get_fields get_func_param_name param_name
names_given = refl
