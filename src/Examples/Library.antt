-- ===== src/Examples/Library.antt =====
-- A concrete IDA type library.
use yagi.Common.{
  ℕ, ◌≤◌, ◌<◌, All, ◌≡◌, refl, sym, Bool, true, false, List, [], ◌∷◌, Option, none, some, Bytes,
  codes, ◌==◌, bytes_eq, bytes_eq→≡, arith, if◌then◌else◌,
}
use yagi.Types.Convention.{stdcall}
use yagi.Types.Tinfo.{Tinfo, UdtMember, FuncDetails, get_func_prototype}
use yagi.Types.Manager.Ends.{listed}
use yagi.Types.Manager.Fuel.{Ranked}

-- A list whose elements point to the next one, and a pointer to a function on lists.
pub data ListType : Type 0 where
  int list list_ptr visit visit_ptr : ListType

abbrev pub print_type : ListType → Bytes
print_type int = codes "int"
print_type list = codes "list"
print_type list_ptr = codes "list *"
print_type visit = codes "int (list *, int)"
print_type visit_ptr = codes "int (*)(list *, int)"

abbrev is_list : ListType → Bool
is_list list = true
is_list int = false
is_list list_ptr = false
is_list visit = false
is_list visit_ptr = false

abbrev is_pointer : ListType → Bool
is_pointer int = false
is_pointer list = false
is_pointer list_ptr = true
is_pointer visit = false
is_pointer visit_ptr = true

abbrev is_visit : ListType → Bool
is_visit int = false
is_visit list = false
is_visit list_ptr = false
is_visit visit = true
is_visit visit_ptr = false

abbrev is_integer : ListType → Bool
is_integer int = true
is_integer list = false
is_integer list_ptr = false
is_integer visit = false
is_integer visit_ptr = false

abbrev pointed_type : ListType → ListType
pointed_type int = int
pointed_type list = list
pointed_type list_ptr = list
pointed_type visit = visit
pointed_type visit_ptr = visit

abbrev list_members : List (UdtMember ListType)
list_members =
    record { offset = 0; name = codes "value"; type = int }
    ∷ record { offset = 64; name = codes "next"; type = list_ptr }
    ∷ []

abbrev pub visit_details : ListType → Option (FuncDetails ListType)
visit_details int = none
visit_details list = none
visit_details list_ptr = none
visit_details visit =
    some record { rettype = int; args = (codes "head", list_ptr) ∷ ([], int) ∷ []; cc = stdcall }
visit_details visit_ptr = none

abbrev named_type : Bytes → Option ListType
named_type n = if bytes_eq n (codes "list") then some list else none

-- The function pointer is at address 4096.
abbrev type_at : ℕ → Option ListType
type_at ea = if ea == 4096 then some visit_ptr else none

abbrev pub list_library : Tinfo
list_library = record {
  T = ListType;
  print = print_type;
  get_size = λ t. 8;
  is_ptr = is_pointer;
  is_bool = λ t. false;
  is_char = λ t. false;
  is_int = is_integer;
  is_float = λ t. false;
  is_struct = is_list;
  is_void = λ t. false;
  is_func = is_visit;
  is_array = λ t. false;
  is_vararg_cc = λ t. false;
  get_pointed_object = pointed_type;
  get_array_element = λ t. t;
  get_udt_details = λ t. list_members;
  get_func_details = visit_details;
  get_named_type = named_type;
  get_tinfo = type_at;
  guess_tinfo = λ ea. none;
}

abbrev rank_of : Bytes → ℕ
rank_of n =
    if bytes_eq n (codes "list *")
    then 1
    else if bytes_eq n (codes "int (list *, int)")
    then 2
    else if bytes_eq n (codes "int (*)(list *, int)")
    then 3
    else 0

pub rank_of-bound : (t : ListType) → rank_of (print_type t) ≤ 3
rank_of-bound int = omega arith
rank_of-bound list = omega arith
rank_of-bound list_ptr = omega arith
rank_of-bound visit = omega arith
rank_of-bound visit_ptr = omega arith

pub list_named :
    (n : Bytes) (t : ListType) (b : Bool)
    → bytes_eq n (codes "list") ≡ b
    → (if b then some list else none) ≡ some t
    → print_type t ≡ n
list_named n t true is e =
    let same : list ≡ t = cc in rw (sym same) (sym (bytes_eq→≡ n (codes "list") is))
list_named n t false is e = cc

pub pointed_rank :
    (t : ListType)
    → is_pointer t ≡ true
    → rank_of (print_type (pointed_type t)) < rank_of (print_type t)
pointed_rank int e = cc
pointed_rank list e = cc
pointed_rank list_ptr e = omega arith
pointed_rank visit e = cc
pointed_rank visit_ptr e = omega arith

pub struct_listed :
    (t : ListType) → is_list t ≡ true → listed (print_type t) (codes "list" ∷ []) ≡ true
struct_listed int e = cc
struct_listed list e = refl
struct_listed list_ptr e = cc
struct_listed visit e = cc
struct_listed visit_ptr e = cc

pub prototype_rank :
    (t : ListType)
    → is_visit t ≡ true
    → All (λ u. rank_of (print_type u) < rank_of (print_type t)) (get_func_prototype list_library t)
unfolding get_func_prototype
prototype_rank int e = cc
prototype_rank list e = cc
prototype_rank list_ptr e = cc
prototype_rank visit e = (omega arith, (omega arith, (omega arith, tt)))
prototype_rank visit_ptr e = cc

pub no_array : (t : ListType) → false ≡ true → rank_of (print_type t) < rank_of (print_type t)
no_array t e = cc

abbrev pub list_ranks : Ranked list_library
list_ranks = record {
  structs = codes "list" ∷ [];
  rank = rank_of;
  bound = 3;
  rank-bound = rank_of-bound;
  print-named = λ n t e. list_named n t (bytes_eq n (codes "list")) refl e;
  struct-listed = struct_listed;
  rank-pointed = pointed_rank;
  rank-element = λ t e. no_array t e;
  rank-prototype = prototype_rank;
}
