-- ===== src/Types/Convention.antt =====
-- The calling convention of a function's type: `IdaFuncInfo::getCallingConv` of
-- yagi/src/idatype.cc, and the choice in `TypeManager::parseFunc` of yagi/src/typemanager.cc.
use yagi.Common.{
  Bool, false, ◌||◌, List, [], ◌∷◌, Option, none, some, Bytes, codes, bytes_eq, if◌then◌else◌,
}

-- IDA's constants `CM_CC_…` that the switch names, and all others.
pub data FuncCc : Type 0 where
  fastcall stdcall thiscall cdecl ellipsis invalid unknown other : FuncCc

-- `none` is the exception `UnknownCallingConvention`; it is also thrown where IDA has no details.
unfoldable pub get_calling_conv : Option FuncCc → Option Bytes
get_calling_conv none = none
get_calling_conv (some fastcall) = some (codes "__fastcall")
get_calling_conv (some stdcall) = some (codes "__stdcall")
get_calling_conv (some thiscall) = some (codes "__thiscall")
get_calling_conv (some cdecl) = some (codes "__cdecl")
get_calling_conv (some ellipsis) = some (codes "__cdecl")
get_calling_conv (some invalid) = none
get_calling_conv (some unknown) = none
get_calling_conv (some other) = none

-- `hasModel`: the names of Ghidra's prototype models, in the order of their map.
abbrev pub has_model : List Bytes → Bytes → Bool
has_model [] cc_name = false
has_model (m ∷ models) cc_name = bytes_eq m cc_name || has_model models cc_name

-- `(*protoModels.begin()).first`, which has no value if there is no model.
abbrev pub first_model : List Bytes → Option Bytes
first_model [] = none
first_model (m ∷ models) = some m

-- The name of IDA, or `__stdcall` if there is none.
unfoldable pub asked_cc : Option Bytes → Bytes
asked_cc none = codes "__stdcall"
asked_cc (some name) = name

unfoldable pub choose_cc : List Bytes → Bytes → Option Bytes → Option Bytes
choose_cc models default_cc conv =
    if has_model models (asked_cc conv)
    then some (asked_cc conv)
    else if has_model models default_cc
    then some default_cc
    else first_model models

-- As `parseFunc` calls them.
unfoldable pub parse_func_cc : List Bytes → Bytes → Option FuncCc → Option Bytes
parse_func_cc models default_cc cc_id = choose_cc models default_cc (get_calling_conv cc_id)
