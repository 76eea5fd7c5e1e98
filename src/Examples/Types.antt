-- ===== src/Examples/Types.antt =====
-- The calling conventions of yagi/src/typemanager.cc at concrete inputs.
use yagi.Common.{◌≡◌, refl, [], ◌∷◌, some, codes}
use yagi.Types.Convention.{ellipsis, get_calling_conv, asked_cc, choose_cc, parse_func_cc}

-- A variadic function where Ghidra has a model of the default convention only.
default_chosen :
    parse_func_cc (codes "__asm" ∷ codes "__stdcall" ∷ []) (codes "__stdcall") (some ellipsis)
    ≡ some (codes "__stdcall")
unfolding parse_func_cc choose_cc asked_cc get_calling_conv
default_chosen = refl
