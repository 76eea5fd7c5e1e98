-- ===== src/Plugin/View.antt =====
-- `Plugin::run` and `Plugin::view` of yagi/src/plugin.cc: the function at the cursor is decompiled
-- and its text shown. What IDA's windows are made to do is a list.
pub mod Shown
use yagi.Common.{
  ℕ, ◌+◌, ◌-◌, ◌%◌, ◌^◌, Bool, true, false, List, [], ◌∷◌, ◌++◌, Option, none, some, Bytes, length,
  map, ◌==◌, if◌then◌else◌,
}
use yagi.Base.Split.{split}
use yagi.Scope.Proxy.{ScopeInternal}
use yagi.Scope.Resolve.{Archi}
use yagi.Decompiler.Decompile.{
  DecompilerResult, Ghidra, Try, value, throws, null_pointer, M, decompile,
}

-- A viewer has a name, lines, the number of its last line as 32 bits, and the result it is of.
pub data WindowCall : Type 0 where
  close_widget : Bytes → WindowCall
  create_custom_viewer : Bytes → List Bytes → ℕ → DecompilerResult → WindowCall
  create_code_viewer set_code_viewer_is_source display_widget : WindowCall

-- A string up to its first null byte.
unfoldable pub c_str : Bytes → Bytes
c_str [] = []
c_str (c ∷ s) = let rest = c_str s in if c == 0 then [] else c ∷ rest

-- `(int)(sv->size() - 1)`, as 32 bits.
pub last_place : ℕ → ℕ
last_place size = (size + (2 ^ 64 - 1)) % 2 ^ 64 % 2 ^ 32

-- `find_widget` is IDA's: is there a window of the name?
pub view : (Bytes → Bool) → Bytes → DecompilerResult → List WindowCall
view find_widget name code =
    let sv = map c_str (split code.c_code b'\n') in
    (if find_widget name then close_widget name ∷ [] else [])
    ++ create_custom_viewer name sv (last_place (length sv)) code
      ∷ create_code_viewer
      ∷ set_code_viewer_is_source
      ∷ display_widget
      ∷ []

-- What `run` does with the result of the decompiler, which may be left by what leaves that.
pub view_result : (Bytes → Bool) → Try (Option DecompilerResult) → Try (Bool × List WindowCall)
view_result find_widget (value none) = value (true, [])
view_result find_widget (value (some result)) = value (true, view find_widget result.name result)
view_result find_widget (throws e) = throws e
view_result find_widget null_pointer = null_pointer

unfoldable pub run :
    (proxy : ScopeInternal) (archi : Archi)
    → Ghidra proxy
    → (Bytes → Bool)
    → ℕ
    → M proxy.S (Bool × List WindowCall)
unfolding view_result
run proxy archi ghidra find_widget func_address s =
    let (result, s') = decompile proxy archi ghidra func_address s in
    (view_result find_widget result, s')
