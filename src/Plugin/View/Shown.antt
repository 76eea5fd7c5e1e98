-- ===== src/Plugin/View/Shown.antt =====
-- What the plugin shows of a function.
use yagi.Common.{
  length, ℕ, ◌≡◌, ap, ◌∙◌, Bool, true, List, [], ◌∷◌, ◌++◌, some, Bytes, map, if◌then◌else◌,
}
use yagi.Base.Split.{split, Cuts, split-Cuts}
use yagi.Scope.Proxy.{ScopeInternal}
use yagi.Scope.Resolve.{Archi}
use yagi.Decompiler.Decompile.{DecompilerResult, Ghidra, value}
use yagi.Decompiler.Decompile.Answers.{Steps}
use yagi.Decompiler.Decompile.Completes.{no_exception, Made, decompile-completes}
use yagi.Plugin.View.{
  close_widget, create_custom_viewer, create_code_viewer, set_code_viewer_is_source, display_widget,
  c_str, last_place, view, view_result, run,
}

-- Where no step of the decompiler throws, the types of functions can be set, and the database has
-- a symbol at the address of each function it finds, running the plugin in a function closes the
-- window of the function's name if there is one, and opens one of that name as a view of source
-- code. Its lines, each up to its first NUL, are those that a newline ends in the text of the
-- result, and what is left behind the last newline if that is not empty; the result is that of
-- the function after its analysis is cleared and the actions are performed.
pub run-shows :
    (proxy : ScopeInternal) (archi : Archi) (ghidra : Ghidra proxy) (find_widget : Bytes → Bool)
    (ea address : ℕ) (name : Bytes) (s : proxy.S) (steps : Steps proxy archi ghidra no_exception)
    → (ghidra.find_function ea s).0 ≡ value (some (name, address))
    → (code : DecompilerResult) × (tokens : List Bytes) × Cuts b'\n' code.c_code tokens
      × ((run proxy archi ghidra find_widget ea s).0
          ≡ value (
            true,
            (if find_widget name then close_widget name ∷ [] else [])
                ++ create_custom_viewer name
                    (map c_str tokens)
                    (last_place (length (map c_str tokens)))
                    code
                  ∷ create_code_viewer
                  ∷ set_code_viewer_is_source
                  ∷ display_widget
                  ∷ [],
          ))
      × Made proxy archi ghidra steps name address
          (ghidra.clear_noncore (ghidra.clear (ghidra.find_function ea s).1))
          code
          (run proxy archi ghidra find_widget ea s).1
unfolding run view_result view
run-shows proxy archi ghidra find_widget ea address name s steps found =
    let (code, e, made) = decompile-completes proxy archi ghidra steps ea address name s found in
    let (f, named, at, found_at, rest) = made in
    (
      code,
      split code.c_code b'\n',
      split-Cuts code.c_code b'\n',
      ap (view_result find_widget) e ∙ ap (λ n. value (true, view find_widget n code)) named,
      made,
    )
