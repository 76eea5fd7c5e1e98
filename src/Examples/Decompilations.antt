-- ===== src/Examples/Decompilations.antt =====
-- The architecture and the decompilation of a function at concrete inputs.
use yagi.Common.{
  length, map, List, ℕ, ◌≡◌, refl, Bool, true, false, [], ◌∷◌, ◌++◌, Option, none, some, Bytes,
  codes, bytes_eq, ◌==◌, if◌then◌else◌, inl, inr, sym,
}
use yagi.Common.Integers.{ℤ}
use yagi.Decompiler.Compiler.{Compiler, Language, Endianess, Mode, compiler}
use yagi.Decompiler.Sleigh.{compute_sleigh_id, compute_default_cc}
use yagi.Architecture.{
  Architecture, architecture, add_ebpf_syscall, initialised, build, build_with, build_action,
  for_language,
}
use yagi.Architecture.Perform.{perform_actions}
use yagi.Architecture.Perform.Order.{performed, typing, naming, perform_actions-build}
use yagi.Architecture.Configured.{guard, probe, with_injections, inject-build}
use yagi.Architecture.Guard.{EntryNames, apply_op, patches, apply_op-patches}
use yagi.Scope.Resolve
use yagi.Scope.Proxy.{Address, ScopeInternal, SymbolInfo}
use yagi.Scope.Resolve.{Archi, inject}
use yagi.Decompiler.Decompile.{
  Try, value, throws, lowlevel_error, DecompilerResult, Ghidra, decompile,
}
use yagi.Decompiler.Decompile.Answers.{Steps, is_caught, decompile-answers}
use yagi.Decompiler.Decompile.Completes.{Completed, Made, no_exception, decompile-completes}
use yagi.Base.Split.{Cuts}
use yagi.Plugin.View.{
  last_place, run, c_str, close_widget, create_custom_viewer, create_code_viewer,
  set_code_viewer_is_source, display_widget,
}
use yagi.Plugin.View.Shown.{run-shows}
use yagi.Plugin.Start.{yagi_init}
use yagi.Plugin.Start.Starting.{Starts, yagi_init-Starts}
use yagi.Examples.Configuration.{sdk, arm_64}
use yagi.Examples.Scopes.{table, archi, main, main_info, nothing}

abbrev ebpf_64 : Compiler
ebpf_64 = compiler Language.ebpf Endianess.le Mode.m64

abbrev ebpf_arch : Architecture
ebpf_arch = build_action (
    for_language Language.ebpf
      (architecture (compute_sleigh_id ebpf_64) (compute_default_cc ebpf_64)))

-- Each group answers 1.
perform_actions-build_example :
    performed ebpf_arch (perform_actions (λ calls. ℤ.pos 1)).1 ≡ add_ebpf_syscall ∷ typing ++ naming
unfolding build build_with
perform_actions-build_example =
    perform_actions-build (λ arch. initialised) ebpf_64 ebpf_arch (λ calls. ℤ.pos 1) refl

abbrev windows_64 : Compiler
windows_64 = compiler Language.x86_windows Endianess.le Mode.m64

abbrev windows_arch : Architecture
windows_arch = build_action (
    for_language Language.x86_windows
      (architecture (compute_sleigh_id windows_64) (compute_default_cc windows_64)))

inject-build_example :
    (windows_arch.sleigh_id ≡ compute_sleigh_id windows_64)
    × (windows_arch.default_cc ≡ compute_default_cc windows_64)
    × (windows_arch.extra_pool_rules ≡ guard ∷ [])
    × (inject table (with_injections archi windows_arch) (codes "alloca_probe") nothing
        ≡ table.set_inject (codes "alloca_probe") probe nothing)
unfolding build build_with
inject-build_example =
    inject-build (λ arch. initialised) windows_64 windows_arch table archi (codes "alloca_probe")
      nothing refl

-- Where types are found and nothing throws.
abbrev calm : ScopeInternal
calm = record table { update = λ f s. (true, s) }

abbrev found_at : ℕ → Option (Bytes × ℕ)
found_at ea = if ea == 4096 then some (codes "main", 4096) else none

abbrev calm_ghidra : Ghidra calm
calm_ghidra = record {
  find_function = λ ea s. (value (found_at ea), s);
  clear = λ s. nothing;
  clear_noncore = λ s. s;
  clear_analysis = λ f s. (value tt, s);
  perform_actions = λ f s. (value tt, s);
  data_of = λ f s. main;
  doc_function = λ f s. (value (codes "int main() {}"), s);
  type_exception = lowlevel_error (codes "no type");
}

found_at-known :
    (ea address : ℕ) (name : Bytes) (b : Bool)
    → Path
        (Try (Option (Bytes × ℕ)))
        (value (if b then some (codes "main", 4096) else none))
        (value (some (name, address)))
    → (info : SymbolInfo) × (archi.find address ≡ some info)
found_at-known ea address name true e =
    let same : 4096 ≡ address = cc in (main_info, rw (sym same) refl)
found_at-known ea address name false e = cc

abbrev calm_steps : Steps calm archi calm_ghidra no_exception
calm_steps = record {
  find_function-fine = λ ea s. refl;
  clear_analysis-fine = λ f s. refl;
  perform_actions-fine = λ f s. refl;
  doc_function-fine = λ f s. refl;
  update-fine = λ f s. inl refl;
  find-known = λ ea address name s e. found_at-known ea address name (ea == 4096) e;
}

decompile-completes_example :
    Completed calm archi calm_ghidra calm_steps
      (codes "main")
      4096
      nothing
      (decompile calm archi calm_ghidra 4096 nothing)
decompile-completes_example =
    decompile-completes calm archi calm_ghidra calm_steps 4096 4096 (codes "main") nothing refl

-- Where the prototype cannot be built and the analysis throws.
abbrev broken_ghidra : Ghidra table
broken_ghidra = record {
  find_function = λ ea s. (value (found_at ea), s);
  clear = λ s. nothing;
  clear_noncore = λ s. s;
  clear_analysis = λ f s. (value tt, s);
  perform_actions = λ f s. (throws (lowlevel_error (codes "no flow")), s);
  data_of = λ f s. main;
  doc_function = λ f s. (value (codes "int main() {}"), s);
  type_exception = lowlevel_error (codes "no type");
}

abbrev broken_steps : Steps table archi broken_ghidra is_caught
broken_steps = record {
  find_function-fine = λ ea s. refl;
  clear_analysis-fine = λ f s. refl;
  perform_actions-fine = λ f s. refl;
  doc_function-fine = λ f s. refl;
  update-fine = λ f s. inr refl;
  find-known = λ ea address name s e. found_at-known ea address name (ea == 4096) e;
}

decompile-answers_example :
    (result : Option DecompilerResult) × ((decompile table archi broken_ghidra 4096 nothing).0
      ≡ value result)
decompile-answers_example = decompile-answers table archi broken_ghidra 4096 nothing broken_steps

-- The names in the table are those of its entries.
abbrev table_names : EntryNames table
table_names = record {
  symbol_name = λ sym. sym;
  entry_name = λ entry. some entry;
  name-add_function = λ a name s. refl;
  name-add_external_ref = λ a name s. refl;
  name-add_code_label = λ a name s. refl;
  name-add_typed = λ name offset s. refl;
  name-add_unknown = λ name size s. refl;
  name-add_map_point = λ sym a usepoint s. refl;
}

abbrev guarded : Archi
guarded = record archi {
  find = λ offset. some record main_info { name = codes "guard_dispatch_icall_fptr" };
}

abbrev call_target : Address
call_target = record { in_code_space = true; offset = 8192 }

-- A processor whose register RAX stands at address 0.
abbrev rax_only : Bytes → Option ℕ
rax_only name = if bytes_eq name (codes "RAX") then some 0 else none

apply_op-patches_example :
    (apply_op table guarded table_names rax_only
      (codes "guard_dispatch_icall_fptr")
      8
      call_target
      call_target
      nothing).0
    ≡ Resolve.Outcome.returns (patches table guarded table_names rax_only 8 0)
apply_op-patches_example =
    apply_op-patches table guarded table_names rax_only (codes "guard_dispatch_icall_fptr") 8
      call_target call_target (record main_info { name = codes "guard_dispatch_icall_fptr" })
      nothing refl refl refl refl

run-shows_example :
    (code : DecompilerResult) × (tokens : List Bytes) × Cuts b'\n' code.c_code tokens
    × ((run calm archi calm_ghidra (λ name. true) 4096 nothing).0
        ≡ value (
          true,
          close_widget (codes "main")
              ∷ create_custom_viewer
                  (codes "main")
                  (map c_str tokens)
                  (last_place (length (map c_str tokens)))
                  code
              ∷ create_code_viewer
              ∷ set_code_viewer_is_source
              ∷ display_widget
              ∷ [],
        ))
    × Made calm archi calm_ghidra calm_steps
        (codes "main")
        4096
        nothing
        code
        (run calm archi calm_ghidra (λ name. true) 4096 nothing).1
run-shows_example =
    run-shows calm archi calm_ghidra (λ name. true) 4096 4096 (codes "main") nothing calm_steps refl

yagi_init-Starts_example :
    Starts sdk arm_64 (yagi_init (λ arch. initialised) sdk arm_64 (codes "plugins/Ghidra" ∷ []))
yagi_init-Starts_example =
    yagi_init-Starts (λ arch. initialised) sdk arm_64 (codes "plugins/Ghidra") [] (λ arch. refl)
