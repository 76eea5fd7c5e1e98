-- ===== src/Plugin/Start/Starting.antt =====
-- When the plugin starts, and for what.
use yagi.Common.{◌≡◌, ap, ◌∙◌, ◌⊎◌, inl, inr, ◌∷◌, List, Bytes}
use yagi.Exception.{what, unknown_compiler}
use yagi.Decompiler.Compiler.{Language}
use yagi.Decompiler.Sleigh.{compute_sleigh_id, compute_default_cc}
use yagi.Decompiler.Detect.{Sdk, Inf, Detected, compute_compiler}
use yagi.Decompiler.Detect.Described.{
  configuration, Speaks, IsUnknown, Describes, compute_compiler_lem,
}
use yagi.Architecture.{
  Architecture, Init, initialised, build, build_with, build_action, for_language, architecture,
}
use yagi.Architecture.Configured.{Configured, for_language-Configured}
use yagi.Plugin.Start.{Started, plugin, not_started, with_decompiler, with_compiler, yagi_init}

-- A plugin for a language of the database, with the names, the rule and the injection of its
-- configuration, or the message about the processor, which no language has.
abbrev pub Starts : Sdk → Inf → Started → Type 0
Starts sdk inf started =
    ((l : Language) × (arch : Architecture) × Speaks sdk inf l
      × (started ≡ plugin arch)
      × Configured l (compute_sleigh_id (configuration inf l))
          (compute_default_cc (configuration inf l)) arch)
    ⊎ (IsUnknown sdk inf × (started ≡ not_started (what (unknown_compiler inf.processor_id))))

with_compiler-Starts :
    (init : Architecture → Init) (sdk : Sdk) (inf : Inf) (d : Detected)
    → ((arch : Architecture) → init arch ≡ initialised)
    → Describes sdk inf d
    → Starts sdk inf (with_compiler init d)
unfolding with_compiler with_decompiler build build_with
with_compiler-Starts init sdk inf d ready (inl (l, speaks, e)) =
    let c = configuration inf l in
    let configured : Architecture =
      for_language l (architecture (compute_sleigh_id c) (compute_default_cc c)) in
    inl (
      l,
      build_action configured,
      speaks,
      ap (with_compiler init) e
          ∙ ap (λ o. with_decompiler (build_with o configured)) (ready configured),
      for_language-Configured l (compute_sleigh_id c) (compute_default_cc c),
    )
with_compiler-Starts init sdk inf d ready (inr (unknown, e)) =
    inr (unknown, ap (with_compiler init) e)

-- Where IDA has a folder for Ghidra and Ghidra's initialisation does not throw: the plugin starts
-- for a language whose processor and compiler are those of the database, with the Sleigh
-- identifier and the default calling convention of this language, the database's byte order and
-- its mode, with the rule on the control flow guard and the injection of alloca_probe exactly for
-- x86; or no language has the processor, and the message names it.
pub yagi_init-Starts :
    (init : Architecture → Init) (sdk : Sdk) (inf : Inf) (path : Bytes) (paths : List Bytes)
    → ((arch : Architecture) → init arch ≡ initialised)
    → Starts sdk inf (yagi_init init sdk inf (path ∷ paths))
unfolding yagi_init
yagi_init-Starts init sdk inf path paths ready =
    with_compiler-Starts init sdk inf (compute_compiler sdk inf) ready
      (compute_compiler_lem sdk inf)
