-- ===== src/Plugin/Start.antt =====
-- `yagi_init` of yagi/src/yagi.cc: the plugin is set up when IDA starts.
pub mod Starting
use yagi.Common.{ℕ, List, [], ◌∷◌, Bytes}
use yagi.Exception
use yagi.Exception.{what}
use yagi.Decompiler.Detect.{Sdk, Inf, Detected, detected, unknown_compiler, compute_compiler}
use yagi.Architecture.{Architecture, Init, Built, decompiler, not_built, build}

-- A plugin with the decompiler of an architecture, or a null pointer after a message is logged.
pub data Started : Type 0 where
  plugin : Architecture → Started
  not_started : Bytes → Started

pub with_decompiler : Built → Started
with_decompiler (decompiler arch) = plugin arch
with_decompiler (not_built explain) = not_started explain

-- The exception of an unknown processor is caught.
pub with_compiler : (Architecture → Init) → Detected → Started
unfolding with_decompiler
with_compiler init (detected c) = with_decompiler (build init c)
with_compiler init (unknown_compiler id) = not_started (what (Exception.Error.unknown_compiler id))

-- The paths are those of IDA's directories that have a folder for Ghidra; Ghidra's own set up from
-- the first of them is left out.
pub yagi_init : (Architecture → Init) → Sdk → Inf → List Bytes → Started
unfolding with_compiler
yagi_init init sdk inf [] = not_started (what Exception.Error.unable_to_found_ghidra_folder)
yagi_init init sdk inf (path ∷ paths) = with_compiler init (compute_compiler sdk inf)
