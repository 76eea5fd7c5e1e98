-- ===== src/Architecture/Configured.antt =====
-- How an architecture is set up for its language, and what the global scope injects then.
use yagi.Common.{
  ◌≡◌, refl, sym, subst, Bool, true, false, ◌&&◌, [], ◌∷◌, none, some, Bytes, codes, bytes_eq,
  if◌then◌else◌,
}
use yagi.Common.Maps.{lookup, emplace}
use yagi.Decompiler.Compiler.{Compiler, Language}
use yagi.Decompiler.Sleigh.{compute_sleigh_id, compute_default_cc}
use yagi.Scope.Proxy.{ScopeInternal}
use yagi.Scope.Resolve.{Archi, inject}
use yagi.Architecture.{
  Architecture, architecture, YagiRule, windows_control_flow_guard, find_injection, Init,
  decompiler, build, build_action, for_language,
}
use yagi.Architecture.Perform.Order.{build-decompiler}

abbrev pub is_x86 : Language → Bool
is_x86 Language.x86 = true
is_x86 Language.x86_gcc = true
is_x86 Language.x86_windows = true
is_x86 l = false

abbrev pub probe : Bytes
probe = codes "alloca_probe"

abbrev pub guard : YagiRule
guard = windows_control_flow_guard (codes "guard_dispatch_icall_fptr")

-- What stands in an architecture for a language.
abbrev pub Configured : Language → Bytes → Bytes → Architecture → Type 0
Configured l id cc_name arch =
    (arch.sleigh_id ≡ id)
    × (arch.default_cc ≡ cc_name)
    × (arch.extra_pool_rules ≡ (if is_x86 l then guard ∷ [] else []))
    × (arch.injection_map ≡ (if is_x86 l then (probe, probe) ∷ [] else []))

pub for_language-Configured :
    (l : Language) (id cc_name : Bytes)
    → Configured l id cc_name (build_action (for_language l (architecture id cc_name)))
unfolding for_language build_action architecture emplace
for_language-Configured Language.x86_windows id cc_name = (refl, refl, refl, refl)
for_language-Configured Language.x86_gcc id cc_name = (refl, refl, refl, refl)
for_language-Configured Language.x86 id cc_name = (refl, refl, refl, refl)
for_language-Configured Language.arm id cc_name = (refl, refl, refl, refl)
for_language-Configured Language.ppc id cc_name = (refl, refl, refl, refl)
for_language-Configured Language.mips id cc_name = (refl, refl, refl, refl)
for_language-Configured Language.sparc id cc_name = (refl, refl, refl, refl)
for_language-Configured Language.atmel id cc_name = (refl, refl, refl, refl)
for_language-Configured Language.p6502 id cc_name = (refl, refl, refl, refl)
for_language-Configured Language.z80 id cc_name = (refl, refl, refl, refl)
for_language-Configured Language.ebpf id cc_name = (refl, refl, refl, refl)

find_injection-map :
    (x86 : Bool) (arch : Architecture) (n : Bytes)
    → arch.injection_map ≡ (if x86 then (probe, probe) ∷ [] else [])
    → find_injection arch n ≡ (if x86 && bytes_eq probe n then some probe else none)
unfolding find_injection lookup
find_injection-map true arch n e = rw e refl
find_injection-map false arch n e = rw e refl

-- The scope reads the injections of the architecture.
abbrev pub with_injections : Archi → Architecture → Archi
with_injections archi arch = record archi { find_injection = find_injection arch }

inject-found :
    (proxy : ScopeInternal) (archi : Archi) (f : proxy.Funcdata) (s : proxy.S) (b : Bool)
    → archi.find_injection (proxy.function_name f) ≡ (if b then some probe else none)
    → inject proxy archi f s ≡ (if b then proxy.set_inject f probe s else s)
unfolding inject
inject-found proxy archi f s true e = rw (e, inject) refl
inject-found proxy archi f s false e = rw (e, inject) refl

-- For each configuration a decompiler is built for, the architecture has its Sleigh identifier,
-- its default convention, and the rule on the control flow guard exactly for x86, and the scope's
-- injection at a function changes the scope exactly for x86 and the name alloca_probe.
pub inject-build :
    (init : Architecture → Init) (c : Compiler) (arch : Architecture) (proxy : ScopeInternal)
    (archi : Archi) (f : proxy.Funcdata) (s : proxy.S)
    → build init c ≡ decompiler arch
    → (arch.sleigh_id ≡ compute_sleigh_id c)
      × (arch.default_cc ≡ compute_default_cc c)
      × (arch.extra_pool_rules ≡ (if is_x86 c.language then guard ∷ [] else []))
      × (inject proxy (with_injections archi arch) f s ≡ (
          if is_x86 c.language && bytes_eq probe (proxy.function_name f)
          then proxy.set_inject f probe s
          else s))
inject-build init c arch proxy archi f s e =
    let (id, cc_name, rules, injections) =
      subst (Configured c.language (compute_sleigh_id c) (compute_default_cc c))
        (sym (build-decompiler init c arch e))
        (for_language-Configured c.language (compute_sleigh_id c) (compute_default_cc c)) in
    (
      id,
      cc_name,
      rules,
      inject-found proxy (with_injections archi arch) f s _
          (find_injection-map (is_x86 c.language) arch (proxy.function_name f) injections),
    )
