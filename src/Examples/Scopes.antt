-- ===== src/Examples/Scopes.antt =====
-- The global scope and the symbols of a decompiled function at concrete inputs.
use yagi.Common.{
  ℕ, ◌+◌, List, ◌≡◌, refl, true, false, [], ◌∷◌, Option, none, some, Bytes, codes, ◌==◌,
  if◌then◌else◌, ==_refl, bytes_eq,
}
use yagi.Common.Maps.{lookup, or_else}
use yagi.Symbol.Info.{Kind}
use yagi.Decompiler.Symbols
use yagi.Decompiler.Symbols.{Varnode, PcodeOp, FuncCallSpecs, Funcdata, ram, find_symbols}
use yagi.Decompiler.Symbols.Found.{first_variable, first_call, lookup-find_symbols}
use yagi.Scope.Calls.{ProxyCalls, ScopeCall, SymbolCall, EntryCall, on_symbols, on_entries}
use yagi.Scope.Proxy
use yagi.Scope.Proxy.{SymbolInfo, ScopeInternal}
use yagi.Scope.Resolve.{Archi, no_type, find_function, find_external_ref, find_code_label}
use yagi.Scope.Resolve.Cached.{Repeats, lookup-again}

-- A scope that keeps the names of its symbols by their offsets.
abbrev pub table : ScopeInternal
table = record {
  S = ℕ → Option Bytes;
  Symbol = Bytes;
  Entry = Bytes;
  Funcdata = Bytes;
  find_function = λ a s. s a.offset;
  find_container = λ a size usepoint s. none;
  find_external_ref = λ a s. s a.offset;
  find_code_label = λ a s. s a.offset;
  add_function = λ a name s. (name, λ n. if a.offset == n then some name else s n);
  add_external_ref = λ a name s. (name, λ n. if a.offset == n then some name else s n);
  add_code_label = λ a name s. (name, λ n. if a.offset == n then some name else s n);
  add_typed = λ name offset s. (name, s);
  add_unknown = λ name size s. (name, s);
  set_read_only = λ sym s. s;
  add_map_point = λ sym a usepoint s. (sym, s);
  get_function = λ sym. sym;
  function_name = λ f. f;
  set_inject = λ f injection s. s;
  update = λ f s. (false, s);
  find_external_ref-add = λ a name s. rw (==_refl a.offset) refl;
  find_code_label-add = λ a name s. rw (==_refl a.offset) refl;
  find_function-add = λ a name s. rw (==_refl a.offset) refl;
  find_function-set_inject = λ a f injection s. refl;
  find_function-update = λ a f s. refl;
}

abbrev pub main_info : SymbolInfo
main_info = record {
  name = codes "main";
  kind = Kind.function;
  is_import = false;
  is_label = false;
  is_read_only = true;
}

abbrev pub archi : Archi
archi = record {
  find = λ offset. if offset == 4096 then some main_info else none;
  find_injection = λ name. some (codes "alloca_probe");
  build_type = λ offset. no_type;
}

abbrev entry : Proxy.Address
entry = record { in_code_space = true; offset = 4096 }

abbrev pub nothing : ℕ → Option Bytes
nothing n = none

-- The type manager throws on the first lookup, and the second one finds the function.
lookup-again_example :
    (find_external_ref table archi entry (find_external_ref table archi entry nothing).1
      ≡ find_external_ref table archi entry nothing)
    × (find_code_label table archi entry (find_code_label table archi entry nothing).1
        ≡ find_code_label table archi entry nothing)
    × Repeats table archi entry (find_function table archi entry nothing)
lookup-again_example = lookup-again table archi entry nothing

abbrev pub at : ℕ → Symbols.Address
at n = record { space_name = codes "ram"; offset = n; addr_size = 8 }

abbrev pub stack_at : ℕ → Symbols.Address
stack_at n = record { space_name = codes "stack"; offset = n; addr_size = 8 }

abbrev pub call_puts : FuncCallSpecs
call_puts = record { name = codes "__imp_puts"; entry = some (at 8192) }

abbrev pub call_unknown : FuncCallSpecs
call_unknown = record { name = codes "func"; entry = none }

-- A function with one variable, written nowhere and read by two operations, and two calls.
abbrev pub main : Funcdata
main = record {
  name = codes "main";
  addr = at 4096;
  varnodes =
      Varnode.no_symbol
      ∷ Varnode.symbol (stack_at 16) (codes "x") record { addr = stack_at 16; def = none }
      ∷ [];
  ops =
      record { addr = 4100; inputs = (false, stack_at 16) ∷ [] }
      ∷ record { addr = 4104; inputs = (true, at 8192) ∷ (false, stack_at 16) ∷ [] }
      ∷ [];
  calls = call_unknown ∷ call_puts ∷ [];
}

lookup-find_symbols_example :
    lookup (codes "x") (find_symbols main)
    ≡ or_else (first_variable main.ops main.varnodes (codes "x")) (
        if bytes_eq (codes "main") (codes "x")
        then some (ram (at 4096))
        else first_call main.calls (codes "x"))
lookup-find_symbols_example = lookup-find_symbols main (codes "x")

-- A proxy that counts its calls.
abbrev counter : ProxyCalls
counter = record { S = ℕ; Args = Bytes; Reply = ℕ; perform = λ c args s. (s, s + 1) }

abbrev calls : List (ScopeCall × Bytes)
calls =
    (on_symbols SymbolCall.clear, [])
    ∷ (on_symbols SymbolCall.find_addr, codes "x")
    ∷ (on_entries EntryCall.rename_symbol, codes "x")
    ∷ (on_entries EntryCall.save_xml, [])
    ∷ (on_entries EntryCall.remove_symbol, codes "x")
    ∷ []
