-- ===== src/Scope/Calls.antt =====
-- The operations of `YagiScope`, yagi/src/scope.cc, that ask no database: the scope behind it does
-- what is asked, or the exception `UnImplementedFunction` of yagi/src/exception.cc is thrown.
pub mod Runs
use yagi.Exception.{what, unimplemented_function}
use yagi.Common.{ℕ, List, [], ◌∷◌, ◌++◌, Option, none, some, Bytes, codes}

-- Searches for symbols, symbols that are added, and their attributes.
pub data SymbolCall : Type 0 where
  find_addr find_closest_fit is_name_used add_symbol add_symbol_internal add_map_internal :
      SymbolCall
  build_sub_scope remove_range add_dynamic_map_internal clear adjust_caches : SymbolCall
  build_undefined_name set_attribute clear_attribute set_display_format find_overlap : SymbolCall
  find_before find_after find_by_name : SymbolCall

-- Iterators over the entries, categories, removal and renaming, and the files of a scope.
pub data EntryCall : Type 0 where
  begin end begin_dynamic end_dynamic begin_dynamic_mutable end_dynamic_mutable : EntryCall
  clear_category clear_unlocked_category clear_unlocked restrict_scope : EntryCall
  remove_symbol_mappings remove_symbol rename_symbol retype_symbol make_name_unique : EntryCall
  save_xml restore_xml print_entries get_category_size get_category_symbol set_category : EntryCall

pub data ScopeCall : Type 0 where
  on_symbols : SymbolCall → ScopeCall
  on_entries : EntryCall → ScopeCall

-- `m_proxy`, Ghidra's `ScopeInternal`: what it does with a call, given the arguments `Args`.
pub record ProxyCalls : Type 1 where
  pub S : Type 0
  pub Args : Type 0
  pub Reply : Type 0
  pub perform : ScopeCall → Args → S → Reply × S

-- What a call of the scope ends with: what the proxy replied, a null pointer, a new scope, or the
-- exception with its message.
pub data Reaction (Reply : Type 0) : Type 0 where
  reply : Reply → Reaction Reply
  null_entry new_scope : Reaction Reply
  throws : Bytes → Reaction Reply

-- The message of `UnImplementedFunction`, given the name of the function.
pub unimplemented_message : Bytes → Bytes
unfolding what
unimplemented_message func_name = what (unimplemented_function func_name)

module _ (proxy : ProxyCalls) where
  open proxy use {S, Args, Reply}

  pub handed_on : ScopeCall → Args → S → Reaction Reply × S
  handed_on c args s = let (r, s') = proxy.perform c args s in (reply r, s')

  pub unimplemented : Bytes → S → Reaction Reply × S
  unfolding unimplemented_message
  unimplemented func_name s = (throws (unimplemented_message func_name), s)

  pub call_symbols : SymbolCall → Args → S → Reaction Reply × S
  unfolding handed_on unimplemented
  call_symbols SymbolCall.find_addr args s = (null_entry, s)
  call_symbols SymbolCall.find_closest_fit args s =
      handed_on (on_symbols SymbolCall.find_closest_fit) args s
  call_symbols SymbolCall.is_name_used args s =
      handed_on (on_symbols SymbolCall.is_name_used) args s
  call_symbols SymbolCall.add_symbol args s = handed_on (on_symbols SymbolCall.add_symbol) args s
  call_symbols SymbolCall.add_symbol_internal args s = unimplemented (codes "addSymbolInternal") s
  call_symbols SymbolCall.add_map_internal args s = unimplemented (codes "addMapInternal") s
  call_symbols SymbolCall.build_sub_scope args s = (new_scope, s)
  call_symbols SymbolCall.remove_range args s = unimplemented (codes "removeRange") s
  call_symbols SymbolCall.add_dynamic_map_internal args s =
      unimplemented (codes "addDynamicMapInternal") s
  call_symbols SymbolCall.clear args s = handed_on (on_symbols SymbolCall.clear) args s
  call_symbols SymbolCall.adjust_caches args s =
      handed_on (on_symbols SymbolCall.adjust_caches) args s
  call_symbols SymbolCall.build_undefined_name args s =
      handed_on (on_symbols SymbolCall.build_undefined_name) args s
  call_symbols SymbolCall.set_attribute args s =
      handed_on (on_symbols SymbolCall.set_attribute) args s
  call_symbols SymbolCall.clear_attribute args s =
      handed_on (on_symbols SymbolCall.clear_attribute) args s
  call_symbols SymbolCall.set_display_format args s =
      handed_on (on_symbols SymbolCall.set_display_format) args s
  call_symbols SymbolCall.find_overlap args s = unimplemented (codes "findOverlap") s
  call_symbols SymbolCall.find_before args s = unimplemented (codes "findBefore") s
  call_symbols SymbolCall.find_after args s = unimplemented (codes "findAfter") s
  call_symbols SymbolCall.find_by_name args s = unimplemented (codes "findByName") s

  pub call_entries : EntryCall → Args → S → Reaction Reply × S
  unfolding handed_on unimplemented
  call_entries EntryCall.begin args s = unimplemented (codes "begin") s
  call_entries EntryCall.end args s = unimplemented (codes "end") s
  call_entries EntryCall.begin_dynamic args s = unimplemented (codes "beginDynamic") s
  call_entries EntryCall.end_dynamic args s = unimplemented (codes "endDynamic") s
  call_entries EntryCall.begin_dynamic_mutable args s = unimplemented (codes "beginDynamic") s
  call_entries EntryCall.end_dynamic_mutable args s = unimplemented (codes "endDynamic") s
  call_entries EntryCall.clear_category args s =
      handed_on (on_entries EntryCall.clear_category) args s
  call_entries EntryCall.clear_unlocked_category args s =
      unimplemented (codes "clearUnlockedCategory") s
  call_entries EntryCall.clear_unlocked args s = unimplemented (codes "clearUnlocked") s
  call_entries EntryCall.restrict_scope args s = unimplemented (codes "restrictScope") s
  call_entries EntryCall.remove_symbol_mappings args s =
      unimplemented (codes "removeSymbolMappings") s
  call_entries EntryCall.remove_symbol args s =
      handed_on (on_entries EntryCall.remove_symbol) args s
  call_entries EntryCall.rename_symbol args s =
      handed_on (on_entries EntryCall.rename_symbol) args s
  call_entries EntryCall.retype_symbol args s =
      handed_on (on_entries EntryCall.retype_symbol) args s
  call_entries EntryCall.make_name_unique args s =
      handed_on (on_entries EntryCall.make_name_unique) args s
  call_entries EntryCall.save_xml args s = unimplemented (codes "saveXml") s
  call_entries EntryCall.restore_xml args s = unimplemented (codes "restoreXml") s
  call_entries EntryCall.print_entries args s = unimplemented (codes "printEntries") s
  call_entries EntryCall.get_category_size args s =
      handed_on (on_entries EntryCall.get_category_size) args s
  call_entries EntryCall.get_category_symbol args s =
      handed_on (on_entries EntryCall.get_category_symbol) args s
  call_entries EntryCall.set_category args s = handed_on (on_entries EntryCall.set_category) args s

  pub call : ScopeCall → Args → S → Reaction Reply × S
  unfolding call_symbols call_entries
  call (on_symbols c) args s = call_symbols c args s
  call (on_entries c) args s = call_entries c args s

  -- The calls one after another, up to the first exception.
  abbrev pub run_after : (S → Option Bytes × S) → Reaction Reply × S → Option Bytes × S
  run_after rest (reply r, s) = rest s
  run_after rest (null_entry, s) = rest s
  run_after rest (new_scope, s) = rest s
  run_after rest (throws message, s) = (some message, s)

  pub run : List (ScopeCall × Args) → S → Option Bytes × S
  run [] s = (none, s)
  run ((c, args) ∷ calls) s = run_after (run calls) (call c args s)
