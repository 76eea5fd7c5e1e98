-- ===== src/Plugin/Windows.antt =====
-- What the plugin allocates for its windows: `Plugin::view` and `_Close` of yagi/src/plugin.cc on the
-- heap. The windows are IDA's: the operations that are called, with what the documentation of the
-- IDA SDK says of the handlers.
pub mod Owned
use yagi.Common.{
  ℕ, ◌+◌, ◌≡◌, Bool, true, false, ◌||◌, List, [], ◌∷◌, Option, none, some, Bytes, ◌==◌,
  if◌then◌else◌,
}

abbrev pub allocated : ℕ → List ℕ → Bool
allocated p [] = false
allocated p (q ∷ results) = p == q || allocated p results

abbrev pub freed : ℕ → List ℕ → List ℕ
freed p [] = []
freed p (q ∷ results) = let rest = freed p results in if p == q then results else q ∷ rest

-- The viewer of an address is gone, or no viewer is.
abbrev pub Gone : Option ℕ → List ℕ → List ℕ → Type 0
Gone none before after = after ≡ before
Gone (some ud) before after = (allocated ud before ≡ true) × (after ≡ freed ud before)

pub record Widgets : Type 1 where
  -- A state of IDA's windows.
  pub S : Type 0
  pub Widget : Type 0
  -- The `ud` of each open viewer of the plugin, the latest first.
  pub viewers : S → List ℕ
  pub find_widget : Bytes → S → Option Widget
  -- What the handler of the window is called with, if it is a viewer of the plugin.
  pub close_widget : Widget → S → Option ℕ × S
  pub create_custom_viewer : Bytes → ℕ → S → S
  pub viewers-close_widget :
      (w : Widget) (s : S) → Gone (close_widget w s).0 (viewers s) (viewers (close_widget w s).1)
  pub viewers-create_custom_viewer :
      (title : Bytes) (ud : ℕ) (s : S) → viewers (create_custom_viewer title ud s) ≡ ud ∷ viewers s

-- The addresses of the `Decompiler::Result` that were made with `new` and not deleted, and the
-- address of the next one, and how many `strvec_t` there are.
pub record Heap : Type 0 where
  pub results : List ℕ
  pub next : ℕ
  pub lines : ℕ

-- `_Close`. To delete what is not allocated is undefined behaviour, `none`.
pub close : ℕ → Heap → Option Heap
close code h =
    if allocated code h.results then some (record h { results = freed code h.results }) else none

module _ (ida : Widgets) where
  open ida use {S, Widget}

  pub call_close : Option ℕ × S → Heap → Option (S × Heap)
  unfolding close
  call_close (none, s) h = some (s, h)
  call_close (some code, s) h = elim (close code h) [ none ↦ none | some h' ↦ some (s, h') ]

  -- An old window of the name is closed.
  pub close_old : Option Widget → S → Heap → Option (S × Heap)
  unfolding call_close
  close_old none s h = some (s, h)
  close_old (some old_widget) s h = call_close (ida.close_widget old_widget s) h

  -- The viewer gets the lines and a copy of the result.
  pub create_viewer : Bytes → S × Heap → S × Heap
  create_viewer name (s, h) = (
    ida.create_custom_viewer name h.next s,
    record { results = h.next ∷ h.results; next = h.next + 1; lines = h.lines + 1 },
  )

  pub view : Bytes → S → Heap → Option (S × Heap)
  unfolding close_old create_viewer
  view name s h = elim (close_old (ida.find_widget name s) s h) [
    | none ↦ none
    | some d ↦ some (create_viewer name d)
  ]

-- The plugin runs on a function of a name, or a window is closed.
pub data WindowEvent (Widget : Type 0) : Type 0 where
  run : Bytes → WindowEvent Widget
  closed : Widget → WindowEvent Widget

module _ (ida : Widgets) where
  open ida use {S, Widget}

  pub on_event : WindowEvent Widget → S → Heap → Option (S × Heap)
  unfolding view call_close
  on_event (run name) s h = view ida name s h
  on_event (closed w) s h = call_close ida (ida.close_widget w s) h

  pub on_events : List (WindowEvent Widget) → S → Heap → Option (S × Heap)
  unfolding on_event
  on_events [] s h = some (s, h)
  on_events (e ∷ events) s h = elim (on_event e s h) [
    | none ↦ none
    | some (s', h') ↦ on_events events s' h'
  ]
