-- ===== src/Plugin/Windows/Owned.antt =====
-- Every result that is allocated is that of one open viewer.
use yagi.Common.{
  ℕ, ◌+◌, ◌<◌, ◌≡◌, refl, sym, ap, ◌∙◌, subst, true, List, [], ◌∷◌, Option, none, some, arith,
  Bytes, ◌==◌, Bool-cases, inl, inr,
}
use yagi.Plugin.Windows.{
  allocated, freed, Gone, Widgets, Heap, close, call_close, close_old, create_viewer, view,
  WindowEvent, run, closed, on_event, on_events,
}

-- The addresses fall from a bound, so that they are different.
abbrev pub Below : ℕ → List ℕ → Type 0
Below n [] = true ≡ true
Below n (p ∷ results) = (p < n) × Below p results

Below-larger : (m n : ℕ) (results : List ℕ) → m < n → Below m results → Below n results
Below-larger m n [] l h = refl
Below-larger m n (p ∷ results) l (k, h) = (omega (arith, l, k), h)

Below-freed : (n p : ℕ) (results : List ℕ) → Below n results → Below n (freed p results)
Below-freed n p [] h = refl
Below-freed n p (q ∷ results) (k, h) = elim (Bool-cases (p == q)) [
  | inl e ↦ rw e (Below-larger q n results k h)
  | inr e ↦ rw e (k, Below-freed q p results h)
]

module _ (ida : Widgets) where
  open ida use {S, Widget, viewers}

  -- The results are those of the viewers, each at its own address.
  abbrev pub Owned : S → Heap → Type 0
  Owned s h = (h.results ≡ viewers s) × Below h.next h.results

  -- What happens is defined, keeps this, and leaves some `strvec_t` behind.
  abbrev Leaves : ℕ → Option (S × Heap) → Type 0
  Leaves lines o = (s : S) × (h : Heap) × (o ≡ some (s, h)) × Owned s h × (h.lines ≡ lines)

  close-Leaves :
      (ud : Option ℕ) (s s' : S) (h : Heap)
      → Owned s h
      → Gone ud (viewers s) (viewers s')
      → Leaves h.lines (call_close ida (ud, s') h)
  unfolding call_close close
  close-Leaves none s s' h (are, low) gone = (s', h, refl, (are ∙ sym gone, low), refl)
  close-Leaves (some code) s s' h (are, low) (is, gone) =
      let there : allocated code h.results ≡ true = rw are is in
      (
        s',
        record h { results = freed code h.results },
        rw (there, call_close) refl,
        (ap (freed code) are ∙ sym gone, Below-freed h.next code h.results low),
        refl,
      )

  close_widget-Leaves :
      (w : Widget) (s : S) (h : Heap)
      → Owned s h
      → Leaves h.lines (call_close ida (ida.close_widget w s) h)
  close_widget-Leaves w s h owned =
      let (ud, s') = ida.close_widget w s in
      close-Leaves ud s s' h owned (ida.viewers-close_widget w s)

  close_old-Leaves :
      (w : Option Widget) (s : S) (h : Heap) → Owned s h → Leaves h.lines (close_old ida w s h)
  unfolding close_old
  close_old-Leaves none s h owned = (s, h, refl, owned, refl)
  close_old-Leaves (some w) s h owned = close_widget-Leaves w s h owned

  view-Leaves :
      (name : Bytes) (s : S) (h : Heap) → Owned s h → Leaves (h.lines + 1) (view ida name s h)
  unfolding view create_viewer
  view-Leaves name s h owned =
      let (s', h', e, (are, low), same) = close_old-Leaves (ida.find_widget name s) s h owned in
      rw (e, view)
        (
          ida.create_custom_viewer name h'.next s',
          record { results = h'.next ∷ h'.results; next = h'.next + 1; lines = h'.lines + 1 },
          refl,
          (
            ap (λ xs. h'.next ∷ xs) are ∙ sym (ida.viewers-create_custom_viewer name h'.next s'),
            (omega arith, low),
          ),
          ap (λ n. n + 1) same,
        )

  abbrev pub runs : List (WindowEvent Widget) → ℕ
  runs [] = 0
  runs (run name ∷ events) = runs events + 1
  runs (closed w ∷ events) = runs events

  on_events-after :
      (e : WindowEvent Widget) (events : List (WindowEvent Widget)) (s : S) (h : Heap) (m : ℕ)
      → Leaves m (on_event ida e s h)
      → ((s' : S) (h' : Heap)
          → Owned s' h'
          → Leaves (h'.lines + runs events) (on_events ida events s' h'))
      → Leaves (m + runs events) (on_events ida (e ∷ events) s h)
  unfolding on_events
  on_events-after e events s h m (s', h', is, owned, same) rest =
      rw (is, on_events, ← same) (rest s' h' owned)

  -- Where each result that is allocated is that of one open viewer of the plugin, at an address
  -- of its own, it stays so whatever functions the plugin is run on and whatever windows are
  -- closed between, in any order: no result is deleted twice, none is lost, and none that a
  -- viewer has is deleted. Each run leaves the lines that it allocated.
  pub on_events-Owned :
      (events : List (WindowEvent Widget)) (s : S) (h : Heap)
      → Owned s h
      → (s' : S) × (h' : Heap) × (on_events ida events s h ≡ some (s', h'))
        × Owned s' h'
        × (h'.lines ≡ h.lines + runs events)
  unfolding on_events on_event
  on_events-Owned [] s h owned = (s, h, refl, owned, omega arith)
  on_events-Owned (run name ∷ events) s h owned =
      let more : h.lines + 1 + runs events ≡ h.lines + (runs events + 1) = omega arith in
      subst (λ m. Leaves m (on_events ida (run name ∷ events) s h)) more
        (on_events-after (run name) events s h (h.lines + 1) (view-Leaves name s h owned)
          (on_events-Owned events))
  on_events-Owned (closed w ∷ events) s h owned =
      on_events-after (closed w) events s h h.lines (close_widget-Leaves w s h owned)
        (on_events-Owned events)
