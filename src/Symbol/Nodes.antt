-- ===== src/Symbol/Nodes.antt =====
-- The names of the nodes: `"$ " << to_hex(func) << ".yagireg." << space << "." << to_hex(pc)`, and
-- the same with `.yagitype.`.
use yagi.Common.{
  ℕ, ◌≡◌, ◌≢◌, refl, ap, Bool, true, false, ◌&&◌, [], ◌∷◌, ◌++◌, arith, Bytes, codes, bytes_eq,
  bytes_eq_refl, bytes_eq→≡, ◌==◌, Lacks, Bool_iff, get_or,
}
use yagi.Base.Hex.{to_hex, to_hex-Lacks_dot}
use yagi.Base.RoundTrip.{to_hex_injective}

-- What a node keeps: the name of a variable, or its type.
pub data Tag : Type 0 where
  yagireg yagitype : Tag

abbrev pub tag_text : Tag → Bytes
tag_text yagireg = codes "yagireg."
tag_text yagitype = codes "yagitype."

pub node_name : Tag → ℕ → Bytes → ℕ → Bytes
node_name t func space pc =
    codes "$ " ++ (to_hex func ++ (b'.' ∷ (tag_text t ++ (space ++ (b'.' ∷ to_hex pc)))))

-- A text is cut in one way at its first dot.
cut_first :
    (a a' s s' : Bytes)
    → Lacks b'.' a
    → Lacks b'.' a'
    → a ++ b'.' ∷ s ≡ a' ++ b'.' ∷ s'
    → (a ≡ a') × (s ≡ s')
cut_first [] [] s s' _ _ e = (refl, cc)
cut_first [] (c ∷ a') s s' _ (h, _) e = absurd (h (cc))
cut_first (c ∷ a) [] s s' (h, _) _ e = absurd (h (cc))
cut_first (c ∷ a) (c' ∷ a') s s' (_, h) (_, h') e =
    let (p, q) = cut_first a a' s s' h h' (cc) in (cc, q)

no_dot : (s h h' : Bytes) → Lacks b'.' h → h ≢ s ++ b'.' ∷ h'
no_dot [] [] h' _ e = cc
no_dot [] (c ∷ h) h' (n, _) e = n (cc)
no_dot (c ∷ s) [] h' _ e = cc
no_dot (c ∷ s) (d ∷ h) h' (_, n) e = no_dot s h h' n (cc)

-- And in one way at its last.
cut_last :
    (s s' h h' : Bytes)
    → Lacks b'.' h
    → Lacks b'.' h'
    → s ++ b'.' ∷ h ≡ s' ++ b'.' ∷ h'
    → (s ≡ s') × (h ≡ h')
cut_last [] [] h h' _ _ e = (refl, cc)
cut_last [] (c ∷ s') h h' n _ e = absurd (no_dot s' h h' n (cc))
cut_last (c ∷ s) [] h h' _ n e = absurd (no_dot s h' h n (cc))
cut_last (c ∷ s) (c' ∷ s') h h' n n' e = let (p, q) = cut_last s s' h h' n n' (cc) in (cc, q)

tag_injective :
    (t t' : Tag) (s s' : Bytes) → tag_text t ++ s ≡ tag_text t' ++ s' → (t ≡ t') × (s ≡ s')
tag_injective yagireg yagireg s s' e = (refl, cc)
tag_injective yagireg yagitype s s' e = absurd (omega (arith, ap (λ u. get_or u 4 0) e))
tag_injective yagitype yagireg s s' e = absurd (omega (arith, ap (λ u. get_or u 4 0) e))
tag_injective yagitype yagitype s s' e = (refl, cc)

-- Two nodes with the same name have the same kind, function, space and program counter, whatever
-- bytes the name of the space holds.
pub node_name_injective :
    (t t' : Tag) (f f' : ℕ) (s s' : Bytes) (pc pc' : ℕ)
    → node_name t f s pc ≡ node_name t' f' s' pc'
    → (t ≡ t') × (f ≡ f') × (s ≡ s') × (pc ≡ pc')
unfolding node_name
node_name_injective t t' f f' s s' pc pc' e =
    let (ef, rest) =
      cut_first (to_hex f) (to_hex f') _ _ (to_hex-Lacks_dot f) (to_hex-Lacks_dot f') (cc) in
    let (et, rest') = tag_injective t t' _ _ rest in
    let (es, epc) = cut_last s s' _ _ (to_hex-Lacks_dot pc) (to_hex-Lacks_dot pc') rest' in
    (et, to_hex_injective f f' ef, es, to_hex_injective pc pc' epc)

abbrev pub same_tag : Tag → Tag → Bool
same_tag yagireg yagireg = true
same_tag yagireg yagitype = false
same_tag yagitype yagireg = false
same_tag yagitype yagitype = true

abbrev pub same_node : Tag → ℕ → Bytes → ℕ → Tag → ℕ → Bytes → ℕ → Bool
same_node t f s pc t' f' s' pc' = same_tag t t' && (f == f' && (bytes_eq s s' && pc == pc'))

same_tag→≡ : (t t' : Tag) → same_tag t t' ≡ true → t ≡ t'
same_tag→≡ yagireg yagireg h = refl
same_tag→≡ yagireg yagitype h = cc
same_tag→≡ yagitype yagireg h = cc
same_tag→≡ yagitype yagitype h = refl

pub same_tag_refl : (t : Tag) → same_tag t t ≡ true
same_tag_refl yagireg = refl
same_tag_refl yagitype = refl

same_node→≡ :
    (t t' : Tag) (f f' : ℕ) (s s' : Bytes) (pc pc' : ℕ)
    → same_node t f s pc t' f' s' pc' ≡ true
    → node_name t f s pc ≡ node_name t' f' s' pc'
same_node→≡ t t' f f' s s' pc pc' h =
    let et : t ≡ t' = same_tag→≡ t t' (ground arith) in
    let ef : f ≡ f' = ground arith in
    let es : s ≡ s' = bytes_eq→≡ s s' (ground arith) in let epc : pc ≡ pc' = ground arith in cc

≡→same_node :
    (t t' : Tag) (f f' : ℕ) (s s' : Bytes) (pc pc' : ℕ)
    → (t ≡ t') × (f ≡ f') × (s ≡ s') × (pc ≡ pc')
    → same_node t f s pc t' f' s' pc' ≡ true
≡→same_node t t' f f' s s' pc pc' (et, ef, es, epc) =
    rw (← et, ← ef, ← es, ← epc, same_tag_refl t, bytes_eq_refl s) (ground arith)

-- Comparing the names is comparing what they name.
pub bytes_eq-node_name :
    (t t' : Tag) (f f' : ℕ) (s s' : Bytes) (pc pc' : ℕ)
    → bytes_eq (node_name t f s pc) (node_name t' f' s' pc') ≡ same_node t f s pc t' f' s' pc'
bytes_eq-node_name t t' f f' s s' pc pc' =
    Bool_iff _ _
      (λ e.
        ≡→same_node t t' f f' s s' pc pc'
          (node_name_injective t t' f f' s s' pc pc' (bytes_eq→≡ _ _ e)))
      (λ e. rw (same_node→≡ t t' f f' s s' pc pc' e) (bytes_eq_refl (node_name t' f' s' pc')))
