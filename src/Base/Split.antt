-- ===== src/Base/Split.antt =====
-- `split` of yagi/src/base.cc: `std::getline` on a string stream, until it extracts nothing.
use yagi.Common.{
  ◌≢◌, ◌∙◌, ℕ, ◌≡◌, refl, sym, ap, subst, true, false, List, [], ◌∷◌, ◌++◌, append_assoc,
  append-nil, arith, Bytes, ◌==◌, Lacks, Lacks-append, All-append, ◌⊎◌, All, Bool-cases, inl, inr,
}

-- `cur` is what `getline` has extracted for the current token. At the end of the input a token
-- is there only if a character was extracted for it.
unfoldable pub split_loop : ℕ → Bytes → Bytes → List Bytes
split_loop delimiter [] [] = []
split_loop delimiter [] (c ∷ cur) = (c ∷ cur) ∷ []
split_loop delimiter (c ∷ s) cur = elim (c == delimiter) [
  | true ↦ cur ∷ split_loop delimiter s []
  | false ↦ split_loop delimiter s (cur ++ c ∷ [])
]

unfoldable pub split : Bytes → ℕ → List Bytes
unfolding split_loop
split s delimiter = split_loop delimiter s []

-- The text in which every token is followed by the delimiter.
abbrev pub terminated : ℕ → List Bytes → Bytes
terminated delimiter [] = []
terminated delimiter (t ∷ ts) = t ++ (delimiter ∷ terminated delimiter ts)

-- What is left behind the last delimiter is a token if it is not empty.
abbrev pub last_token : Bytes → List Bytes
last_token [] = []
last_token (c ∷ s) = (c ∷ s) ∷ []

pub split_loop-last :
    (d : ℕ) (s cur : Bytes) → Lacks d s → split_loop d s cur ≡ last_token (cur ++ s)
unfolding split_loop
split_loop-last d [] [] _ = refl
split_loop-last d [] (c ∷ cur) _ = rw append-nil
split_loop-last d (c ∷ s) cur (h, hs) =
    ground (arith, split_loop-last d s (cur ++ c ∷ []) hs, append_assoc cur (c ∷ []) s)

split_loop-token :
    (d : ℕ) (t rest cur : Bytes)
    → Lacks d t
    → split_loop d (t ++ d ∷ rest) cur ≡ (cur ++ t) ∷ split_loop d rest []
unfolding split_loop
split_loop-token d [] rest cur _ = rw append-nil (ground arith)
split_loop-token d (c ∷ t) rest cur (h, hs) =
    ground (arith, split_loop-token d t rest (cur ++ c ∷ []) hs, append_assoc cur (c ∷ []) t)

pub split-terminated :
    (d : ℕ) (ts : List Bytes) (rest : Bytes)
    → All (Lacks d) ts
    → Lacks d rest
    → split (terminated d ts ++ rest) d ≡ ts ++ last_token rest
unfolding split
split-terminated d [] rest _ h = split_loop-last d rest [] h
split-terminated d (t ∷ ts) rest (ht, hts) h =
    rw (append_assoc, split_loop-token d t _ [] ht) (ap (◌∷◌ t) (split-terminated d ts rest hts h))

pub split_loop-Lacks : (d : ℕ) (s cur : Bytes) → Lacks d cur → All (Lacks d) (split_loop d s cur)
unfolding split_loop
split_loop-Lacks d [] [] _ = tt
split_loop-Lacks d [] (c ∷ cur) h = (h, tt)
split_loop-Lacks d (c ∷ s) cur h = elim (Bool-cases (c == d)) [
  | inl e ↦ rw (e, split_loop) (h, split_loop-Lacks d s [] tt)
  | inr e ↦
      rw (e, split_loop)
        (split_loop-Lacks d s (cur ++ c ∷ []) (Lacks-append d cur (c ∷ []) h (ground arith, tt)))
]

-- Putting the delimiter behind every token gives the text back, completed by a delimiter if its
-- last token has none.
abbrev pub Rejoins : ℕ → Bytes → List Bytes → Type 0
Rejoins d s ts = (terminated d ts ≡ s) ⊎ (terminated d ts ≡ s ++ d ∷ [])

Rejoins-cons :
    (d c : ℕ) (s cur : Bytes) (ts : List Bytes)
    → c ≡ d
    → Rejoins d s ts
    → Rejoins d (cur ++ c ∷ s) (cur ∷ ts)
Rejoins-cons d c s cur ts e (inl h) = inl (cc)
Rejoins-cons d c s cur ts e (inr h) = inr (rw append_assoc (cc))

split_loop-Rejoins : (d : ℕ) (s cur : Bytes) → Rejoins d (cur ++ s) (split_loop d s cur)
unfolding split_loop
split_loop-Rejoins d [] [] = inl refl
split_loop-Rejoins d [] (c ∷ cur) = inr (ap (λ t. t ++ d ∷ []) (sym (append-nil (c ∷ cur))))
split_loop-Rejoins d (c ∷ s) cur = elim (Bool-cases (c == d)) [
  | inl e ↦ rw (e, split_loop) (Rejoins-cons d c s cur _ (ground arith) (split_loop-Rejoins d s []))
  | inr e ↦
      rw (e, split_loop)
        (subst (λ u. Rejoins d u (split_loop d s (cur ++ c ∷ []))) (append_assoc cur (c ∷ []) s)
          (split_loop-Rejoins d s (cur ++ c ∷ [])))
]

-- The tokens of a text, each followed by the delimiter, are the text, or the text with one
-- delimiter behind it.
pub split-Rejoins : (d : ℕ) (s : Bytes) → Rejoins d s (split s d)
unfolding split
split-Rejoins d s = split_loop-Rejoins d s []

-- A property of all bytes of the text is one of all bytes of its tokens.
pub split_loop-All {κ} :
    (P : ℕ → Type κ) (d : ℕ) (s cur : Bytes)
    → All P s
    → All P cur
    → All (All P) (split_loop d s cur)
unfolding split_loop
split_loop-All P d [] [] _ _ = tt
split_loop-All P d [] (c ∷ cur) _ h = (h, tt)
split_loop-All P d (c ∷ s) cur (p, h) hc = elim (Bool-cases (c == d)) [
  | inl e ↦ rw (e, split_loop) (hc, split_loop-All P d s [] h tt)
  | inr e ↦
      rw (e, split_loop)
        (split_loop-All P d s (cur ++ c ∷ []) h (All-append P cur (c ∷ []) hc (p, tt)))
]

-- A text is tokens, each followed by the delimiter, and what is left behind the last one; neither has
-- the delimiter in it.
abbrev pub Divides : ℕ → Bytes → List Bytes → Bytes → Type 0
Divides d s before rest = (s ≡ terminated d before ++ rest) × All (Lacks d) before × Lacks d rest

Divides-delimiter :
    (d c : ℕ) (s : Bytes) (before : List Bytes) (rest : Bytes)
    → c ≡ d
    → Divides d s before rest
    → Divides d (c ∷ s) ([] ∷ before) rest
Divides-delimiter d c s before rest e (is, lacks, h) = (cc, (tt, lacks), h)

Divides-other :
    (d c : ℕ) (s : Bytes) (before : List Bytes) (rest : Bytes)
    → c ≢ d
    → Divides d s before rest
    → (before' : List Bytes) × (rest' : Bytes) × Divides d (c ∷ s) before' rest'
Divides-other d c s [] rest differ (is, lacks, h) = ([], c ∷ rest, (ap (◌∷◌ c) is, tt, (differ, h)))
Divides-other d c s (t ∷ ts) rest differ (is, (ht, hts), h) =
    ((c ∷ t) ∷ ts, rest, (ap (◌∷◌ c) is, ((differ, ht), hts), h))

divided : (d : ℕ) (s : Bytes) → (before : List Bytes) × (rest : Bytes) × Divides d s before rest
divided d [] = ([], [], (refl, tt, tt))
divided d (c ∷ s) =
    let (before, rest, divides) = divided d s in
    elim (Bool-cases (c == d)) [
      | inl e ↦ ([] ∷ before, rest, Divides-delimiter d c s before rest (ground arith) divides)
      | inr e ↦ Divides-other d c s before rest (λ is. ground arith) divides
    ]

-- The tokens of a text are those that the delimiter follows, and what is left if it is not empty.
abbrev pub Cuts : ℕ → Bytes → List Bytes → Type 0
Cuts d s tokens =
    (before : List Bytes) × (rest : Bytes) × Divides d s before rest
    × (tokens ≡ before ++ last_token rest)

pub split-Cuts : (s : Bytes) (d : ℕ) → Cuts d s (split s d)
split-Cuts s d =
    let (before, rest, divides) = divided d s in
    let (is, lacks, h) = divides in
    (before, rest, divides, ap (λ t. split t d) is ∙ split-terminated d before rest lacks h)
