-- ===== src/Symbol/FunctionName.antt =====
-- The name that `IdaSymbolInfoFactory::find_function` of yagi/src/idasymbol.cc gives a function: of
-- IDA's short name, the last word before the parameters.
use yagi.Common.{
  ℕ, ◌≡◌, ◌≢◌, refl, sym, ap, ◌∙◌, List, [], ◌∷◌, ◌++◌, Option, none, some, arith, Bytes, Lacks,
  find_byte, find_byte-append, take, ◌==◌, Bool-cases, inl, inr, All, ◌↔◌, take-append_length,
  if◌then◌else◌, subst, ==_refl, Lacks-append,
}
use mathlib.Core.List.{cons-ne-nil, concat-ne-nil}
use mathlib.Core.Option.{some-injective}
use yagi.Base.Split.{
  split, split_loop, split_loop-Lacks, split_loop-All, split_loop-last, split-Rejoins, last_token,
  terminated,
}

module _ {ℓ} {A : Type ℓ} where
  -- `std::vector::back`, which has no value on an empty vector.
  abbrev pub get_last? : List A → Option A
  get_last? [] = none
  get_last? (x ∷ []) = some x
  get_last? (x ∷ y ∷ xs) = get_last? (y ∷ xs)

  pub get_last?-append : (xs : List A) (x : A) → get_last? (xs ++ x ∷ []) ≡ some x
  get_last?-append [] x = refl
  get_last?-append (y ∷ []) x = refl
  get_last?-append (y ∷ z ∷ xs) x = get_last?-append (z ∷ xs) x

  get_last?-none : (xs : List A) → get_last? xs ≡ none → xs ≡ []
  get_last?-none [] e = refl
  get_last?-none (y ∷ []) e = cc
  get_last?-none (y ∷ z ∷ xs) e = absurd (cons-ne-nil z xs (get_last?-none (z ∷ xs) e))

  get_last?-All {κ} :
      (P : A → Type κ) (xs : List A) {x : A} → All P xs → get_last? xs ≡ some x → P x
  get_last?-All P [] h e = cc
  get_last?-All P (y ∷ []) {x} (p, _) e = subst P (some-injective y x e) p
  get_last?-All P (y ∷ z ∷ xs) (_, h) e = get_last?-All P (z ∷ xs) h e

-- `name.substr(0, name.find("("))`.
pub before_paren : Bytes → Bytes
before_paren name = elim (find_byte b'(' name) [ none ↦ name | some n ↦ take n name ]

-- `none` is the undefined behaviour of `back` on no words.
unfoldable pub function_name : Bytes → Option Bytes
unfolding before_paren
function_name name = get_last? (split (before_paren name) b' ')

last_token_one : (s : Bytes) → s ≢ [] → last_token s ≡ s ∷ []
last_token_one [] h = absurd (h refl)
last_token_one (c ∷ s) h = refl

-- A nonempty text has a word, and its last word ends the text.
split_loop-last_word :
    (d : ℕ) (r name cur : Bytes)
    → Lacks d name
    → name ≢ []
    → (ts : List Bytes) × (split_loop d (r ++ d ∷ name) cur ≡ ts ++ name ∷ [])
unfolding split_loop
split_loop-last_word d [] name cur lacks some_ = (
  cur ∷ [],
  rw (==_refl d, split_loop)
      (ap (◌∷◌ cur) (split_loop-last d name [] lacks ∙ last_token_one name some_)),
)
split_loop-last_word d (c ∷ r) name cur lacks some_ = elim (Bool-cases (c == d)) [
  | inl e ↦
      let (ts, h) = split_loop-last_word d r name [] lacks some_ in
      (cur ∷ ts, rw (e, split_loop) (ap (◌∷◌ cur) h))
  | inr e ↦
      let (ts, h) = split_loop-last_word d r name (cur ++ c ∷ []) lacks some_ in
      (ts, rw (e, split_loop) h)
]

before_paren_cut : (s args : Bytes) → Lacks b'(' s → before_paren (s ++ b'(' ∷ args) ≡ s
unfolding before_paren
before_paren_cut s args h =
    rw (find_byte-append b'(' s args h, before_paren) (take-append_length s _)

-- Of a short name made of a text without a parenthesis, a space, a nonempty word without space
-- and parenthesis, and a parenthesis with what follows it, the function is given the word.
pub function_name-last_word :
    (ret name args : Bytes)
    → Lacks b'(' ret
    → Lacks b'(' name
    → Lacks b' ' name
    → name ≢ []
    → function_name ((ret ++ b' ' ∷ name) ++ b'(' ∷ args) ≡ some name
unfolding function_name split
function_name-last_word ret name args ret_paren paren space some_ =
    let (ts, words) = split_loop-last_word b' ' ret name [] space some_ in
    let whole = Lacks-append b'(' ret (b' ' ∷ name) ret_paren (omega arith, paren) in
    rw (before_paren_cut (ret ++ b' ' ∷ name) args whole, words) (get_last?-append ts name)

split-nil : (s : Bytes) (d : ℕ) → split s d ≡ [] → s ≡ []
split-nil s d e = elim (split-Rejoins d s) [
  | inl h ↦ sym h ∙ ap (terminated d) e
  | inr h ↦ absurd (concat-ne-nil d s (sym h ∙ ap (terminated d) e))
]

-- The words of a short name are missing exactly if nothing stands before its first parenthesis.
pub function_name-none : (name : Bytes) → (function_name name ≡ none) ↔ (before_paren name ≡ [])
unfolding function_name
function_name-none name = (
  λ e. split-nil (before_paren name) b' ' (get_last?-none _ e),
  λ e. rw e (unfold split split_loop in refl),
)

before_paren-cons :
    (c : ℕ) (s : Bytes) → before_paren (c ∷ s) ≡ (if c == b'(' then [] else c ∷ before_paren s)
unfolding before_paren
before_paren-cons c s = ground arith

before_paren-Lacks : (s : Bytes) → Lacks b'(' (before_paren s)
before_paren-Lacks [] = unfold before_paren in tt
before_paren-Lacks (c ∷ s) = elim (Bool-cases (c == b'(')) [
  | inl e ↦ rw (before_paren-cons, e) tt
  | inr e ↦ rw (before_paren-cons, e) (ground arith, before_paren-Lacks s)
]

-- The name holds no space and no parenthesis.
pub function_name-Lacks :
    (name : Bytes) {f : Bytes} → function_name name ≡ some f → Lacks b' ' f × Lacks b'(' f
unfolding function_name split
function_name-Lacks name e = (
  get_last?-All (Lacks b' ') _ (split_loop-Lacks b' ' (before_paren name) [] tt) e,
  get_last?-All (Lacks b'(') _
      (split_loop-All (λ c. c ≢ b'(') b' ' (before_paren name) [] (before_paren-Lacks name) tt) e,
)
