-- ===== src/Types/Manager/Ends.antt =====
-- Computations that end with their fuel left and take no structure away.
use yagi.Common.{
  ℕ, suc, ◌≤◌, ◌<◌, ◌≡◌, refl, ap, ◌∙◌, Bool, true, false, ◌||◌, List, [], ◌∷◌, Bytes, bytes_eq,
  bytes_eq→≡, arith, All, length, if◌then◌else◌, Bool-cases, inl, inr, ◌≡◌,
}
use yagi.Types.Factory.{TypeFactory}
use yagi.Types.Manager.Monad.{Result, ok, no_model, out_of_fuel, M, after, for_each}

abbrev pub is_finished : {A : Type 0} → Result A → Bool
is_finished (ok a) = true
is_finished no_model = true
is_finished out_of_fuel = false

abbrev pub listed : Bytes → List Bytes → Bool
listed n [] = false
listed n (m ∷ ns) = bytes_eq m n || listed n ns

module _ (factory : TypeFactory) where
  open factory use {S, has_struct}

  abbrev pub Keeps : S → S → Type 0
  Keeps s s' = (n : Bytes) → has_struct n s ≡ true → has_struct n s' ≡ true

  abbrev pub EndsAt : {A : Type 0} → S → Result A × S → Type 0
  EndsAt s (r, s') = (is_finished r ≡ true) × Keeps s s'

  pub Keeps-trans : (s t u : S) → Keeps s t → Keeps t u → Keeps s u
  Keeps-trans s t u f g n h = g n (f n h)

  pub EndsAt-Keeps : {A : Type 0} (s t : S) (p : Result A × S) → Keeps s t → EndsAt t p → EndsAt s p
  EndsAt-Keeps s t (r, u) k (e, k') = (e, Keeps-trans s t u k k')

  pub after-EndsAt :
      {A B : Type 0} (s : S) (f : A → M S B) (p : Result A × S)
      → EndsAt s p
      → ((a : A) (t : S) → Keeps s t → EndsAt t (f a t))
      → EndsAt s (after f p)
  after-EndsAt s f (ok a, t) (e, k) h = EndsAt-Keeps s t (f a t) k (h a t k)
  after-EndsAt s f (no_model, t) (e, k) h = (e, k)
  after-EndsAt s f (out_of_fuel, t) (e, k) h = (e, k)

  -- What ends from a state on.
  abbrev pub EndsFrom : {A B : Type 0} → (A → M S B) → S → A → Type 0
  EndsFrom f s x = (t : S) → Keeps s t → EndsAt t (f x t)

  pub All-EndsFrom :
      {A B : Type 0} (f : A → M S B) (xs : List A) (s t : S)
      → Keeps s t
      → All (EndsFrom f s) xs
      → All (EndsFrom f t) xs
  All-EndsFrom f [] s t k h = h
  All-EndsFrom f (x ∷ xs) s t k (h, hs) =
      (λ u k'. h u (Keeps-trans s t u k k'), All-EndsFrom f xs s t k hs)

  pub for_each-EndsAt :
      {A B : Type 0} (f : A → M S B) (xs : List A) (s : S)
      → All (EndsFrom f s) xs
      → EndsAt s (for_each f xs s)
  unfolding for_each
  for_each-EndsAt f [] s h = (refl, λ n p. p)
  for_each-EndsAt f (x ∷ xs) s (h, hs) = after-EndsAt s _ (f x s) (h s (λ n p. p)) λ y t k.
      after-EndsAt t _ (for_each f xs t) (for_each-EndsAt f xs t (All-EndsFrom f xs s t k hs))
        λ ys u k'. (refl, λ n p. p)

  -- The structures of a list that the factory does not have.
  pub uncached : List Bytes → S → ℕ
  uncached [] s = 0
  uncached (n ∷ ns) s = let rest = uncached ns s in if has_struct n s then rest else suc rest

  pub uncached-le : (ns : List Bytes) (s t : S) → Keeps s t → uncached ns t ≤ uncached ns s
  unfolding uncached
  uncached-le [] s t k = omega arith
  uncached-le (n ∷ ns) s t k = ground (arith, uncached-le ns s t k, k n)

  -- A structure that is new to the factory leaves fewer.
  pub uncached-lt :
      (n : Bytes) (ns : List Bytes) (s t : S)
      → Keeps s t
      → listed n ns ≡ true
      → has_struct n s ≡ false
      → has_struct n t ≡ true
      → uncached ns t < uncached ns s
  unfolding uncached
  uncached-lt n [] s t k l before now = cc
  uncached-lt n (m ∷ ns) s t k l before now = elim (Bool-cases (bytes_eq m n)) [
    | inl e ↦
        let known : m ≡ n = bytes_eq→≡ m n e in
        let missed : has_struct m s ≡ false = ap (λ x. has_struct x s) known ∙ before in
        let found : has_struct m t ≡ true = ap (λ x. has_struct x t) known ∙ now in
        ground (arith, uncached-le ns s t k, missed, found)
    | inr e ↦
        let rest : listed n ns ≡ true = ground arith in
        ground (arith, uncached-lt n ns s t k rest before now, k m)
  ]

  pub uncached-length : (ns : List Bytes) (s : S) → uncached ns s ≤ length ns
  unfolding uncached
  uncached-length [] s = omega arith
  uncached-length (n ∷ ns) s = ground (arith, uncached-length ns s)
