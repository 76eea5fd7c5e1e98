-- ===== src/Types/Manager/Find.antt =====
-- The ways `findByTypeInfo` finds a type, and that it ends where parsing ends.
use yagi.Common.{
  ℕ, ◌<◌, ◌≡◌, refl, ap, ◌∙◌, false, none, some, Bytes, inl, inr, Bool-cases, Option-cases,
}
use yagi.Types.Factory.{TypeFactory, Glb}
use yagi.Types.Tinfo.{Tinfo, build_named}
use yagi.Types.Manager.{find_by_id, find_by_type_info}
use yagi.Types.Manager.Monad.{ok, M}
use yagi.Types.Manager.Ends.{EndsAt}
use yagi.Types.Manager.Fuel.{Ranked, cost}

module _ (ida : Tinfo) (factory : TypeFactory) (glb : Glb) (ranked : Ranked ida) where
  open ida use {T}
  open factory use {S, Datatype, has_struct}

  cost-same :
      {fuel : ℕ} (t u : T) (s : S)
      → ida.print u ≡ ida.print t
      → cost ida factory ranked t s < fuel
      → cost ida factory ranked u s < fuel
  unfolding cost
  cost-same t u s e l = rw e l

  -- What is not found by its name is no structure of the factory.
  pub missed : (n : Bytes) (s : S) → factory.find_by_id_local n s ≡ none → has_struct n s ≡ false
  missed n s e = elim (Bool-cases (has_struct n s)) [
    | inl h ↦ let (d, f) = factory.find-has_struct n s h in cc
    | inr h ↦ h
  ]

  -- Parsing ends where the cost of the type is below the fuel and it was not found.
  abbrev pub ParseEnds : ℕ → (T → M S Datatype) → Type 0
  ParseEnds fuel parse =
      (t : T) (s : S)
      → cost ida factory ranked t s < fuel
      → has_struct (ida.print t) s ≡ false
      → EndsAt factory s (parse t s)

  abbrev pub FindEnds : ℕ → (T → M S Datatype) → Type 0
  FindEnds fuel find =
      (t : T) (s : S) → cost ida factory ranked t s < fuel → EndsAt factory s (find t s)

  -- The three ways to find a type.
  pub find-cached :
      (parse : T → M S Datatype) (t : T) (s : S) (d : Datatype)
      → factory.find_by_id_local (ida.print t) s ≡ some d
      → find_by_type_info ida factory glb parse t s ≡ (ok d, s)
  unfolding find_by_type_info find_by_id
  find-cached parse t s d e = simp (find_by_type_info, find_by_id, e)

  pub find-named :
      (parse : T → M S Datatype) (t u : T) (s : S)
      → factory.find_by_id_local (ida.print t) s ≡ none
      → ida.get_named_type (ida.print t) ≡ some u
      → find_by_type_info ida factory glb parse t s ≡ parse u s
  unfolding find_by_type_info find_by_id build_named
  find-named parse t u s e e' = simp (find_by_type_info, find_by_id, build_named, e, e')

  pub find-unknown :
      (parse : T → M S Datatype) (t : T) (s : S)
      → factory.find_by_id_local (ida.print t) s ≡ none
      → ida.get_named_type (ida.print t) ≡ none
      → find_by_type_info ida factory glb parse t s ≡ parse t s
  unfolding find_by_type_info find_by_id build_named
  find-unknown parse t s e e' = simp (find_by_type_info, find_by_id, build_named, e, e')

  pub find-EndsAt :
      (fuel : ℕ) (parse : T → M S Datatype)
      → ParseEnds fuel parse
      → FindEnds fuel (find_by_type_info ida factory glb parse)
  find-EndsAt fuel parse h t s l = elim (Option-cases (factory.find_by_id_local (ida.print t) s)) [
    | inl e ↦ elim (Option-cases (ida.get_named_type (ida.print t))) [
      | inl e' ↦ rw (find-unknown parse t s e e') (h t s l (missed (ida.print t) s e))
      | inr (u, e') ↦
          let same : ida.print u ≡ ida.print t = ranked.print-named (ida.print t) u e' in
          rw (find-named parse t u s e e') (
            h u s (cost-same t u s same l)
              (ap (λ n. has_struct n s) same ∙ missed (ida.print t) s e))
    ]
    | inr (d, e) ↦ rw (find-cached parse t s d e) (refl, λ n p. p)
  ]
