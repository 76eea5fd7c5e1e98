-- ===== src/Types/Manager/Update/Ends.antt =====
-- What `update` does to a function.
use yagi.Common.{
  ℕ, suc, ◌+◌, ◌*◌, ◌<◌, ◌≡◌, refl, ◌⊎◌, inl, inr, true, false, List, none, some, Bytes, length,
  arith, Bool-cases, Option-cases, ◌==◌, ==_iff,
}
use yagi.Types.Factory.{TypeFactory, Glb}
use yagi.Types.Tinfo.{Tinfo, to_ptr, to_func, build_at, get_func_param_name}
use yagi.Types.Manager.{parse_func, find_by_type_info, parse_type_info}
use yagi.Types.Manager.Monad.{Result, ok, no_model, out_of_fuel, M, after}
use yagi.Types.Manager.Ends.{is_finished, EndsAt}
use yagi.Types.Manager.Fuel.{Ranked, cost-bound}
use yagi.Types.Manager.Find.{find-EndsAt}
use yagi.Types.Manager.Shapes.{parse_func-EndsAt}
use yagi.Types.Manager.Terminates.{parse_type_info-EndsAt}
use yagi.Types.Manager.Update.{
  PrototypePieces, Updated, no_type, not_func, set_pieces, unchanged, named, object_of, renamed,
  update_func, update_type, update,
}

module _ (ida : Tinfo) (factory : TypeFactory) (glb : Glb) (proto : PrototypePieces factory) where
  open ida use {T}
  open factory use {S}
  open proto use {P}

  -- A function of a type, or what a pointer to it points to.
  abbrev pub Leads : T → T → Type 0
  Leads t f =
      ((ida.is_ptr t ≡ false) × (f ≡ t)) ⊎ ((ida.is_ptr t ≡ true) × (f ≡ ida.get_pointed_object t))

  -- The names are given if there are as many as in the pieces, and nothing else in them changes;
  -- for another number of names nothing changes.
  abbrev pub Renames : List Bytes → P → Updated P → Type 0
  Renames names pieces o =
      ((length names ≡ length (proto.innames pieces))
        × ((p : P) × (o ≡ set_pieces p)
            × (proto.innames p ≡ names)
            × (proto.others p ≡ proto.others pieces)))
      ⊎ ((¬ (length names ≡ length (proto.innames pieces))) × (o ≡ unchanged))

  -- What becomes of a function whose type is parsed: it has no model for its convention, or the
  -- pieces of the type get the names of its parameters.
  abbrev pub Parsed : T → Result factory.Datatype × S → Result (Updated P) → Type 0
  Parsed f parsed o =
      ((parsed.0 ≡ no_model) × (o ≡ no_model))
      ⊎ ((type : factory.Datatype) × (u : Updated P) × (parsed.0 ≡ ok type)
          × (o ≡ ok u)
          × Renames (get_func_param_name ida f) (proto.get_pieces type parsed.1) u)

  -- What becomes of the function at an address, with the fuel that its type is parsed with.
  abbrev pub Updates : ℕ → ℕ → S → Result (Updated P) → Type 0
  Updates fuel ea s o =
      ((build_at ida ea ≡ none) × (o ≡ ok no_type))
      ⊎ ((t : T) × (f : T) × (build_at ida ea ≡ some t)
          × Leads t f
          × (((ida.is_func f ≡ false) × (o ≡ ok not_func))
              ⊎ ((ida.is_func f ≡ true)
                  × Parsed f
                      (parse_func ida factory glb
                        (find_by_type_info ida factory glb (parse_type_info ida factory glb fuel)) f
                        s)
                      o)))

  renamed-Renames :
      (names : List Bytes) (pieces : P)
      → Renames names pieces (renamed ida factory glb proto names pieces)
  unfolding renamed
  renamed-Renames names pieces = elim (Bool-cases (length names == length (proto.innames pieces))) [
    | inl e ↦ rw e (
        inl (
          (==_iff (length names) (length (proto.innames pieces))).0 e,
          (
            proto.with_innames names pieces,
            refl,
            proto.innames-with_innames names pieces,
            proto.others-with_innames names pieces,
          ),
        ))
    | inr e ↦ rw e (inr (λ is. ground arith, refl))
  ]

  named-Parsed :
      (f : T) (parsed : Result factory.Datatype × S)
      → is_finished parsed.0 ≡ true
      → Parsed f parsed (after (named ida factory glb proto f) parsed).0
  unfolding named
  named-Parsed f (ok type, s) ends =
      let pieces = proto.get_pieces type s in
      inr (
        type,
        renamed ida factory glb proto (get_func_param_name ida f) pieces,
        refl,
        refl,
        renamed-Renames (get_func_param_name ida f) pieces,
      )
  named-Parsed f (no_model, s) ends = inl (refl, refl)
  named-Parsed f (out_of_fuel, s) ends = cc

  object_of-Leads : (t : T) → Leads t (object_of ida factory glb proto (to_ptr ida t) t)
  unfolding to_ptr object_of
  object_of-Leads t = elim (Bool-cases (ida.is_ptr t)) [
    | inl e ↦ rw e (inr (refl, refl))
    | inr e ↦ rw e (inl (refl, refl))
  ]

  module _ (ranked : Ranked ida) (fuel : ℕ) (s : S)
      (enough : length ranked.structs * suc ranked.bound + ranked.bound < fuel) where
    abbrev parsed : T → Result factory.Datatype × S
    parsed f =
        parse_func ida factory glb
          (find_by_type_info ida factory glb (parse_type_info ida factory glb fuel)) f s

    parsed-EndsAt : (f : T) → ida.is_func f ≡ true → EndsAt factory s (parsed f)
    parsed-EndsAt f is =
        let find : T → M S factory.Datatype =
          find_by_type_info ida factory glb (parse_type_info ida factory glb fuel) in
        parse_func-EndsAt ida factory glb ranked fuel find
          (find-EndsAt ida factory glb ranked fuel (parse_type_info ida factory glb fuel)
            (parse_type_info-EndsAt ida factory glb ranked fuel))
          f s (omega (arith, cost-bound ida factory ranked f s, enough)) is

    -- A type that leads to itself or through a pointer to what may be a function.
    update_func-Parsed :
        (f : T)
        → (((ida.is_func f ≡ false)
              × ((update_func ida factory glb proto fuel (to_func ida f) s).0 ≡ ok not_func))
            ⊎ ((ida.is_func f ≡ true)
                × Parsed f (parsed f) (update_func ida factory glb proto fuel (to_func ida f) s).0))
    unfolding update_func to_func
    update_func-Parsed f = elim (Bool-cases (ida.is_func f)) [
      | inl e ↦ rw e (inr (refl, named-Parsed f (parsed f) (parsed-EndsAt f e).0))
      | inr e ↦ rw e (inl (refl, refl))
    ]

    -- Where pointers, arrays and functions are made of types of a smaller rank, up to a bound,
    -- and the structures have names from a list, with fuel above (structures) * (bound + 1) +
    -- bound, `update` at any address does nothing if IDA has no type there. It gives a message if
    -- that type, or what it points to, is no function; it ends as the parsing of the function
    -- does if that finds no model; and else it sets the pieces of the parsed type with the names
    -- of the function's parameters and nothing else changed, if there are as many names as in the
    -- pieces, and changes nothing if not.
    pub update-Updates : (ea : ℕ) → Updates fuel ea s (update ida factory glb proto fuel ea s).0
    unfolding update update_type
    update-Updates ea = elim (Option-cases (build_at ida ea)) [
      | inl e ↦ rw e (inl (refl, refl))
      | inr (t, e) ↦ rw e (
          inr (
            t,
            object_of ida factory glb proto (to_ptr ida t) t,
            refl,
            object_of-Leads t,
            update_func-Parsed (object_of ida factory glb proto (to_ptr ida t) t),
          ))
    ]
