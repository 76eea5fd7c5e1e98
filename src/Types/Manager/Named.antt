-- ===== src/Types/Manager/Named.antt =====
-- A type that was found is found again by its name.
use yagi.Common.{
  ℕ, suc, ◌+◌, ◌*◌, ◌<◌, ◌≡◌, ◌≢◌, refl, sym, ap, ◌∙◌, subst, true, false, length, some, Bytes,
  ◌==◌, ◌⊎◌, inl, inr, Option-cases,
}
use yagi.Types.Factory.{TypeFactory, Glb}
use yagi.Types.Tinfo.{Tinfo, get_func_prototype, func_calling_conv}
use yagi.Types.Convention.{choose_cc}
use yagi.Types.Manager.{
  Shape, shape_of, parse_as, parse_ptr, parse_func, parse_array, array_of, parse_void,
  parse_unknown, parse_unicode, parse_char, prototype, choose_model, named_base, find_by_type_info,
  parse_type_info,
}
use yagi.Types.Manager.Monad.{Result, ok, no_model, out_of_fuel, M, after}
use yagi.Types.Manager.Fuel.{Ranked}
use yagi.Types.Manager.Find.{missed, find-cached, find-named, find-unknown}
use yagi.Types.Manager.Terminates.{find_below, parse_struct-known}

module _ (factory : TypeFactory) where
  open factory use {S, Datatype}

  abbrev pub Found : Bytes → S → Type 0
  Found n s = (d : Datatype) × (factory.find_by_id_local n s ≡ some d)

  -- A name is found where the computation has a value.
  abbrev FoundAt : {A : Type 0} → Bytes → Result A × S → Type 0
  FoundAt n (ok a, s) = Found n s
  FoundAt n (no_model, s) = true ≡ true
  FoundAt n (out_of_fuel, s) = true ≡ true

  Found-FoundAt : {A : Type 0} (n : Bytes) (r : Result A × S) → Found n r.1 → FoundAt n r
  Found-FoundAt n (ok a, s) h = h
  Found-FoundAt n (no_model, s) h = refl
  Found-FoundAt n (out_of_fuel, s) h = refl

  after-FoundAt :
      {A B : Type 0} (n : Bytes) (f : A → M S B) (r : Result A × S)
      → ((a : A) (s : S) → FoundAt n (f a s))
      → FoundAt n (after f r)
  after-FoundAt n f (ok a, s) h = h a s
  after-FoundAt n f (no_model, s) h = refl
  after-FoundAt n f (out_of_fuel, s) h = refl

module _ (ida : Tinfo) (factory : TypeFactory) (glb : Glb) where
  open ida use {T}
  open factory use {S, Datatype, find-set_name}

  module _ (find : T → M S Datatype) (t : T) (s : S) where
    parse_func-FoundAt : FoundAt factory (ida.print t) (parse_func ida factory glb find t s)
    unfolding parse_func
    parse_func-FoundAt =
        after-FoundAt factory (ida.print t) _
          (prototype ida factory glb find (get_func_prototype ida t) s)
          λ types s'.
            after-FoundAt factory (ida.print t) _
              (choose_model ida factory glb
                (choose_cc glb.models glb.default_cc (func_calling_conv ida t)) s')
              λ cc_name s''. find-set_name (ida.print t) _ _

    array_of-FoundAt : FoundAt factory (ida.print t) (array_of ida factory glb find false t s)
    unfolding array_of
    array_of-FoundAt =
        after-FoundAt factory (ida.print t) _ (find (ida.get_array_element t) s)
          λ element s'. find-set_name (ida.print t) _ _

    -- Every shape is named but a structure, which has its name, and an array of size 0, which is
    -- its element.
    parse_as-FoundAt :
        (shape : Shape)
        → shape ≢ Shape.struct
        → (shape ≡ Shape.array → (ida.get_size t == 0) ≡ false)
        → FoundAt factory (ida.print t) (parse_as ida factory glb find shape t s)
    unfolding parse_as parse_ptr parse_array parse_void parse_unknown parse_unicode parse_char
        named_base
    parse_as-FoundAt Shape.ptr other sized =
        after-FoundAt factory (ida.print t) _ (find (ida.get_pointed_object t) s)
          λ pointed s'. find-set_name (ida.print t) _ _
    parse_as-FoundAt Shape.bool other sized = find-set_name (ida.print t) _ s
    parse_as-FoundAt Shape.unicode other sized = find-set_name (ida.print t) _ s
    parse_as-FoundAt Shape.char other sized = find-set_name (ida.print t) _ s
    parse_as-FoundAt Shape.int other sized = find-set_name (ida.print t) _ s
    parse_as-FoundAt Shape.float other sized = find-set_name (ida.print t) _ s
    parse_as-FoundAt Shape.struct other sized = absurd (other refl)
    parse_as-FoundAt Shape.void other sized = find-set_name (ida.print t) _ s
    parse_as-FoundAt Shape.func other sized = parse_func-FoundAt
    parse_as-FoundAt Shape.array other sized = rw (sized refl) array_of-FoundAt
    parse_as-FoundAt Shape.unknown other sized = find-set_name (ida.print t) _ s

  is_struct_shape : (shape : Shape) → (shape ≡ Shape.struct) ⊎ (shape ≢ Shape.struct)
  is_struct_shape Shape.ptr = inr cc
  is_struct_shape Shape.bool = inr cc
  is_struct_shape Shape.unicode = inr cc
  is_struct_shape Shape.char = inr cc
  is_struct_shape Shape.int = inr cc
  is_struct_shape Shape.float = inr cc
  is_struct_shape Shape.struct = inl refl
  is_struct_shape Shape.void = inr cc
  is_struct_shape Shape.func = inr cc
  is_struct_shape Shape.array = inr cc
  is_struct_shape Shape.unknown = inr cc

  module _ (ranked : Ranked ida) (fuel : ℕ)
      (enough : length ranked.structs * suc ranked.bound + ranked.bound < suc fuel) where
    -- An array of that name has a size.
    abbrev Sized : Bytes → Type 0
    Sized n =
        (t : T) → ida.print t ≡ n → shape_of ida t ≡ Shape.array → (ida.get_size t == 0) ≡ false

    parse_type_info-FoundAt :
        (t : T) (s : S)
        → factory.has_struct (ida.print t) s ≡ false
        → Sized (ida.print t)
        → FoundAt factory (ida.print t) (parse_type_info ida factory glb (suc fuel) t s)
    unfolding parse_type_info
    parse_type_info-FoundAt t s before sized = elim (is_struct_shape (shape_of ida t)) [
      | inl is ↦ Found-FoundAt factory (ida.print t) _ (
          factory.find-has_struct (ida.print t) _ (
            subst
              (λ shape.
                factory.has_struct (ida.print t)
                  (parse_as ida factory glb (find_below ida factory glb ranked fuel) shape t s).1
                ≡ true)
              (sym is) (parse_struct-known ida factory glb ranked fuel t s enough is before)))
      | inr other ↦
          parse_as-FoundAt (find_below ida factory glb ranked fuel) t s (shape_of ida t) other
            (sized t refl)
    ]

    find-FoundAt :
        (t : T) (s : S)
        → Sized (ida.print t)
        → FoundAt factory
            (ida.print t)
            (find_by_type_info ida factory glb (parse_type_info ida factory glb (suc fuel)) t s)
    find-FoundAt t s sized =
        let parse : T → M S Datatype = parse_type_info ida factory glb (suc fuel) in
        elim (Option-cases (factory.find_by_id_local (ida.print t) s)) [
          | inl e ↦ elim (Option-cases (ida.get_named_type (ida.print t))) [
            | inl e' ↦ rw (find-unknown ida factory glb ranked parse t s e e') (
                parse_type_info-FoundAt t s (missed ida factory glb ranked (ida.print t) s e) sized)
            | inr (u, e') ↦
                let same : ida.print u ≡ ida.print t = ranked.print-named (ida.print t) u e' in
                rw (find-named ida factory glb ranked parse t u s e e') (
                  subst (λ n. FoundAt factory n (parse u s)) same
                    (parse_type_info-FoundAt u s
                      (ap (λ n. factory.has_struct n s) same
                        ∙ missed ida factory glb ranked (ida.print t) s e)
                      (λ v e''. sized v (e'' ∙ same))))
          ]
          | inr (d, e) ↦ rw (find-cached ida factory glb ranked parse t s d e) (d, e)
        ]

    -- Where pointers, arrays and functions are made of types of a smaller rank, up to a bound,
    -- and the structures have names from a list, with fuel above (structures) * (bound + 1) +
    -- bound: after finding a type has ended with a type, whatever its shape, also a structure
    -- that points to itself, it is found again by its name, whatever would parse it, and nothing
    -- changes, if no array of that name has the size 0.
    pub find_by_type_info-again :
        (t : T) (s s' : S) (d : Datatype) (parse : T → M S Datatype)
        → ((u : T)
            → ida.print u ≡ ida.print t
            → shape_of ida u ≡ Shape.array
            → (ida.get_size u == 0) ≡ false)
        → find_by_type_info ida factory glb (parse_type_info ida factory glb (suc fuel)) t s
          ≡ (ok d, s')
        → (d' : Datatype) × (find_by_type_info ida factory glb parse t s' ≡ (ok d', s'))
    find_by_type_info-again t s s' d parse sized e =
        let (d', found) = subst (FoundAt factory (ida.print t)) e (find-FoundAt t s sized) in
        (d', find-cached ida factory glb ranked parse t s' d' found)
