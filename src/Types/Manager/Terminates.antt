-- ===== src/Types/Manager/Terminates.antt =====
-- `findByTypeInfo` ends: induction on the fuel, by the cost of a type. A structure is then found
-- again by its name.
use yagi.Common.{ℕ, zero, suc, ◌+◌, ◌*◌, ◌<◌, ◌≡◌, refl, true, false, length, arith}
use yagi.Types.Factory.{TypeFactory, Glb}
use yagi.Types.Tinfo.{Tinfo}
use yagi.Types.Manager.{Shape, parse_as, shape_of, find_by_type_info, parse_type_info}
use yagi.Types.Manager.Monad.{M}
use yagi.Types.Manager.Ends.{is_finished}
use yagi.Types.Manager.Fuel.{Ranked, cost-bound, shape_of-struct, shape_of-struct}
use yagi.Types.Manager.Find.{ParseEnds, find-EndsAt}
use yagi.Types.Manager.Shapes.{parse_as-EndsAt, parse_struct-EndsAt_made}

module _ (ida : Tinfo) (factory : TypeFactory) (glb : Glb) (ranked : Ranked ida) where
  open ida use {T}
  open factory use {S, Datatype, has_struct}

  pub parse_type_info-EndsAt :
      (fuel : ℕ) → ParseEnds ida factory glb ranked fuel (parse_type_info ida factory glb fuel)
  unfolding parse_type_info
  parse_type_info-EndsAt zero t s l before = ground arith
  parse_type_info-EndsAt (suc fuel) t s l before =
      parse_as-EndsAt ida factory glb ranked fuel
        (find_by_type_info ida factory glb (parse_type_info ida factory glb fuel))
        (find-EndsAt ida factory glb ranked fuel (parse_type_info ida factory glb fuel)
          (parse_type_info-EndsAt fuel))
        t s l (shape_of ida t) refl before

  -- Where pointers, arrays and functions are made of types of a smaller rank, up to a bound, and
  -- the structures, whose members may be any type, have names from a list, finding a type with
  -- fuel above (structures) * (bound + 1) + bound ends with fuel left, with a type or for want of
  -- a prototype model.
  pub find_by_type_info-ends :
      (fuel : ℕ) (t : T) (s : S)
      → length ranked.structs * suc ranked.bound + ranked.bound < fuel
      → is_finished (find_by_type_info ida factory glb (parse_type_info ida factory glb fuel) t s).0
        ≡ true
  find_by_type_info-ends fuel t s l =
      (find-EndsAt ida factory glb ranked fuel (parse_type_info ida factory glb fuel)
        (parse_type_info-EndsAt fuel) t s (omega (arith, cost-bound ida factory ranked t s, l))).0

  -- Finding with the fuel below.
  abbrev pub find_below : ℕ → T → M S Datatype
  find_below fuel = find_by_type_info ida factory glb (parse_type_info ida factory glb fuel)

  pub parse_struct-known :
      (fuel : ℕ) (t : T) (s : S)
      → length ranked.structs * suc ranked.bound + ranked.bound < suc fuel
      → shape_of ida t ≡ Shape.struct
      → has_struct (ida.print t) s ≡ false
      → has_struct (ida.print t) (parse_as ida factory glb (find_below fuel) Shape.struct t s).1
        ≡ true
  unfolding parse_as
  parse_struct-known fuel t s l is before =
      let (ends, keeps) =
        parse_struct-EndsAt_made ida factory glb ranked fuel (find_below fuel)
          (find-EndsAt ida factory glb ranked fuel (parse_type_info ida factory glb fuel)
            (parse_type_info-EndsAt fuel))
          t s (omega (arith, cost-bound ida factory ranked t s, l)) (shape_of-struct ida t is)
          before in
      keeps (ida.print t) (factory.has_struct-get_type_struct (ida.print t) s)
