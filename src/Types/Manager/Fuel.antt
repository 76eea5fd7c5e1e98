-- ===== src/Types/Manager/Fuel.antt =====
-- The depth of the calls of `parseTypeInfo`, and fuel that is enough for it.
use yagi.Common.{
  ℕ, suc, ◌+◌, ◌*◌, ◌≤◌, ◌<◌, ◌≡◌, refl, Bool, true, false, List, length, some, Bytes, arith, All,
}
use native.Mathlib.Nat.{mul-le-mul_right}
use yagi.Types.Factory.{TypeFactory}
use yagi.Types.Tinfo.{Tinfo, get_func_prototype, if_kind, to_ptr, to_struct, to_func, to_array}
use yagi.Types.Manager.{Shape, shape_of, has_value}
use yagi.Types.Manager.Ends.{Keeps, uncached, uncached-le, uncached-lt, uncached-length, listed}

-- A type is made of types of a smaller rank, but for the members of a structure; the structures
-- are those of a list. A named type prints as its name. The rank is one of the printed name.
pub record Ranked (ida : Tinfo) : Type 0 where
  pub structs : List Bytes
  pub rank : Bytes → ℕ
  pub bound : ℕ
  pub rank-bound : (t : ida.T) → rank (ida.print t) ≤ bound
  pub print-named : (n : Bytes) (t : ida.T) → ida.get_named_type n ≡ some t → ida.print t ≡ n
  pub struct-listed : (t : ida.T) → ida.is_struct t ≡ true → listed (ida.print t) structs ≡ true
  pub rank-pointed :
      (t : ida.T)
      → ida.is_ptr t ≡ true
      → rank (ida.print (ida.get_pointed_object t)) < rank (ida.print t)
  pub rank-element :
      (t : ida.T)
      → ida.is_array t ≡ true
      → rank (ida.print (ida.get_array_element t)) < rank (ida.print t)
  pub rank-prototype :
      (t : ida.T)
      → ida.is_func t ≡ true
      → All (λ u. rank (ida.print u) < rank (ida.print t)) (get_func_prototype ida t)

-- The tests that a shape passed.
module _ (ida : Tinfo) where
  has_value-if_kind : (b : Bool) (t : ida.T) → has_value (if_kind ida b t) ≡ b
  has_value-if_kind true t = refl
  has_value-if_kind false t = refl

  pub shape_of-ptr : (t : ida.T) → shape_of ida t ≡ Shape.ptr → ida.is_ptr t ≡ true
  unfolding shape_of to_ptr to_struct to_func to_array
  shape_of-ptr t e = ground (arith, has_value-if_kind (ida.is_ptr t) t)

  pub shape_of-struct : (t : ida.T) → shape_of ida t ≡ Shape.struct → ida.is_struct t ≡ true
  unfolding shape_of to_ptr to_struct to_func to_array
  shape_of-struct t e = ground (arith, has_value-if_kind (ida.is_struct t) t)

  pub shape_of-func : (t : ida.T) → shape_of ida t ≡ Shape.func → ida.is_func t ≡ true
  unfolding shape_of to_ptr to_struct to_func to_array
  shape_of-func t e = ground (arith, has_value-if_kind (ida.is_func t) t)

  pub shape_of-array : (t : ida.T) → shape_of ida t ≡ Shape.array → ida.is_array t ≡ true
  unfolding shape_of to_ptr to_struct to_func to_array
  shape_of-array t e = ground (arith, has_value-if_kind (ida.is_array t) t)

-- The cost of a type: the structures that the factory does not have, then the rank.
module _ (ida : Tinfo) (factory : TypeFactory) (ranked : Ranked ida) where
  open ida use {T}
  open factory use {S, has_struct}
  open ranked use {rank, structs, bound}

  unfoldable pub cost : T → S → ℕ
  cost t s = uncached factory structs s * suc bound + rank (ida.print t)

  pub cost-smaller_rank :
      (t u : T) (s s' : S)
      → Keeps factory s s'
      → rank (ida.print u) < rank (ida.print t)
      → cost u s' < cost t s
  unfolding cost
  cost-smaller_rank t u s s' k l =
      omega (arith, mul-le-mul_right (suc bound) (uncached-le factory structs s s' k))

  pub cost-new_struct :
      (t u : T) (s s' : S)
      → Keeps factory s s'
      → ida.is_struct t ≡ true
      → has_struct (ida.print t) s ≡ false
      → has_struct (ida.print t) s' ≡ true
      → cost u s' < cost t s
  unfolding cost
  cost-new_struct t u s s' k is before now =
      let fewer : uncached factory structs s' < uncached factory structs s =
        uncached-lt factory (ida.print t) structs s s' k (ranked.struct-listed t is) before now in
      omega (arith, mul-le-mul_right (suc bound) fewer, ranked.rank-bound u)

  pub cost-bound : (t : T) (s : S) → cost t s ≤ length structs * suc bound + bound
  unfolding cost
  cost-bound t s =
      omega (
        arith,
        mul-le-mul_right (suc bound) (uncached-length factory structs s),
        ranked.rank-bound t,
      )
