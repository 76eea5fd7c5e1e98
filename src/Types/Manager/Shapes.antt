-- ===== src/Types/Manager/Shapes.antt =====
-- Every shape of a type ends, if finding the types that it is made of does.
use yagi.Common.{
  ℕ, suc, ◌<◌, ◌≡◌, refl, Bool, true, false, List, [], ◌∷◌, Option, none, some, Bytes, arith, All,
}
use yagi.Types.Factory.{TypeFactory, Glb, Metatype}
use yagi.Types.Tinfo.{Tinfo, get_func_prototype, func_calling_conv, get_fields}
use yagi.Types.Manager.{
  Shape, named_base, prototype, parse_func, parse_ptr, parse_struct, parse_field, parse_void,
  parse_unknown, parse_unicode, parse_char, array_of, parse_array, choose_model, parse_as, shape_of,
}
use yagi.Types.Convention.{choose_cc}
use yagi.Types.Manager.Monad.{ok, M, for_each}
use yagi.Types.Manager.Ends.{
  Keeps, EndsAt, EndsFrom, after-EndsAt, EndsAt-Keeps, All-EndsFrom, Keeps-trans, for_each-EndsAt,
}
use yagi.Types.Manager.Fuel.{
  Ranked, cost, cost-smaller_rank, cost-new_struct, shape_of-ptr, shape_of-struct, shape_of-func,
  shape_of-array,
}
use yagi.Types.Manager.Find.{FindEnds}

All-every : {A : Type 0} {P : A → Type 0} (xs : List A) → ((x : A) → P x) → All P xs
All-every [] h = tt
All-every (x ∷ xs) h = (h x, All-every xs h)

module _ (ida : Tinfo) (factory : TypeFactory) (glb : Glb) (ranked : Ranked ida) where
  open ida use {T}
  open factory use {S, Datatype, has_struct}

  -- A type that is made and named.
  made-EndsAt :
      (g : S → Datatype × S) (n : Bytes) (s : S)
      → ((m : Bytes) → has_struct m s ≡ true → has_struct m (g s).1 ≡ true)
      → factory.is_struct (g s).0 ≡ false
      → EndsAt factory s (ok (g s).0, factory.set_name (g s).0 n (g s).1)
  made-EndsAt g n s k is = (refl, λ m p. factory.keeps_name m n (g s).0 (g s).1 is (k m p))

  choose_model-EndsAt :
      (cc_name : Option Bytes) (s : S) → EndsAt factory s (choose_model ida factory glb cc_name s)
  unfolding choose_model
  choose_model-EndsAt none s = (refl, λ n p. p)
  choose_model-EndsAt (some cc_name) s = (refl, λ n p. p)

  module _ (fuel : ℕ) (find : T → M S Datatype) (h : FindEnds ida factory glb ranked fuel find)
      (t : T) (s : S) (enough : cost ida factory ranked t s < suc fuel) where
    smaller-EndsFrom :
        (u : T) → ranked.rank (ida.print u) < ranked.rank (ida.print t) → EndsFrom factory find s u
    smaller-EndsFrom u l s' k =
        h u s' (omega (arith, cost-smaller_rank ida factory ranked t u s s' k l, enough))

    parse_ptr-EndsAt : ida.is_ptr t ≡ true → EndsAt factory s (parse_ptr ida factory glb find t s)
    unfolding parse_ptr
    parse_ptr-EndsAt is =
        after-EndsAt factory s _ (find (ida.get_pointed_object t) s)
          (smaller-EndsFrom (ida.get_pointed_object t) (ranked.rank-pointed t is) s (λ n p. p))
          λ d s' k.
            made-EndsAt (factory.get_type_pointer _ d glb.word_size) (ida.print t) s'
              (λ m. factory.keeps_pointer m _ d glb.word_size s')
              (factory.is_struct-pointer _ d glb.word_size s')

    array_of-EndsAt :
        (b : Bool) → ida.is_array t ≡ true → EndsAt factory s (array_of ida factory glb find b t s)
    unfolding array_of
    array_of-EndsAt true is =
        smaller-EndsFrom (ida.get_array_element t) (ranked.rank-element t is) s (λ n p. p)
    array_of-EndsAt false is =
        after-EndsAt factory s _ (find (ida.get_array_element t) s)
          (smaller-EndsFrom (ida.get_array_element t) (ranked.rank-element t is) s (λ n p. p))
          λ d s' k.
            made-EndsAt (factory.get_type_array _ d) (ida.print t) s'
              (λ m. factory.keeps_array m _ d s') (factory.is_struct-array _ d s')

    smaller-All :
        (types : List T)
        → All (λ u. ranked.rank (ida.print u) < ranked.rank (ida.print t)) types
        → All (EndsFrom factory find s) types
    smaller-All [] ls = ls
    smaller-All (u ∷ types) (l, ls) = (smaller-EndsFrom u l, smaller-All types ls)

    prototype-EndsAt :
        (types : List T)
        → All (λ u. ranked.rank (ida.print u) < ranked.rank (ida.print t)) types
        → EndsAt factory s (prototype ida factory glb find types s)
    unfolding prototype
    prototype-EndsAt [] l = (refl, λ n. factory.keeps_void n s)
    prototype-EndsAt (result ∷ params) (l, ls) =
        let k : Keeps factory s (factory.get_type_void s).1 = λ n. factory.keeps_void n s in
        EndsAt-Keeps factory s (factory.get_type_void s).1 _ k (
          after-EndsAt factory (factory.get_type_void s).1 _
            (find result (factory.get_type_void s).1)
            (smaller-EndsFrom result l (factory.get_type_void s).1 k)
            λ ret s' k'.
              after-EndsAt factory s' _ (for_each find params s')
                (for_each-EndsAt factory find params s' (
                  All-EndsFrom factory find params s s' (Keeps-trans factory s _ s' k k')
                    (smaller-All params ls)))
                λ types s'' k''. (refl, λ n p. p))

    pub parse_func-EndsAt :
        ida.is_func t ≡ true → EndsAt factory s (parse_func ida factory glb find t s)
    unfolding parse_func
    parse_func-EndsAt is =
        after-EndsAt factory s _ (prototype ida factory glb find (get_func_prototype ida t) s)
          (prototype-EndsAt (get_func_prototype ida t) (ranked.rank-prototype t is))
          λ types s' k.
            after-EndsAt factory s' _
              (choose_model ida factory glb
                (choose_cc glb.models glb.default_cc (func_calling_conv ida t)) s')
              (choose_model-EndsAt (choose_cc glb.models glb.default_cc (func_calling_conv ida t))
                s')
              λ cc_name s'' k'.
                made-EndsAt (factory.get_type_code cc_name types.0 types.1 _) (ida.print t) s''
                  (λ m. factory.keeps_code m cc_name types.0 types.1 _ s'')
                  (factory.is_struct-code cc_name types.0 types.1 _ s'')

    -- A member of the structure that was just made.
    field-EndsFrom :
        ida.is_struct t ≡ true
        → has_struct (ida.print t) s ≡ false
        → (field : ℕ × Bytes × T)
        → EndsFrom factory
            (parse_field ida factory glb find)
            (factory.get_type_struct (ida.print t) s).1
            field
    unfolding parse_field
    field-EndsFrom is before (offset, name, u) s' k =
        let made : S = (factory.get_type_struct (ida.print t) s).1 in
        let k' : Keeps factory s s' =
          Keeps-trans factory s made s' (λ m. factory.keeps_struct m (ida.print t) s) k in
        let now : has_struct (ida.print t) s' ≡ true =
          k (ida.print t) (factory.has_struct-get_type_struct (ida.print t) s) in
        after-EndsAt factory s' _ (find u s')
          (h u s'
            (omega (arith, cost-new_struct ida factory ranked t u s s' k' is before now, enough)))
          λ d s'' k''. (refl, λ n p. p)

    -- The structure is there before its members are read, and it stays.
    pub parse_struct-EndsAt_made :
        ida.is_struct t ≡ true
        → has_struct (ida.print t) s ≡ false
        → EndsAt factory
            (factory.get_type_struct (ida.print t) s).1
            (parse_struct ida factory glb find t s)
    unfolding parse_struct
    parse_struct-EndsAt_made is before =
        let made : S = (factory.get_type_struct (ida.print t) s).1 in
        after-EndsAt factory made _
          (for_each (parse_field ida factory glb find) (get_fields ida t) made)
          (for_each-EndsAt factory (parse_field ida factory glb find) (get_fields ida t) made
            (All-every (get_fields ida t) (field-EndsFrom is before)))
          λ fields s' k. (refl, λ n. factory.keeps_fields n fields _ s')

    parse_struct-EndsAt :
        ida.is_struct t ≡ true
        → has_struct (ida.print t) s ≡ false
        → EndsAt factory s (parse_struct ida factory glb find t s)
    parse_struct-EndsAt is before =
        EndsAt-Keeps factory s (factory.get_type_struct (ida.print t) s).1 _
          (λ m. factory.keeps_struct m (ida.print t) s) (parse_struct-EndsAt_made is before)

    named_base-EndsAt :
        (size : ℕ) (meta : Metatype) (n : Bytes)
        → EndsAt factory s (named_base ida factory glb size meta n s)
    unfolding named_base
    named_base-EndsAt size meta n =
        (refl, λ m. factory.keeps_name m n _ s (factory.is_struct-new_base _ meta n))

    pub parse_as-EndsAt :
        (shape : Shape)
        → shape_of ida t ≡ shape
        → has_struct (ida.print t) s ≡ false
        → EndsAt factory s (parse_as ida factory glb find shape t s)
    unfolding parse_as parse_array parse_void parse_unknown parse_unicode parse_char
    parse_as-EndsAt Shape.ptr e before = parse_ptr-EndsAt (shape_of-ptr ida t e)
    parse_as-EndsAt Shape.bool e before = named_base-EndsAt _ Metatype.type_bool (ida.print t)
    parse_as-EndsAt Shape.unicode e before =
        (refl, λ m. factory.keeps_name m (ida.print t) _ s (factory.is_struct-new_unicode _ _))
    parse_as-EndsAt Shape.char e before =
        (refl, λ m. factory.keeps_name m (ida.print t) _ s (factory.is_struct-new_char _))
    parse_as-EndsAt Shape.int e before = named_base-EndsAt _ Metatype.type_int (ida.print t)
    parse_as-EndsAt Shape.float e before = named_base-EndsAt _ Metatype.type_float (ida.print t)
    parse_as-EndsAt Shape.struct e before = parse_struct-EndsAt (shape_of-struct ida t e) before
    parse_as-EndsAt Shape.void e before = named_base-EndsAt _ Metatype.type_void (ida.print t)
    parse_as-EndsAt Shape.func e before = parse_func-EndsAt (shape_of-func ida t e)
    parse_as-EndsAt Shape.array e before = array_of-EndsAt _ (shape_of-array ida t e)
    parse_as-EndsAt Shape.unknown e before = named_base-EndsAt _ Metatype.type_unknown (ida.print t)
