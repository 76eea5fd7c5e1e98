-- ===== src/Types/Tinfo/ParamNames.antt =====
-- The names that the parameters of a function get.
use yagi.Common.{
  ℕ, ◌+◌, ◌-◌, ◌*◌, ◌%◌, ◌^◌, ◌<◌, ◌≡◌, ◌≢◌, zero, suc, refl, sym, ap, ◌∙◌, List, [], ◌∷◌, Bytes,
  length, All, get_or, arith,
}
use yagi.Types.Tinfo.{decimal, param_name, param_names_from}

-- The number that a list of decimal digits spells.
value : ℕ → Bytes → ℕ
value acc [] = acc
value acc (c ∷ s) = value (acc * 10 + (c - b'0')) s

value-decimal : (n : ℕ) → n < 2 ^ 16 → value 0 (decimal n) ≡ n
unfolding decimal value
value-decimal n h = ground (arith)

decimal_injective : (m n : ℕ) → m < 2 ^ 16 → n < 2 ^ 16 → decimal m ≡ decimal n → m ≡ n
decimal_injective m n hm hn e = sym (value-decimal m hm) ∙ (ap (value 0) e ∙ value-decimal n hn)

param_name_ne : (index : ℕ) (name : Bytes) → param_name index name ≢ []
unfolding param_name
param_name_ne index [] e = cc
param_name_ne index (c ∷ name) e = cc

module _ {T : Type 0} where
  abbrev pub arg_name : List (Bytes × T) → ℕ → Bytes
  arg_name [] i = []
  arg_name ((name, type) ∷ args) zero = name
  arg_name ((name, type) ∷ args) (suc i) = arg_name args i

  get_or-param_names_from :
      (start i : ℕ) (args : List (Bytes × T))
      → i < length args
      → start + length args < 2 ^ 16
      → get_or (param_names_from start args) i [] ≡ param_name (start + i) (arg_name args i)
  unfolding param_names_from
  get_or-param_names_from start i [] h fits = absurd (omega arith)
  get_or-param_names_from start zero ((name, type) ∷ args) h fits =
      ap (λ n. param_name n name) (omega arith)
  get_or-param_names_from start (suc i) ((name, type) ∷ args) h fits =
      let next : (start + 1) % 2 ^ 16 ≡ start + 1 = omega arith in
      rw next (
        get_or-param_names_from (start + 1) i args (omega arith) (omega arith)
        ∙ ap (λ n. param_name n (arg_name args i)) (omega arith))

  pub length-param_names_from :
      (start : ℕ) (args : List (Bytes × T)) → length (param_names_from start args) ≡ length args
  unfolding param_names_from
  length-param_names_from start [] = refl
  length-param_names_from start ((name, type) ∷ args) =
      ap suc (length-param_names_from ((start + 1) % 2 ^ 16) args)

  pub param_names_from-ne :
      (start : ℕ) (args : List (Bytes × T)) → All (λ name. name ≢ []) (param_names_from start args)
  unfolding param_names_from
  param_names_from-ne start [] = tt
  param_names_from-ne start ((name, type) ∷ args) =
      (param_name_ne start name, param_names_from-ne ((start + 1) % 2 ^ 16) args)

  unnamed-at :
      (i : ℕ) (args : List (Bytes × T))
      → i < length args
      → length args < 2 ^ 16
      → arg_name args i ≡ []
      → get_or (param_names_from 0 args) i [] ≡ b'a' ∷ decimal (i + 1)
  unfolding param_name
  unnamed-at i args h fits unnamed =
      let small : (i + 1) % 2 ^ 16 ≡ i + 1 = omega arith in
      let from : 0 + i ≡ i = omega arith in
      get_or-param_names_from 0 i args h (omega arith) ∙ rw (unnamed, from, small) refl

  -- Of fewer than 2 ^ 16 parameters, two at different places that IDA has no name for are given
  -- different names.
  pub param_names_from_distinct :
      (i j : ℕ) (args : List (Bytes × T))
      → length args < 2 ^ 16
      → i < length args
      → j < length args
      → arg_name args i ≡ []
      → arg_name args j ≡ []
      → i ≢ j
      → get_or (param_names_from 0 args) i [] ≢ get_or (param_names_from 0 args) j []
  param_names_from_distinct i j args fits hi hj ei ej different e =
      let same = sym (unnamed-at i args hi fits ei) ∙ (e ∙ unnamed-at j args hj fits ej) in
      let next : i + 1 ≡ j + 1 =
        decimal_injective (i + 1) (j + 1) (omega arith) (omega arith) (cc) in
      different (omega arith)
