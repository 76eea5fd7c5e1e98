-- ===== src/Architecture/CoreTypes.antt =====
-- `YagiArchitecture::buildTypegrp` of yagi/src/yagiarchitecture.cc: Ghidra's core types.
use yagi.Common.{
  ℕ, ◌≡◌, refl, Bool, true, false, List, [], ◌∷◌, some, none, Option, All, Bytes, codes, bytes_eq,
  if◌then◌else◌,
}

pub data CoreMetatype : Type 0 where
  type_void type_bool type_uint type_int type_float type_unknown type_code : CoreMetatype

-- The arguments of `setCoreType`.
pub record CoreType : Type 0 where
  pub name : Bytes
  pub size : ℕ
  pub meta : CoreMetatype
  pub is_char : Bool

abbrev core_type : Bytes → ℕ → CoreMetatype → Bool → CoreType
core_type name size meta is_char = record {
  name = name;
  size = size;
  meta = meta;
  is_char = is_char;
}

pub core_types : List CoreType
core_types =
    core_type (codes "void") 1 type_void false
    ∷ core_type (codes "bool") 1 type_bool false
    ∷ core_type (codes "uint8_t") 1 type_uint false
    ∷ core_type (codes "uint16_t") 2 type_uint false
    ∷ core_type (codes "uint32_t") 4 type_uint false
    ∷ core_type (codes "uint64_t") 8 type_uint false
    ∷ core_type (codes "char") 1 type_int true
    ∷ core_type (codes "int8_t") 1 type_int false
    ∷ core_type (codes "int16_t") 2 type_int false
    ∷ core_type (codes "int32_t") 4 type_int false
    ∷ core_type (codes "int64_t") 8 type_int false
    ∷ core_type (codes "float") 4 type_float false
    ∷ core_type (codes "double") 8 type_float false
    ∷ core_type (codes "float16") 16 type_float false
    ∷ core_type (codes "__uint8") 1 type_unknown false
    ∷ core_type (codes "__uint16") 2 type_unknown false
    ∷ core_type (codes "__uint32") 4 type_unknown false
    ∷ core_type (codes "__uint64") 8 type_unknown false
    ∷ core_type (codes "code") 1 type_code false
    ∷ []

-- The first core type of a name.
pub named_core_type : Bytes → List CoreType → Option CoreType
named_core_type n [] = none
named_core_type n (t ∷ ts) = if bytes_eq t.name n then some t else named_core_type n ts

-- No two core types have the same name.
pub named_core_type-core_types : All (λ t. named_core_type t.name core_types ≡ some t) core_types
unfolding core_types named_core_type
named_core_type-core_types = (
  refl,
  (
    refl,
    (
      refl,
      (
        refl,
        (
          refl,
          (
            refl,
            (
              refl,
              (
                refl,
                (
                  refl,
                  (
                    refl,
                    (refl, (refl, (refl, (refl, (refl, (refl, (refl, (refl, (refl, tt))))))))),
                  ),
                ),
              ),
            ),
          ),
        ),
      ),
    ),
  ),
)
