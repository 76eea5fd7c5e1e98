-- ===== src/Examples/Factory.antt =====
-- A concrete type factory of Ghidra, a prototype and an architecture.
use yagi.Common.{
  ℕ, zero, suc, ◌≡◌, refl, Bool, true, false, ◌&&◌, ◌||◌, List, [], ◌∷◌, length, Option, none, some,
  Bytes, codes, bytes_eq, bytes_eq_refl, arith, if◌then◌else◌, Bool-cases, inl, inr,
}
use yagi.Types.Factory.{TypeFactory, Glb}
use yagi.Types.Manager.Update.{PrototypePieces}

-- The types of the factory are its state, the latest first: the name, whether it is a structure,
-- and the number of parameters.
pub record NamedType : Type 0 where
  pub name : Bytes
  pub structure : Bool
  pub params : ℕ

abbrev find_named : Bytes → List NamedType → Option NamedType
find_named n [] = none
find_named n (d ∷ s) = if bytes_eq d.name n then some d else find_named n s

abbrev is_known : Bytes → List NamedType → Bool
is_known n [] = false
is_known n (d ∷ s) = d.structure && bytes_eq d.name n || is_known n s

pub find_named-is_known :
    (n : Bytes) (s : List NamedType)
    → is_known n s ≡ true
    → (d : NamedType) × (find_named n s ≡ some d)
find_named-is_known n [] e = cc
find_named-is_known n (d ∷ s) e = elim (Bool-cases (bytes_eq d.name n)) [
  | inl is ↦ (d, rw is refl)
  | inr is ↦
      let rest : is_known n s ≡ true = ground arith in
      let (d', found) = find_named-is_known n s rest in (d', rw is found)
]

pub is_known-cons :
    (n : Bytes) (d : NamedType) (s : List NamedType)
    → is_known n s ≡ true
    → is_known n (d ∷ s) ≡ true
is_known-cons n d s e = ground arith

abbrev unnamed : ℕ → NamedType
unnamed n = record { name = []; structure = false; params = n }

abbrev struct_named : Bytes → NamedType
struct_named n = record { name = n; structure = true; params = 0 }

abbrev pub named_types : TypeFactory
named_types = record {
  S = List NamedType;
  Datatype = NamedType;
  find_by_id_local = find_named;
  new_base = λ size meta n. unnamed 0;
  new_unicode = λ n size. unnamed 0;
  new_char = λ n. unnamed 0;
  get_type_void = λ s. (unnamed 0, s);
  get_type_pointer = λ size d word_size s. (unnamed 0, s);
  get_type_struct = λ n s. (struct_named n, struct_named n ∷ s);
  get_type_array = λ size d s. (unnamed 0, s);
  get_type_code = λ cc_name ret params dots s. (unnamed (length params), s);
  set_fields = λ fields d s. s;
  set_name = λ d n s. record { name = n; structure = d.structure; params = d.params } ∷ s;
  has_struct = is_known;
  is_struct = λ d. d.structure;
  find-set_name = λ n d s.
      (record { name = n; structure = d.structure; params = d.params }, rw (bytes_eq_refl n) refl);
  find-has_struct = find_named-is_known;
  has_struct-get_type_struct = λ n s. rw (bytes_eq_refl n) refl;
  keeps_void = λ n s e. e;
  keeps_pointer = λ n size d word_size s e. e;
  keeps_struct = λ n m s e. is_known-cons n (struct_named m) s e;
  keeps_array = λ n size d s e. e;
  keeps_code = λ n cc_name ret params dots s e. e;
  keeps_fields = λ n fields d s e. e;
  keeps_name = λ n m d s is e.
      is_known-cons n (record { name = m; structure = d.structure; params = d.params }) s e;
  is_struct-new_base = λ size meta n. refl;
  is_struct-new_unicode = λ n size. refl;
  is_struct-new_char = λ n. refl;
  is_struct-pointer = λ size d word_size s. refl;
  is_struct-array = λ size d s. refl;
  is_struct-code = λ cc_name ret params dots s. refl;
}

abbrev blank_names : ℕ → List Bytes
blank_names zero = []
blank_names (suc n) = [] ∷ blank_names n

abbrev pub named_pieces : PrototypePieces named_types
named_pieces = record {
  P = List Bytes;
  get_pieces = λ d s. blank_names d.params;
  innames = λ p. p;
  with_innames = λ names p. names;
  Others = Unit {0};
  others = λ p. tt;
  innames-with_innames = λ names p. refl;
  others-with_innames = λ names p. refl;
}

abbrev pub small_arch : Glb
small_arch = record {
  addr_size = 8;
  word_size = 1;
  models = codes "__stdcall" ∷ [];
  default_cc = codes "__stdcall";
}
