-- ===== src/Types/Factory.antt =====
-- What `TypeManager` asks of Ghidra's `TypeFactory`, which it extends, and of the architecture.
use yagi.Common.{ℕ, ◌≡◌, Bool, true, false, List, Option, some, Bytes}

-- Ghidra's metatypes that are asked for.
pub data Metatype : Type 0 where
  type_bool type_int type_float type_void type_unknown : Metatype

-- A state `S` of the factory. `new TypeBase`, `new TypeUnicode` and `new TypeChar` make a type
-- which the factory does not know before it is named.
pub record TypeFactory : Type 1 where
  pub S : Type 0
  pub Datatype : Type 0
  pub find_by_id_local : Bytes → S → Option Datatype
  pub new_base : ℕ → Metatype → Bytes → Datatype
  pub new_unicode : Bytes → ℕ → Datatype
  pub new_char : Bytes → Datatype
  pub get_type_void : S → Datatype × S
  pub get_type_pointer : ℕ → Datatype → ℕ → S → Datatype × S
  pub get_type_struct : Bytes → S → Datatype × S
  pub get_type_array : ℕ → Datatype → S → Datatype × S
  pub get_type_code : Bytes → Datatype → List Datatype → Bool → S → Datatype × S
  pub set_fields : List (ℕ × Bytes × Datatype) → Datatype → S → S
  pub set_name : Datatype → Bytes → S → S
  -- Is there a structure of the name among the named types? `is_struct` tells structures from the
  -- other types.
  pub has_struct : Bytes → S → Bool
  pub is_struct : Datatype → Bool
  -- A name that was given is found.
  pub find-set_name :
      (n : Bytes) (d : Datatype) (s : S)
      → (d' : Datatype) × (find_by_id_local n (set_name d n s) ≡ some d')
  -- A structure is found by its name, and it is there once it was asked for.
  pub find-has_struct :
      (n : Bytes) (s : S) → has_struct n s ≡ true → (d : Datatype) × (find_by_id_local n s ≡ some d)
  pub has_struct-get_type_struct : (n : Bytes) (s : S) → has_struct n (get_type_struct n s).1 ≡ true
  -- No operation takes a structure away; naming a type takes away only the name that it had.
  pub keeps_void :
      (n : Bytes) (s : S) → has_struct n s ≡ true → has_struct n (get_type_void s).1 ≡ true
  pub keeps_pointer :
      (n : Bytes) (size : ℕ) (d : Datatype) (word_size : ℕ) (s : S)
      → has_struct n s ≡ true
      → has_struct n (get_type_pointer size d word_size s).1 ≡ true
  pub keeps_struct :
      (n m : Bytes) (s : S) → has_struct n s ≡ true → has_struct n (get_type_struct m s).1 ≡ true
  pub keeps_array :
      (n : Bytes) (size : ℕ) (d : Datatype) (s : S)
      → has_struct n s ≡ true
      → has_struct n (get_type_array size d s).1 ≡ true
  pub keeps_code :
      (n cc_name : Bytes) (ret : Datatype) (params : List Datatype) (dots : Bool) (s : S)
      → has_struct n s ≡ true
      → has_struct n (get_type_code cc_name ret params dots s).1 ≡ true
  pub keeps_fields :
      (n : Bytes) (fields : List (ℕ × Bytes × Datatype)) (d : Datatype) (s : S)
      → has_struct n s ≡ true
      → has_struct n (set_fields fields d s) ≡ true
  pub keeps_name :
      (n m : Bytes) (d : Datatype) (s : S)
      → is_struct d ≡ false
      → has_struct n s ≡ true
      → has_struct n (set_name d m s) ≡ true
  -- What is no structure.
  pub is_struct-new_base :
      (size : ℕ) (meta : Metatype) (n : Bytes) → is_struct (new_base size meta n) ≡ false
  pub is_struct-new_unicode : (n : Bytes) (size : ℕ) → is_struct (new_unicode n size) ≡ false
  pub is_struct-new_char : (n : Bytes) → is_struct (new_char n) ≡ false
  pub is_struct-pointer :
      (size : ℕ) (d : Datatype) (word_size : ℕ) (s : S)
      → is_struct (get_type_pointer size d word_size s).0 ≡ false
  pub is_struct-array :
      (size : ℕ) (d : Datatype) (s : S) → is_struct (get_type_array size d s).0 ≡ false
  pub is_struct-code :
      (cc_name : Bytes) (ret : Datatype) (params : List Datatype) (dots : Bool) (s : S)
      → is_struct (get_type_code cc_name ret params dots s).0 ≡ false

-- The default code space, the prototype models and the default calling convention.
pub record Glb : Type 0 where
  pub addr_size : ℕ
  pub word_size : ℕ
  pub models : List Bytes
  pub default_cc : Bytes
