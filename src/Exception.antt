-- ===== src/Exception.antt =====
-- The exceptions of yagi/src/exception.cc and their messages.
use yagi.Common.{
  ℕ, zero, suc, ◌+◌, ◌/◌, ◌%◌, ◌≡◌, refl, sym, ap, ◌∙◌, Bool, [], ◌∷◌, ◌++◌, Bytes, codes, bytes_eq,
  ◌==◌, if◌then◌else◌, take, length,
}
use yagi.Base.Hex.{to_hex}

pub data Error : Type 0 where
  unknown_type_error symbol_is_not_a_function type_is_not_a_function : Bytes → Error
  unable_to_find_function unable_to_find_type : ℕ → Error
  unknown_calling_convention : Bytes → Error
  unknown_compiler : ℕ → Error
  unimplemented_function : Bytes → Error
  no_default_calling_convention no_more_data unable_to_found_ghidra_folder : Error

-- `ss << n` for a 32-bit number, which has ten digits at most; `rest` are the digits behind.
decimal_loop : ℕ → ℕ → Bytes → Bytes
decimal_loop zero n rest = rest
decimal_loop (suc fuel) n rest =
    let digits = (b'0' + n % 10) ∷ rest in
    let all = decimal_loop fuel (n / 10) digits in if n / 10 == 0 then digits else all

pub to_decimal : ℕ → Bytes
unfolding decimal_loop
to_decimal n = decimal_loop 10 n []

-- `what`.
unfoldable pub what : Error → Bytes
what (unknown_type_error type_name) = codes "Unknown type : " ++ type_name
what (symbol_is_not_a_function function_name) =
    codes "Symbol " ++ function_name ++ codes " is not a function"
what (type_is_not_a_function type_name) = codes "Type " ++ type_name ++ codes " is not a function"
what (unable_to_find_function ea) = codes "Unable to find a function at  " ++ to_hex ea
what (unable_to_find_type type_id) =
    codes "Unable to find a type " ++ to_decimal type_id ++ codes " in cache"
what (unknown_calling_convention func_name) =
    codes "Unknown calling convention of method " ++ func_name
what (unknown_compiler compiler_id) = codes "Unknown the compiler ID " ++ to_decimal compiler_id
what (unimplemented_function func_name) = codes "Unimplemented function " ++ func_name
what no_default_calling_convention = codes "The current arch have no default calling convention "
what no_more_data = codes "No more data in the loader, decompilation is canceled"
what unable_to_found_ghidra_folder =
    codes "Ghidra folder missing. Yagi was not correctly installed."

-- The class of an exception, by its place in the source.
abbrev pub class_of : Error → ℕ
class_of (unknown_type_error n) = 0
class_of (symbol_is_not_a_function n) = 1
class_of (type_is_not_a_function n) = 2
class_of (unable_to_find_function n) = 3
class_of (unable_to_find_type n) = 4
class_of (unknown_calling_convention n) = 5
class_of (unknown_compiler n) = 6
class_of (unimplemented_function n) = 7
class_of no_default_calling_convention = 8
class_of no_more_data = 9
class_of unable_to_found_ghidra_folder = 10

abbrev begins : Bytes → Bytes → Bool
begins start text = bytes_eq (take (length start) text) start

-- The class, read from how a message begins.
abbrev read_class : Bytes → ℕ
read_class text =
    if begins (codes "Unknown type") text
    then 0
    else if begins (codes "Symbol") text
    then 1
    else if begins (codes "Type") text
    then 2
    else if begins (codes "Unable to find a function") text
    then 3
    else if begins (codes "Unable to find a type") text
    then 4
    else if begins (codes "Unknown calling") text
    then 5
    else if begins (codes "Unknown the") text
    then 6
    else if begins (codes "Unimplemented") text
    then 7
    else if begins (codes "The current") text
    then 8
    else if begins (codes "No more") text
    then 9
    else 10

read_class-what : (e : Error) → read_class (what e) ≡ class_of e
unfolding what
read_class-what (unknown_type_error n) = refl
read_class-what (symbol_is_not_a_function n) = refl
read_class-what (type_is_not_a_function n) = refl
read_class-what (unable_to_find_function n) = refl
read_class-what (unable_to_find_type n) = refl
read_class-what (unknown_calling_convention n) = refl
read_class-what (unknown_compiler n) = refl
read_class-what (unimplemented_function n) = refl
read_class-what no_default_calling_convention = refl
read_class-what no_more_data = refl
read_class-what unable_to_found_ghidra_folder = refl

-- Exceptions with the same message are of the same class.
pub what-class_of : (e e' : Error) → what e ≡ what e' → class_of e ≡ class_of e'
what-class_of e e' same = sym (read_class-what e) ∙ (ap read_class same ∙ read_class-what e')
