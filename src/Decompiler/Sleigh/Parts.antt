-- ===== src/Decompiler/Sleigh/Parts.antt =====
-- What the parts of a Sleigh identifier say of a configuration.
use yagi.Common.{
  ℕ, ◌≡◌, refl, sym, if◌then◌else◌, Bool, true, false, ◌&&◌, not, [], Bytes, bytes_eq, bytes_eq→≡,
  ◌==◌, both, get_or,
}
use yagi.Base.Split.{split}
use yagi.Decompiler.Compiler.{Language, Compiler}
use yagi.Decompiler.Sleigh.{compute_sleigh_id, endianess_name, mode_name, language_names}
use yagi.Decompiler.Compiler.Cases.{all_compilers, all_compilers-at, language_number, mode_number}

agree : (a b : Bool) → (if a then b else not b) ≡ true → a ≡ b
agree true b h = sym h
agree false true h = h
agree false false h = refl

-- The parts of the identifier between the colons.
abbrev pub part : ℕ → Compiler → Bytes
part i c = get_or (split (compute_sleigh_id c) b':') i []

abbrev pub is_atmel_64 : Compiler → Bool
is_atmel_64 c =
    language_number c.language == language_number Language.atmel && mode_number c.mode == 3

abbrev parts_fit : Compiler → Bool
parts_fit c =
    bytes_eq (part 1 c) (endianess_name c.endianess)
    && (bytes_eq (part 2 c) (mode_name c.mode)
        && (if bytes_eq (part 0 c) [] then is_atmel_64 c else not (is_atmel_64 c)))

all_parts_fit : all_compilers parts_fit ≡ true
unfolding compute_sleigh_id split language_names
all_parts_fit = refl

-- Split at its colons, the identifier of a configuration has the byte order as its second part
-- and the mode as its third; its first part, the processor, is empty exactly for a 64-bit ATMEL.
pub compute_sleigh_id-parts :
    (c : Compiler)
    → (part 1 c ≡ endianess_name c.endianess)
      × (part 2 c ≡ mode_name c.mode)
      × (bytes_eq (part 0 c) [] ≡ is_atmel_64 c)
compute_sleigh_id-parts c =
    let (e, rest) =
      both (bytes_eq (part 1 c) (endianess_name c.endianess))
        (bytes_eq (part 2 c) (mode_name c.mode)
          && (if bytes_eq (part 0 c) [] then is_atmel_64 c else not (is_atmel_64 c)))
        (all_compilers-at parts_fit all_parts_fit c) in
    let (m, p) =
      both (bytes_eq (part 2 c) (mode_name c.mode))
        (if bytes_eq (part 0 c) [] then is_atmel_64 c else not (is_atmel_64 c)) rest in
    (bytes_eq→≡ _ _ e, bytes_eq→≡ _ _ m, agree (bytes_eq (part 0 c) []) (is_atmel_64 c) p)
