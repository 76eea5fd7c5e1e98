-- ===== src/Decompiler/Sleigh/Injective.antt =====
-- The Sleigh identifiers of different configurations.
use yagi.Common.{◌≡◌, refl, ap, sym, ◌∙◌, if◌then◌else◌, Bool, true, bytes_eq, bytes_eq_refl}
use yagi.Decompiler.Compiler.{Compiler}
use yagi.Decompiler.Sleigh.{compute_sleigh_id}
use yagi.Decompiler.Compiler.Cases.{all_compilers, all_compilers-at, same, same→≡}

abbrev told_apart : Compiler → Compiler → Bool
told_apart c d = if bytes_eq (compute_sleigh_id c) (compute_sleigh_id d) then same c d else true

all_told_apart : all_compilers (λ c. all_compilers (told_apart c)) ≡ true
unfolding compute_sleigh_id
all_told_apart = refl

-- Two configurations with the same Sleigh identifier are the same: of the eighty-eight
-- combinations of a language, a byte order and a mode no two are given one identifier.
pub compute_sleigh_id_injective :
    (c d : Compiler) → compute_sleigh_id c ≡ compute_sleigh_id d → c ≡ d
compute_sleigh_id_injective c d h =
    let e : bytes_eq (compute_sleigh_id c) (compute_sleigh_id d) ≡ true =
      ap (bytes_eq (compute_sleigh_id c)) (sym h) ∙ bytes_eq_refl (compute_sleigh_id c) in
    let told : told_apart c d ≡ true =
      all_compilers-at (told_apart c)
        (all_compilers-at (λ x. all_compilers (told_apart x)) all_told_apart c) d in
    same→≡ c d (ap (λ b. if b then same c d else true) (sym e) ∙ told)
