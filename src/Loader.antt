-- ===== src/Loader.antt =====
-- `IdaLoader` of yagi/src/idaloader.cc, the image that Ghidra reads, and where
-- `YagiArchitecture::buildLoader` of yagi/src/yagiarchitecture.cc builds it.
use yagi.Common.{ℕ, List, [], ◌∷◌, Bytes, codes}
use yagi.Logger.{error}

-- What `adjustVma` does, whatever it is given: Ghidra's exception.
pub data Adjusted : Type 0 where
  lowlevel_error : Bytes → Adjusted

-- An image as Ghidra sees it: the bytes that it writes over a buffer, for a size and an address.
pub record LoadImage : Type 0 where
  pub arch_type : Bytes
  pub load_fill : List ℕ → ℕ → ℕ → List ℕ
  pub adjust_vma : ℕ → Adjusted

-- `get_bytes` is IDA's: the buffer, the size and the address give the number of bytes that are read,
-- which is ignored, and the buffer.
pub ida_loader : (List ℕ → ℕ → ℕ → ℕ × List ℕ) → LoadImage
ida_loader get_bytes = record {
  arch_type = codes "ida";
  load_fill = λ ptr size addr. (get_bytes ptr size addr).1;
  adjust_vma = λ adjust. lowlevel_error (codes "Cannot adjust YAGI virtual memory");
}

-- `errors` is what Ghidra writes while it collects the specifications; they are only logged. The
-- image is that of the factory.
pub build_loader : (Bytes → Bytes) → Bytes → LoadImage → Bytes → LoadImage × Bytes
build_loader msg [] loader window = (loader, window)
build_loader msg (c ∷ errors) loader window =
    (loader, error msg (codes "spec files loading") ((c ∷ errors) ∷ []) window)
