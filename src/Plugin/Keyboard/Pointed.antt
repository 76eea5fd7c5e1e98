-- ===== src/Plugin/Keyboard/Pointed.antt =====
-- A key pressed with the cursor in a printed line: `_KeyboardCallback` asks `_ComputeKeyword` for the
-- word, if there is no modifier.
use yagi.Common.{
  ℕ, ◌+◌, ◌^◌, ◌<◌, ◌≡◌, ◌≢◌, ap, ◌∙◌, Bool, true, false, ◌⊎◌, List, [], ◌∷◌, ◌++◌, All, Option,
  none, some, Bytes, codes, bytes_eq, ◌==◌, Lacks, if◌then◌else◌, length, get_or,
}
use yagi.Common.Maps.{lookup}
use yagi.Symbol.Location.{MemoryLocation}
use yagi.Symbol.Netnode.{NetnodeApi}
use yagi.Symbol.Saved
use yagi.Symbol.Saved.{find_name}
use yagi.Symbol.Saved.Laws.{elem}
use yagi.Print.Emit.{color_default}
use yagi.Print.Tokens.{Token, shown, token_color}
use yagi.Plugin.Keyword.{Keyword, word, no_word, fault, compute_keyword}
use yagi.Plugin.Keyword.Seek.{IsVisible, Piece, token, line, width, IsClean, piece_bytes}
use yagi.Plugin.Keyword.Cursor.{keyword_within}
use yagi.Plugin.Keyboard.{Ida, Handled, returns, run_yagi, keyboard}
use yagi.Plugin.Keyboard.Laws.{keyboard-rename}

module _ (api : NetnodeApi) (ida : Ida) (is_alnum : ℕ → Bool) where
  open api use {Db}
  open ida use {find_function, ask_str}

  -- `none` is a read outside the line, which is undefined behaviour.
  pub on_word : ℕ → List (Bytes × MemoryLocation) → ℕ → Keyword → Db → Option (Handled api ida)
  on_word ea symbols key fault db = none
  on_word ea symbols key no_word db = some (keyboard api ida ea symbols key 0 none db)
  on_word ea symbols key (word keyword) db =
      some (keyboard api ida ea symbols key 0 (some keyword) db)

  -- `line` is the line of the view at the cursor, and `x` its column.
  pub callback :
      ℕ → List (Bytes × MemoryLocation) → ℕ → ℕ → Bytes → ℕ → Db → Option (Handled api ida)
  unfolding on_word
  callback ea symbols key shift line x db =
      if shift == 0
      then on_word ea symbols key (compute_keyword is_alnum line x) db
      else some (returns false, [], db)

  -- With the cursor in a token of a printed line, behind its first character, whose text is the
  -- word for a variable of the view outside RAM, in a function: if the user answers key N with a
  -- name without a bar, the callback reads nothing outside the line, returns true, makes the
  -- plugin run again and nothing else in IDA, and the name is then found at each definition
  -- address of the variable, with its 64-bit offset. The line has visible characters up to the
  -- cursor, no byte below the digits is alphanumeric, and the token has not the default color or
  -- begins with an alphanumeric character.
  pub callback-rename :
      (ea func pc : ℕ) (symbols : List (Bytes × MemoryLocation)) (before : List Piece) (t : Token)
      (u v after name : Bytes) (loc : MemoryLocation) (db : Db)
      → IsClean before
      → All IsVisible (shown t)
      → shown t ≡ u ++ v
      → 0 < length u
      → ((c : ℕ) → c < b'0' → is_alnum c ≡ false)
      → (token_color t ≢ color_default) ⊎ (is_alnum (get_or (shown t) 0 0) ≡ true)
      → lookup (shown t) symbols ≡ some loc
      → bytes_eq loc.space_name (codes "ram") ≡ false
      → find_function ea ≡ some func
      → ask_str (shown t) ≡ some name
      → Lacks b'|' name
      → loc.offset < 2 ^ 64
      → elem pc loc.pc ≡ true
      → (db' : Db) × (callback ea symbols b'N' 0
            (line before ++ (piece_bytes (token t) ++ after))
            (width before + length u)
            db
          ≡ some (returns true, run_yagi ∷ [], db'))
        × ((find_name api func pc loc.space_name db').0
            ≡ Saved.returns (some name) (some loc.offset))
  unfolding callback
  callback-rename ea func pc symbols before t u v after name loc db clean visible split inside ascii
        start listed local known asked bar fits defined =
      let (answers, effects, found) =
        keyboard-rename api ida ea func pc symbols (shown t) name loc db listed local known asked
          bar fits defined in
      let handled : Handled api ida = keyboard api ida ea symbols b'N' 0 (some (shown t)) db in
      (
        handled.2,
        ap (λ w. on_word ea symbols b'N' w db)
              (keyword_within is_alnum before t u v after clean visible split inside ascii start)
            ∙ unfold on_word in λ i. some (answers i, effects i, handled.2),
        found,
      )
