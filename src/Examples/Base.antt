-- ===== src/Examples/Base.antt =====
-- yagi/src/base.cc at concrete inputs.
use yagi.Common.{◌≡◌, refl, ◌∷◌, [], codes}
use yagi.Base.Hex.{to_hex}
use yagi.Base.Stoull.{
  stoull, signed, skip_space, prefixed, digit_value, digits, scan, value, invalid_argument,
  out_of_range,
}
use yagi.Base.Split.{split}

to_hex_word : to_hex 0xdeadbeef ≡ codes "0xdeadbeef"
unfolding to_hex
to_hex_word = refl

to_hex_zero : to_hex 0 ≡ codes "0x0"
unfolding to_hex
to_hex_zero = refl

stoull_text : stoull (codes "0x1F|rest") ≡ value 31
unfolding stoull signed skip_space prefixed digit_value digits scan
stoull_text = refl

stoull_letters : stoull (codes "xyz") ≡ invalid_argument
unfolding stoull signed skip_space prefixed digit_value digits scan
stoull_letters = refl

stoull_wide : stoull (codes "0x10000000000000000") ≡ out_of_range
unfolding stoull signed skip_space prefixed digit_value digits scan
stoull_wide = refl

split_words : split (codes "int  main") b' ' ≡ codes "int" ∷ [] ∷ codes "main" ∷ []
unfolding split
split_words = refl
