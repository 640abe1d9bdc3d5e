-- ===== src/KeyUser/Tests.antt =====
-- Examples of the theorems about KeyUser.cpp.
use processing_common.Common.{ℕ, ◌≡◌, refl, List, [], ◌∷◌, some}
use processing_common.KeyUser.Utf8.{is_scalar, utf_to_str, str_to_utf}
use processing_common.KeyUser.Utf8.Roundtrip.{str_to_utf-utf_to_str}

-- One code point for each length of UTF-8.
abbrev text : List ℕ
text = b'a' ∷ 0xe4 ∷ 0x20ac ∷ 0x1f600 ∷ []

str_to_utf-utf_to_str_example :
    (str : List ℕ) × (utf_to_str text ≡ some str) × (str_to_utf str ≡ some text)
unfolding is_scalar
str_to_utf-utf_to_str_example = str_to_utf-utf_to_str text (refl, (refl, (refl, (refl, tt))))

text_bytes :
    utf_to_str text
    ≡ some (b'a' ∷ 0xc3 ∷ 0xa4 ∷ 0xe2 ∷ 0x82 ∷ 0xac ∷ 0xf0 ∷ 0x9f ∷ 0x98 ∷ 0x80 ∷ [])
unfolding utf_to_str
text_bytes = refl
