-- ===== src/Widget/Tests.antt =====
-- Examples of the theorems about `strPadCutTo`.
use processing_common.Common.{ℕ, ◌≡◌, refl, List, [], ◌∷◌, some}
use processing_common.KeyUser.Utf8.{utf_to_str}

-- "häuser"
abbrev word : List ℕ
word = b'h' ∷ 0xe4 ∷ b'u' ∷ b's' ∷ b'e' ∷ b'r' ∷ []

abbrev word_bytes : List ℕ
word_bytes = b'h' ∷ 0xc3 ∷ 0xa4 ∷ b'u' ∷ b's' ∷ b'e' ∷ b'r' ∷ []

word_written : utf_to_str word ≡ some word_bytes
unfolding utf_to_str
word_written = refl
