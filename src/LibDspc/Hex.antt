-- ===== src/LibDspc/Hex.antt =====
-- LibDspc.cpp: `toHexStr`, `toHex` and `isValidSha256`.
pub mod Roundtrip
use Prim.Native.Nat.{bit_or}
use processing_common.Common.{
  ℕ, ◌+◌, ◌-◌, ◌*◌, ◌/◌, ◌%◌, Bool, true, false, not, ◌&&◌, ltb, leb, ◌==◌, if◌then◌else◌, u8, List,
  [], ◌∷◌, ◌++◌, length, get_or,
}

-- "0123456789abcdef"
abbrev pub hex_digits : List ℕ
hex_digits =
    b'0' ∷ b'1' ∷ b'2' ∷ b'3' ∷ b'4' ∷ b'5' ∷ b'6' ∷ b'7' ∷ b'8' ∷ b'9' ∷ b'a' ∷ b'b' ∷ b'c' ∷ b'd'
    ∷ b'e' ∷ b'f' ∷ []

unfoldable pub to_hex_str : List ℕ → List ℕ
to_hex_str [] = []
to_hex_str (ch ∷ str) =
    get_or hex_digits (ch / 16) 0 ∷ get_or hex_digits (ch % 16) 0 ∷ to_hex_str str

-- The value of a digit; any other character counts as 0.
unfoldable pub digit : ℕ → ℕ
digit ch =
    if leb b'a' ch && leb ch b'f'
    then ch - b'a' + 10
    else if leb b'A' ch && leb ch b'F'
    then ch - b'A' + 10
    else if leb b'0' ch && leb ch b'9'
    then ch - b'0'
    else 0

-- The loop of `toHex`, with `highByteDone` and `b`.
unfoldable pub to_hex_from : Bool → ℕ → List ℕ → List ℕ
unfolding digit
to_hex_from high_done b [] = []
to_hex_from true b (ch ∷ str) = bit_or b (digit ch) ∷ to_hex_from false (bit_or b (digit ch)) str
to_hex_from false b (ch ∷ str) = to_hex_from true (u8 (digit ch * 16)) str

-- A text of odd length starts with a low digit.
unfoldable pub to_hex : List ℕ → List ℕ
unfolding to_hex_from
to_hex str = to_hex_from (length str % 2 == 1) 0 str

-- The loop of `isValidSha256`.
unfoldable pub all_hex : List ℕ → Bool
all_hex [] = true
all_hex (ch ∷ str) =
    let rest = all_hex str in
    if leb b'0' ch && leb ch b'9'
    then rest
    else if leb b'a' ch && leb ch b'f'
    then rest
    else if leb b'A' ch && leb ch b'F'
    then rest
    else false

-- `digest_size` stands for CryptoPP's `SHA256::DIGESTSIZE`.
unfoldable pub is_valid_sha256 : ℕ → List ℕ → Bool
is_valid_sha256 digest_size digest =
    if not (length digest == digest_size * 2) then false else all_hex digest
