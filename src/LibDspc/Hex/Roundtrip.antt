-- ===== src/LibDspc/Hex/Roundtrip.antt =====
-- Hexadecimal text: what `toHexStr` writes, `toHex` reads and `isValidSha256` accepts.
use Prim.Native.Nat.{bit_or}
use processing_common.Common.{
  false, if◌then◌else◌, ℕ, zero, suc, ◌*◌, ◌/◌, ◌%◌, ◌<◌, ◌≡◌, refl, arith, Bool, true, false, ◌&&◌,
  ◌||◌, ◌==◌, leb, ==_iff, u8, List, [], ◌∷◌, length, get_or,
}
use processing_common.LibDspc.Hex.{
  hex_digits, to_hex_str, digit, to_hex_from, to_hex, all_hex, is_valid_sha256,
}

abbrev pub AllBytes : List ℕ → Type 0
AllBytes [] = Unit {0}
AllBytes (b ∷ bs) = (b < 256) × AllBytes bs

-- Whether a test passes for every number under a bound, by trying each of them.
under : (ℕ → Bool) → ℕ → Bool
under test zero = true
under test (suc bound) = let rest = under test bound in if test bound then rest else false

under_lem :
    (test : ℕ → Bool) {bound : ℕ} → under test bound ≡ true → (n : ℕ) → n < bound → test n ≡ true
unfolding under
under_lem test {bound = zero} passed n h = absurd (omega arith)
under_lem test {bound = suc bound} passed n h =
    grind (arith, λ (l : n < bound) (q : under test bound ≡ true). under_lem test q n l)

-- A byte's two digits give it back, checked for every byte.
byte_table :
    under
      (λ b.
        bit_or
          (u8 (digit (get_or hex_digits (b / 16) 0) * 16))
          (digit (get_or hex_digits (b % 16) 0))
        == b)
      256
    ≡ true
unfolding under digit
byte_table = refl

byte_digits :
    (b : ℕ)
    → b < 256
    → bit_or (u8 (digit (get_or hex_digits (b / 16) 0) * 16)) (digit (get_or hex_digits (b % 16) 0))
      ≡ b
byte_digits b h = (==_iff _ b).0 (under_lem _ byte_table b h)

pub length-to_hex_str : (str : List ℕ) → length (to_hex_str str) ≡ length str * 2
unfolding to_hex_str
length-to_hex_str [] = refl
length-to_hex_str (ch ∷ str) = omega (arith, length-to_hex_str str)

to_hex_from-to_hex_str :
    (b : ℕ) (str : List ℕ) → AllBytes str → to_hex_from false b (to_hex_str str) ≡ str
unfolding to_hex_from to_hex_str
to_hex_from-to_hex_str b [] h = refl
to_hex_from-to_hex_str b (ch ∷ str) h = rw (byte_digits ch h.0, to_hex_from-to_hex_str ch str h.1)

-- `toHex` reads back what `toHexStr` writes, for every sequence of bytes.
pub to_hex-to_hex_str : (str : List ℕ) → AllBytes str → to_hex (to_hex_str str) ≡ str
unfolding to_hex
to_hex-to_hex_str str h =
    let even : (length (to_hex_str str) % 2 == 1) ≡ false = ground (arith, length-to_hex_str str) in
    rw even (to_hex_from-to_hex_str 0 str h)

abbrev is_lower_hex : ℕ → Bool
is_lower_hex ch = (leb b'0' ch && leb ch b'9') || (leb b'a' ch && leb ch b'f')

digit_table : under (λ d. is_lower_hex (get_or hex_digits d 0)) 16 ≡ true
unfolding under
digit_table = refl

all_hex-cons :
    (ch : ℕ) (str : List ℕ)
    → is_lower_hex ch ≡ true
    → all_hex str ≡ true
    → all_hex (ch ∷ str) ≡ true
unfolding all_hex
all_hex-cons ch str h rest = ground arith

all_hex-digit :
    (d : ℕ) (str : List ℕ)
    → d < 16
    → all_hex str ≡ true
    → all_hex (get_or hex_digits d 0 ∷ str) ≡ true
all_hex-digit d str h rest =
    all_hex-cons (get_or hex_digits d 0) str (under_lem _ digit_table d h) rest

all_hex-to_hex_str : (str : List ℕ) → AllBytes str → all_hex (to_hex_str str) ≡ true
unfolding to_hex_str
all_hex-to_hex_str [] h = unfold all_hex in refl
all_hex-to_hex_str (ch ∷ str) h =
    all_hex-digit (ch / 16) _ (omega arith)
      (all_hex-digit (ch % 16) _ (omega arith) (all_hex-to_hex_str str h.1))

-- `isValidSha256` accepts what `toHexStr` writes of a sequence of bytes exactly if there are as
-- many bytes as a digest has.
pub is_valid_sha256-to_hex_str :
    (digest_size : ℕ) (str : List ℕ)
    → AllBytes str
    → is_valid_sha256 digest_size (to_hex_str str) ≡ (length str == digest_size)
unfolding is_valid_sha256
is_valid_sha256-to_hex_str n str h =
    rw (all_hex-to_hex_str str h) (ground (arith, length-to_hex_str str))
