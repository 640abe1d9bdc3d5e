-- ===== src/LibDspc/Dump.antt =====
-- LibDspc.cpp: `hexDump`. `info` is what dInfo makes of the line buffer and a formatted text.
pub mod Columns
pub mod Lines
use processing_common.Common.{
  ℕ, zero, suc, ◌+◌, ◌/◌, ◌%◌, Bool, true, false, not, ◌||◌, ltb, ◌==◌, if◌then◌else◌, u8, u32,
  List, [], ◌∷◌, ◌++◌, Option, none, some, length, get_or, take,
}
use processing_common.LibDspc.Hex.{hex_digits}

-- snprintf with "%08x" and "%02x": the lowest digits of a number, which has no more.
unfoldable pub print_hex : ℕ → ℕ → List ℕ
print_hex zero n = []
print_hex (suc digits) n = print_hex digits (n / 16) ++ (get_or hex_digits (n % 16) 0 ∷ [])

-- The text in front of each eighth column.
abbrev pub gap : ℕ → List ℕ
gap i = if i % 8 == 0 then b' ' ∷ [] else []

abbrev pub gap_info : (List ℕ → List ℕ → List ℕ) → ℕ → List ℕ → List ℕ
gap_info info i buf = if i % 8 == 0 then info buf (b' ' ∷ []) else buf

-- The loop over the columns from `i` on: the buffer, the bytes that are left, and how many were
-- printed.
unfoldable pub columns : (List ℕ → List ℕ → List ℕ) → ℕ → ℕ → List ℕ → List ℕ → List ℕ × List ℕ × ℕ
unfolding print_hex
columns info zero i bytes buf = (buf, bytes, 0)
columns info (suc n) i [] buf =
    columns info n (suc i) [] (info (gap_info info i buf) (b' ' ∷ b' ' ∷ b' ' ∷ []))
columns info (suc n) i (b ∷ bytes) buf =
    let rest = columns info n (suc i) bytes (info (gap_info info i buf) (b' ' ∷ print_hex 2 b)) in
    (rest.0, rest.1, suc rest.2)

-- A character, or a point for one that is not printable. A `char` is signed.
abbrev pub shown : ℕ → ℕ
shown c = if ltb c 32 || ltb 126 c then b'.' else c

unfoldable pub characters : (List ℕ → List ℕ → List ℕ) → List ℕ → List ℕ → List ℕ
characters info [] buf = buf
characters info (c ∷ bytes) buf = characters info bytes (info buf (shown c ∷ []))

-- The line behind its columns.
unfoldable pub line_end :
    (List ℕ → List ℕ → List ℕ) → List ℕ → List ℕ × List ℕ × ℕ → List ℕ × List ℕ × ℕ
unfolding characters
line_end info bytes cols = (
  info (characters info (take cols.2 bytes) (info cols.0 (b' ' ∷ b' ' ∷ b'|' ∷ []))) (b'|' ∷ []),
  cols.1,
  cols.2,
)

-- One line, the bytes behind it, and how many it shows.
unfoldable pub line_dump : (List ℕ → List ℕ → List ℕ) → ℕ → ℕ → List ℕ → List ℕ × List ℕ × ℕ
unfolding columns line_end print_hex
line_dump info width address bytes =
    line_end info bytes (columns info width 0 bytes (info [] (print_hex 8 address)))

abbrev pub and_then : List ℕ → Option (List (List ℕ)) → Option (List (List ℕ))
and_then line none = none
and_then line (some lines) = some (line ∷ lines)

-- The loop over the lines, on fuel.
unfoldable pub lines_dump : (List ℕ → List ℕ → List ℕ) → ℕ → ℕ → ℕ → List ℕ → Option (List (List ℕ))
unfolding line_dump
lines_dump info fuel width address [] = some []
lines_dump info zero width address (b ∷ bytes) = none
lines_dump info (suc fuel) width address (b ∷ bytes) =
    let line = line_dump info width address (b ∷ bytes) in
    and_then line.0 (lines_dump info fuel width (u32 (address + line.2)) line.1)

-- The lines that are printed, for data whose address is printed as `pointer`.
unfoldable pub hex_dump :
    (List ℕ → List ℕ → List ℕ) → ℕ → List ℕ → List ℕ → ℕ → List ℕ → Option (List (List ℕ))
unfolding lines_dump
hex_dump info fuel pointer name width bytes =
    and_then (info [] (pointer ++ (b' ' ∷ b' ' ∷ name))) (lines_dump info fuel (u8 width) 0 bytes)
