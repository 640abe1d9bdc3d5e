-- ===== src/LibDspc/Dump/Lines.antt =====
-- The lines of a hex dump, written without a buffer.
use processing_common.Common.{
  ℕ, zero, suc, ◌+◌, ◌*◌, ◌≤◌, ◌<◌, ◌≡◌, ◌∙◌, refl, ap, arith, min, u8, u32, List, [], ◌∷◌, ◌++◌,
  map, append_assoc, none, some, length, length-append, take, drop, take-min, length-drop,
  length-take,
}
use processing_common.LibDspc.Dump.{
  print_hex, columns, shown, characters, line_end, line_dump, and_then, lines_dump, hex_dump,
}
use processing_common.LibDspc.Dump.Columns.{
  Appends, hex_columns, columns_lem, characters_lem, length-print_hex, length-hex_columns,
  length-shown, min_comm,
}

abbrev pub line_text : ℕ → ℕ → List ℕ → List ℕ
line_text width address bytes =
    print_hex 8 address
    ++ (hex_columns width 0 bytes
        ++ ((b' ' ∷ b' ' ∷ b'|' ∷ []) ++ (map shown (take width bytes) ++ (b'|' ∷ []))))

-- The lines of the bytes from an address on, each of at most `width` bytes.
abbrev pub line_texts : ℕ → ℕ → ℕ → List ℕ → List (List ℕ)
line_texts fuel width address [] = []
line_texts zero width address (b ∷ bytes) = []
line_texts (suc fuel) width address (b ∷ bytes) =
    line_text width address (b ∷ bytes)
    ∷ line_texts fuel width (u32 (address + min width (suc (length bytes))))
        (drop width (b ∷ bytes))

module _ (info : List ℕ → List ℕ → List ℕ) (appends : Appends info) where
  line_end_lem :
      (width : ℕ) (bytes full : List ℕ)
      → length full + width + 4 < 256
      → line_end info bytes (full, drop width bytes, min width (length bytes)) ≡ (
        full ++ ((b' ' ∷ b' ' ∷ b'|' ∷ []) ++ (map shown (take width bytes) ++ (b'|' ∷ []))),
        drop width bytes,
        min width (length bytes),
      )
  unfolding line_end
  line_end_lem width bytes full fits =
      let bar = b' ' ∷ b' ' ∷ b'|' ∷ [] in
      let some_bytes : take (min width (length bytes)) bytes ≡ take width bytes =
        ap (λ n. take n bytes) (min_comm width (length bytes)) ∙ take-min width bytes in
      let few : length (take width bytes) ≤ width = omega (arith, length-take width bytes) in
      let long = length-append full bar in
      let texts : characters info (take (min width (length bytes)) bytes) (info full bar)
          ≡ ((full ++ bar) ++ map shown (take width bytes)) =
        ap (λ l. characters info l (info full bar)) some_bytes
        ∙ ap (characters info (take width bytes)) (appends full bar (omega arith))
        ∙ characters_lem info appends (take width bytes) (full ++ bar) (omega arith) in
      let fits' : length ((full ++ bar) ++ map shown (take width bytes)) + 1 < 256 = omega (
        arith,
        length-append (full ++ bar) (map shown (take width bytes)),
        length-shown (take width bytes),
      ) in
      let eq =
        ap (λ l. info l (b'|' ∷ [])) texts
        ∙ appends ((full ++ bar) ++ map shown (take width bytes)) (b'|' ∷ []) fits'
        ∙ append_assoc (full ++ bar) (map shown (take width bytes)) (b'|' ∷ [])
        ∙ append_assoc full bar (map shown (take width bytes) ++ (b'|' ∷ [])) in
      ap (λ l. (l, drop width bytes, min width (length bytes))) eq

  -- A line of at most 48 bytes fits into the buffer.
  line_dump_lem :
      (width address : ℕ) (bytes : List ℕ)
      → width ≤ 48
      → line_dump info width address bytes
        ≡ (line_text width address bytes, drop width bytes, min width (length bytes))
  unfolding line_dump
  line_dump_lem width address bytes small =
      let addr = print_hex 8 address in
      let eight = length-print_hex 8 address in
      let hex = hex_columns width 0 bytes in
      let tail = (b' ' ∷ b' ' ∷ b'|' ∷ []) ++ (map shown (take width bytes) ++ (b'|' ∷ [])) in
      let first : info [] addr ≡ addr = appends [] addr (omega arith) in
      let cols : columns info width 0 bytes (info [] addr)
          ≡ (addr ++ hex, drop width bytes, min width (length bytes)) =
        ap (columns info width 0 bytes) first
        ∙ columns_lem info appends width 0 bytes addr (omega arith) in
      let long = length-hex_columns width 0 bytes in
      ap (line_end info bytes) cols
      ∙ line_end_lem width bytes (addr ++ hex) (omega (arith, length-append addr hex))
      ∙ ap (λ l. (l, drop width bytes, min width (length bytes))) (append_assoc addr hex tail)

  lines_dump_lem :
      (fuel width address : ℕ) (bytes : List ℕ)
      → 0 < width
      → width ≤ 48
      → length bytes ≤ fuel
      → lines_dump info fuel width address bytes ≡ some (line_texts fuel width address bytes)
  unfolding lines_dump
  lines_dump_lem zero width address [] some_width small enough = refl
  lines_dump_lem (suc fuel) width address [] some_width small enough = refl
  lines_dump_lem zero width address (b ∷ bytes) some_width small enough = absurd (omega arith)
  lines_dump_lem (suc fuel) width address (b ∷ bytes) some_width small enough =
      ap (λ r. and_then r.0 (lines_dump info fuel width (u32 (address + r.2)) r.1))
        (line_dump_lem width address (b ∷ bytes) small)
      ∙ ap (and_then (line_text width address (b ∷ bytes))) (
          lines_dump_lem fuel width (u32 (address + min width (suc (length bytes))))
            (drop width (b ∷ bytes)) some_width small
            (omega (arith, length-drop width (b ∷ bytes))))

-- If dInfo appends what fits into the line buffer, the address and the name fit, and the width is
-- from 1 to 48 in its lowest 8 bits, then with the number of bytes as fuel hexDump prints the head
-- line and then the lines of at most that many bytes each: the address, two digits for each byte
-- with gaps for the missing ones, and the characters, points for those that are not printable.
pub hex_dump_lines :
    (info : List ℕ → List ℕ → List ℕ)
    → Appends info
    → (fuel : ℕ) (pointer name : List ℕ) (width : ℕ) (bytes : List ℕ) → 0 < u8 width
    → u8 width ≤ 48
    → length pointer + length name < 254
    → length bytes ≤ fuel
    → hex_dump info fuel pointer name width bytes
      ≡ some ((pointer ++ (b' ' ∷ b' ' ∷ name)) ∷ line_texts fuel (u8 width) 0 bytes)
unfolding hex_dump
hex_dump_lines info appends fuel pointer name width bytes some_width small fits enough =
    let head = pointer ++ (b' ' ∷ b' ' ∷ name) in
    ap (λ l. and_then l (lines_dump info fuel (u8 width) 0 bytes))
      (appends [] head (omega (arith, length-append pointer (b' ' ∷ b' ' ∷ name))))
    ∙ ap (and_then head)
        (lines_dump_lem info appends fuel (u8 width) 0 bytes some_width small enough)

-- Without columns a line takes no bytes.
lines_dump-stuck :
    (info : List ℕ → List ℕ → List ℕ) (fuel address : ℕ) (bytes : List ℕ)
    → 0 < length bytes
    → lines_dump info fuel 0 address bytes ≡ none
unfolding lines_dump line_dump line_end columns
lines_dump-stuck info fuel address [] h = absurd (omega arith)
lines_dump-stuck info zero address (b ∷ bytes) h = refl
lines_dump-stuck info (suc fuel) address (b ∷ bytes) h =
    rw (lines_dump-stuck info fuel (u32 (address + 0)) (b ∷ bytes) h) refl

-- With a width that is a multiple of 256, hexDump of at least one byte does not end, whatever the
-- fuel.
pub hex_dump_endless :
    (info : List ℕ → List ℕ → List ℕ) (fuel n : ℕ) (pointer name bytes : List ℕ)
    → 0 < length bytes
    → hex_dump info fuel pointer name (256 * n) bytes ≡ none
unfolding hex_dump
hex_dump_endless info fuel n pointer name bytes h =
    let none_shown : u8 (256 * n) ≡ 0 = omega arith in
    rw none_shown (rw (lines_dump-stuck info fuel 0 bytes h) refl)
