-- ===== src/ListIdx/Print.antt =====
-- ListIdx.cpp: `winEndPrint` and `cursorPrint`, which append to a message. A message is a list of
-- bytes; indices and widths are size_t. `none` is `std::length_error`, which `std::string` throws
-- for more than 2 ^ 63 - 1 characters.
use processing_common.Common.{
  ℕ, ◌+◌, ◌-◌, ◌^◌, ◌<◌, ◌≤◌, ◌≡◌, arith, Bool, true, false, not, ltb, leb, ◌==◌, ◌||◌, ◌&&◌,
  if◌then◌else◌, zero, suc, append-nil, sub64, List, [], ◌∷◌, ◌++◌, length, length-append,
  length-replicate, replicate, Option, none, some,
}
use processing_common.ListIdx.{ListIdx, end_reached}

-- "---"
abbrev pub marker : List ℕ
marker = b'-' ∷ b'-' ∷ b'-' ∷ []

abbrev crlf : List ℕ
crlf = 13 ∷ 10 ∷ []

-- std::string(n, ' ')
unfoldable pub spaces : ℕ → Option (List ℕ)
spaces n = if ltb n (2 ^ 63) then some (replicate n b' ') else none

unfoldable pub indicator_needed : ListIdx → ℕ → Bool
unfolding end_reached
indicator_needed l idx_rel =
    (idx_rel == 0 && not (l.offset == 0)) || (idx_rel == l.win - 1 && not (end_reached l))

-- The text of the entry, and whether it is padded and printed.
pad : List ℕ → ℕ → Option (List ℕ)
unfolding spaces
pad str width =
    let len_pad = sub64 width (length str) in
    if not (width == 0) && not (len_pad == 0)
    then elim (spaces len_pad) [ none ↦ none | some s ↦ some (str ++ s) ]
    else some str

-- The end of the function: the padded text between prefix and postfix.
print_row : List ℕ → List ℕ → List ℕ → ℕ → List ℕ → Option (List ℕ × Bool)
unfolding pad
print_row msg prefix postfix width str = elim (pad str width) [
  | none ↦ none
  | some s ↦ some (msg ++ (prefix ++ (s ++ (postfix ++ crlf))), true)
]

-- The message behind the call and the result: whether the entry has been processed.
unfoldable pub win_end_print :
    ListIdx → List ℕ → ℕ → ℕ → List ℕ → List ℕ → ℕ → Option (List ℕ × Bool)
unfolding print_row indicator_needed
win_end_print l msg idx_rel idx_abs prefix postfix width =
    if leb l.win idx_rel
    then some (msg, true)
    else if leb l.size idx_abs
    then print_row msg prefix postfix width []
    else if not (indicator_needed l idx_rel)
    then some (msg, false)
    else print_row msg prefix postfix width marker

unfoldable pub cursor_print : ListIdx → List ℕ → ℕ → ℕ → List ℕ → Option (List ℕ × Bool)
unfolding spaces
cursor_print l msg idx_rel padding prefix =
    let printed = idx_rel == l.cursor in
    let msg' = msg ++ (prefix ++ ((if printed then b'>' else b' ') ∷ [])) in
    let rest = padding - 1 in
    if padding == 0
    then some (msg, false)
    else if rest == 0
    then some (msg', printed)
    else elim (spaces rest) [ none ↦ none | some s ↦ some (msg' ++ s, printed) ]

-- For an entry in the window and in the list that needs a marker, and a width of 1 or 2, less than
-- the marker's three characters, the padding wraps around and `winEndPrint` throws.
pub win_end_print_narrow :
    (l : ListIdx) (msg : List ℕ) (idx_rel idx_abs : ℕ) (prefix postfix : List ℕ) (width : ℕ)
    → idx_rel < l.win
    → idx_abs < l.size
    → indicator_needed l idx_rel ≡ true
    → 0 < width
    → width < 3
    → win_end_print l msg idx_rel idx_abs prefix postfix width ≡ none
unfolding win_end_print
win_end_print_narrow l msg r a prefix postfix width hr ha need w n = ground arith

pad_exact :
    (str : List ℕ) (width n : ℕ)
    → length str + n ≡ width
    → 0 < width
    → width < 2 ^ 63
    → pad str width ≡ some (str ++ replicate n b' ')
unfolding pad
pad_exact str width zero e p w =
    let z : sub64 width (length str) ≡ 0 = omega arith in rw (append-nil str) (ground (arith, z))
pad_exact str width (suc n) e p w =
    let z : sub64 width (length str) ≡ suc n = omega arith in rw z (ground arith)

length-print_row :
    (msg prefix postfix : List ℕ) (width : ℕ) (str : List ℕ) (out : List ℕ)
    → length str ≤ width
    → 0 < width
    → width < 2 ^ 63
    → print_row msg prefix postfix width str ≡ some (out, true)
    → length out ≡ length msg + length prefix + width + length postfix + 2
unfolding print_row
length-print_row msg prefix postfix width str out fits p w h =
    let s = str ++ replicate (width - length str) b' ' in
    let tail = s ++ (postfix ++ crlf) in
    ground (
      arith,
      pad_exact str width (width - length str) (omega arith) p w,
      length-append msg (prefix ++ tail),
      length-append prefix tail,
      length-append s (postfix ++ crlf),
      length-append postfix crlf,
      length-append str (replicate (width - length str) b' '),
      length-replicate {A = ℕ} (width - length str) b' ',
    )

-- Where `winEndPrint` returns true for a row in the window, at a width from 3 up and below 2 ^ 63,
-- it has added the prefix, exactly as many characters as the width, the postfix and a line end.
pub length-win_end_print :
    (l : ListIdx) (msg : List ℕ) (idx_rel idx_abs : ℕ) (prefix postfix : List ℕ) (width : ℕ)
    (out : List ℕ)
    → idx_rel < l.win
    → 3 ≤ width
    → width < 2 ^ 63
    → win_end_print l msg idx_rel idx_abs prefix postfix width ≡ some (out, true)
    → length out ≡ length msg + length prefix + width + length postfix + 2
unfolding win_end_print
length-win_end_print l msg r a prefix postfix width out hr w n h = ground (
  arith,
  length-print_row msg prefix postfix width [] out (omega arith) (omega arith) n,
  length-print_row msg prefix postfix width marker out w (omega arith) n,
)
