-- ===== src/TextBox/Print.antt =====
-- TextBox.cpp: `print`. What it draws is first a list of styles, which are bytes that take no place,
-- and of cells, one code point each.
pub mod Cells
use processing_common.Common.{
  ℕ, zero, suc, ◌+◌, ◌-◌, Bool, true, false, not, ◌&&◌, ltb, leb, ◌==◌, if◌then◌else◌, List, [],
  ◌∷◌, ◌++◌, Option, none, some, length, get_or,
}
use processing_common.KeyUser.Utf8.{utf_str_add, utf_to_str}
use processing_common.Widget.{Widget}
use processing_common.ListIdx.{ListIdx}
use processing_common.ListIdx
use processing_common.TextBox.{TextBox, idx_low, idx_high, ◌>>=◌}

pub data Piece : Type 0 where
  style : List ℕ → Piece
  cell : ℕ → Piece

-- "\033[0m" and "\033[4m"
abbrev reset : Piece
reset = style (27 ∷ b'[' ∷ b'0' ∷ b'm' ∷ [])

abbrev underlined : Piece
underlined = style (27 ∷ b'[' ∷ b'4' ∷ b'm' ∷ [])

-- The text that is drawn.
unfoldable pub text_in : TextBox → List ℕ
text_in t = (if t.focus then t.ustr_work else t.ustr_current) ++ (b' ' ∷ [])

unfoldable pub selection_print : TextBox → Bool
selection_print t =
    t.focus && not (ListIdx.cursor_abs (idx_low t) == ListIdx.cursor_abs (idx_high t))

-- The code point at an index of the extended text.
unfoldable pub char_at : TextBox → List ℕ → ℕ → ℕ
char_at t str idx_abs =
    if leb (length str) idx_abs
    then b' '
    else if t.password_mode && ltb idx_abs (length str - 1)
    then b'*'
    else get_or str idx_abs b' '

abbrev content_of : TextBox → Bool → Piece
content_of t is_selection =
    style (if is_selection then t.modifier_selection else t.modifier_content)

unfoldable pub cursor_print : TextBox → ℕ → Bool
cursor_print t idx_abs = t.focus && t.cursor_show && (idx_abs == ListIdx.cursor_abs t.front)

-- The styles in front of a cell and behind it.
unfoldable pub styles_before : TextBox → ℕ → List Piece
unfolding selection_print cursor_print
styles_before t idx_abs =
    (if selection_print t && (idx_abs == ListIdx.cursor_abs (idx_low t))
      then style t.modifier_selection ∷ []
      else [])
    ++ ((if selection_print t && (idx_abs == ListIdx.cursor_abs (idx_high t))
          then reset ∷ style t.modifier_content ∷ []
          else [])
        ++ (if cursor_print t idx_abs then underlined ∷ [] else []))

unfoldable pub styles_behind : TextBox → ℕ → List Piece
unfolding selection_print cursor_print
styles_behind t idx_abs =
    if cursor_print t idx_abs
    then reset
      ∷ content_of t (selection_print t && ltb idx_abs (ListIdx.cursor_abs (idx_high t)))
      ∷ []
    else []

-- One round of the loop.
unfoldable pub cell_print : TextBox → List ℕ → ℕ → ℕ → List Piece
unfolding char_at styles_before styles_behind
cell_print t str idx_rel idx_abs =
    if (idx_rel == 0) && not (t.front.offset == 0)
    then cell 0xab ∷ []
    else if (idx_rel == t.front.win - 1) && not (ListIdx.end_reached t.front)
    then cell 0xbb ∷ []
    else styles_before t idx_abs ++ (cell (char_at t str idx_abs) ∷ styles_behind t idx_abs)

unfoldable pub cells_print : TextBox → List ℕ → ℕ → ℕ → ℕ → List Piece
unfolding cell_print
cells_print t str zero idx_rel idx_abs = []
cells_print t str (suc rounds) idx_rel idx_abs =
    cell_print t str idx_rel idx_abs ++ cells_print t str rounds (idx_rel + 1) (idx_abs + 1)

abbrev optional : Bool → ℕ → List Piece
optional b ch = if b then cell ch ∷ [] else []

-- The frame and the padding on the left and on the right.
abbrev left_frame : TextBox → List Piece
left_frame t =
    style t.modifier_frame
    ∷ (optional t.frame_enabled (if t.focus then b'>' else b'|')
        ++ (optional t.padding_enabled b' ' ++ (reset ∷ [])))

abbrev right_frame : TextBox → List Piece
right_frame t =
    reset
    ∷ style t.modifier_frame
    ∷ (optional t.padding_enabled b' '
        ++ (optional t.frame_enabled (if t.focus then b'<' else b'|') ++ (reset ∷ [])))

unfoldable pub pieces : TextBox → List Piece
unfolding cells_print text_in selection_print
pieces t =
    left_frame t
    ++ (content_of t (selection_print t && leb (ListIdx.cursor_abs (idx_low t)) t.front.offset)
        ∷ (cells_print t (text_in t) t.front.win 0 t.front.offset ++ right_frame t))

unfoldable pub drawn : List Piece → List ℕ → Option (List ℕ)
drawn [] ustr = some ustr
drawn (cell ch ∷ rest) ustr = drawn rest (ustr ++ (ch ∷ []))
drawn (style str ∷ rest) ustr = utf_str_add ustr str >>= drawn rest

-- The message with what is drawn behind it.
unfoldable pub print : TextBox → List ℕ → Option (List ℕ)
unfolding pieces drawn
print t msg = drawn (pieces t) [] >>= λ ustr. utf_to_str ustr >>= λ str. some (msg ++ str)
