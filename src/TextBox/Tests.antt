-- ===== src/TextBox/Tests.antt =====
-- Examples of the theorems about TextBox.cpp.
use processing_common.Common.{ℕ, ◌≤◌, ◌≡◌, inl, refl, arith, Bool, true, false, List, [], ◌∷◌, some}
use processing_common.KeyUser.{
  KeyUser, eq_ctrl, of_char32, no_key, key_ctrl_set, mod_ctrl_set, mod_shift_set, key_left,
  key_right,
}
use processing_common.KeyUser.Utf8.{is_scalar, utf_to_str, str_to_utf}
use processing_common.ListIdx.{ListIdx}
use processing_common.ListIdx
use processing_common.TextBox.{new, TextBox, selection_replace, idx_low, idx_high}
use processing_common.TextBox.Consistent.{IsOver, IsConsistent}
use processing_common.TextBox.Jump.{cursor_jump}
use processing_common.TextBox.Jump.Moves.{IsMoved, IsStop, cursor_jump_lem}
use processing_common.TextBox.Keys.{is_selection, backspace_key, print_key, key_process}
use processing_common.TextBox.Selection.{selection_replace_in_place}
use processing_common.TextBox.Typing.{place, backspace-print_key}
use processing_common.TextBox.Print.{text_in, cells_print}
use processing_common.TextBox.Print.Cells.{cells, AllMask, password-AllMask}
use processing_common.TextBox.Ready.{IsReady}
use processing_common.TextBox.KeyLaws.{key_process-IsReady}
use processing_common.TextBox.Sessions.{IsIdle, new-IsIdle, session, session-IsIdle}

-- "ab cd1"
abbrev text : List ℕ
text = b'a' ∷ b'b' ∷ b' ' ∷ b'c' ∷ b'd' ∷ b'1' ∷ []

-- A window of four characters at an offset, over the text and the place behind it.
abbrev idx : ℕ → ℕ → ListIdx
idx offset cursor = record {
  win = 4;
  size = 7;
  size_jump = 3;
  cursor = cursor;
  offset = offset;
  cursor_lbound = 1;
  cursor_ubound = 2;
}

abbrev box : ListIdx → ListIdx → TextBox
box front back = record {
  base = record {
    focus = true;
    current = [];
    work = [];
    modifier_frame = [];
    modifier_content = [];
    modifier_selection = [];
  };
  width = 8;
  len_max = 8;
  ustr_current = [];
  ustr_work = text;
  clipboard = [];
  front = front;
  back = back;
  password_mode = false;
  numbers_only = false;
  dirty = false;
  frame_enabled = true;
  padding_enabled = true;
  cursor_show = true;
}

-- The cursor stands between 'c' and 'd'.
abbrev typing : TextBox
typing = box (idx 1 3) (idx 1 3)

-- The text from 'b' to 'd' is selected.
abbrev selected : TextBox
selected = box (idx 2 3) (idx 1 0)

-- "ab" is selected, in a window at the top of the text.
abbrev selected_top : TextBox
selected_top = box (idx 0 2) (idx 0 0)

idx-IsOver : (offset cursor : ℕ) → offset ≤ 3 → cursor ≤ 3 → IsOver 6 (idx offset cursor)
idx-IsOver offset cursor o c = record {
  valid = omega arith;
  all = refl;
  open_win = omega arith;
  small_win = omega arith;
}

typing-IsConsistent : IsConsistent typing
typing-IsConsistent = record {
  front_over = idx-IsOver 1 3 (omega arith) (omega arith);
  back_over = idx-IsOver 1 3 (omega arith) (omega arith);
  fits = omega arith;
  small = omega arith;
}

selected-IsConsistent : IsConsistent selected
selected-IsConsistent = record {
  front_over = idx-IsOver 2 3 (omega arith) (omega arith);
  back_over = idx-IsOver 1 0 (omega arith) (omega arith);
  fits = omega arith;
  small = omega arith;
}

selected_top-IsConsistent : IsConsistent selected_top
selected_top-IsConsistent = record {
  front_over = idx-IsOver 0 2 (omega arith) (omega arith);
  back_over = idx-IsOver 0 0 (omega arith) (omega arith);
  fits = omega arith;
  small = omega arith;
}

selected-IsReady : IsReady selected
unfolding is_scalar
selected-IsReady = record {
  consistent = selected-IsConsistent;
  unicode = (refl, (refl, (refl, (refl, (refl, (refl, tt))))));
  focused = refl;
}

typed : str_to_utf (b'x' ∷ b'y' ∷ []) ≡ some (b'x' ∷ b'y' ∷ [])
unfolding str_to_utf
typed = refl

key_process-IsReady_example :
    (t' : TextBox) × (taken : Bool) × (key_process selected (of_char32 b'x') ≡ some (t', taken))
    × IsReady t'
unfolding is_scalar of_char32
key_process-IsReady_example =
    key_process-IsReady selected (of_char32 b'x') selected-IsReady (λ h. refl)

selection_replace_in_place_example :
    (t' : TextBox) × (selection_replace selected_top (b'x' ∷ b'y' ∷ []) ≡ some t')
    × (t'.ustr_work ≡ b'x' ∷ b'y' ∷ b' ' ∷ b'c' ∷ b'd' ∷ b'1' ∷ [])
    × (ListIdx.cursor_abs t'.front ≡ 2)
unfolding idx_low idx_high ListIdx.cursor_abs
selection_replace_in_place_example =
    selection_replace_in_place selected_top (b'x' ∷ b'y' ∷ []) (b'x' ∷ b'y' ∷ [])
      selected_top-IsConsistent typed (inl refl)

backspace-print_key_example :
    (t' t'' : TextBox) × (print_key typing (of_char32 b'x') ≡ some (t', true))
    × (backspace_key t' ≡ some (t'', true))
    × (t''.ustr_work ≡ text)
    × (place t'' ≡ 4)
unfolding is_selection ListIdx.cursor_abs of_char32
backspace-print_key_example =
    backspace-print_key typing (of_char32 b'x') typing-IsConsistent (refl, refl) refl (omega arith)

-- Control and the right arrow.
abbrev ctrl_right : KeyUser
ctrl_right = mod_ctrl_set (key_ctrl_set no_key key_right) true

cursor_jump_example :
    (t' : TextBox) × (changed : Bool) × (cursor_jump selected_top ctrl_right ≡ some (t', changed))
    × IsMoved selected_top t'
    × (t'.back ≡ selected_top.back)
    × IsStop selected_top (eq_ctrl ctrl_right key_right) (ListIdx.cursor_abs t'.front)
cursor_jump_example = cursor_jump_lem selected_top ctrl_right selected_top-IsConsistent

-- 'a' and 'b' are typed, and a 'c' in place of the 'b'.
abbrev typed_keys : List KeyUser
typed_keys =
    of_char32 b'a'
    ∷ of_char32 b'b'
    ∷ mod_shift_set (key_ctrl_set no_key key_left) true
    ∷ of_char32 b'c'
    ∷ []

session-IsIdle_example :
    (t' : TextBox) × (session new typed_keys ≡ some t')
    × IsIdle t'
    × (utf_to_str t'.ustr_current ≡ some t'.current)
unfolding is_scalar of_char32 mod_shift_set key_ctrl_set no_key
session-IsIdle_example =
    session-IsIdle new typed_keys new-IsIdle (
      (λ h. refl),
      ((λ h. refl), ((λ h. let no : false ≡ true = h in absurd cc), ((λ h. refl), tt))),
    )

abbrev secret : TextBox
secret = record selected { password_mode = true; frame_enabled = true }

password-AllMask_example :
    AllMask (cells (cells_print secret (text_in secret) secret.front.win 0 secret.front.offset))
password-AllMask_example = password-AllMask secret refl
