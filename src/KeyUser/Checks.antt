-- ===== src/KeyUser/Checks.antt =====
-- KeyUser.cpp: the key checks.
use processing_common.Common.{
  ℕ, Bool, true, false, not, ◌&&◌, ◌||◌, leb, ◌==◌, if◌then◌else◌, List, [], ◌∷◌,
}
use processing_common.KeyUser.{
  KeyUser, eq_char, key_ctrl_c, key_ctrl_d, key_backspace_win, key_enter, key_esc, key_backspace,
  key_help, key_up, key_down, key_home, key_end, key_pg_up, key_pg_dn,
}

unfoldable pub key_is_num : KeyUser → Bool
key_is_num key =
    if not key.is_print
    then false
    else if leb b'0' key.print && leb key.print b'9'
    then true
    else false

unfoldable pub key_is_alpha_num : KeyUser → Bool
unfolding key_is_num
key_is_alpha_num key =
    if not key.is_print
    then false
    else if leb b'a' key.print && leb key.print b'z'
    then true
    else if leb b'A' key.print && leb key.print b'Z'
    then true
    else if key_is_num key
    then true
    else false

-- " .,;:-_(){}[]\"'/\\+*=%<>"
abbrev pub boundaries : List ℕ
boundaries =
    b' ' ∷ b'.' ∷ b',' ∷ b';' ∷ b':' ∷ b'-' ∷ b'_' ∷ b'(' ∷ b')' ∷ b'{' ∷ b'}' ∷ b'[' ∷ b']' ∷ 34
    ∷ 39 ∷ b'/' ∷ 92 ∷ b'+' ∷ b'*' ∷ b'=' ∷ b'%' ∷ b'<' ∷ b'>' ∷ []

-- The loop over `pCh`.
unfoldable pub boundary_in : List ℕ → KeyUser → Bool
unfolding eq_char
boundary_in [] key = false
boundary_in (ch ∷ rest) key = if eq_char key ch then true else boundary_in rest key

unfoldable pub key_is_boundary : KeyUser → Bool
unfolding boundary_in
key_is_boundary key = boundary_in boundaries key

unfoldable pub key_is_ctrl : KeyUser → Bool
key_is_ctrl key = if not key.is_ctrl then false else true

unfoldable pub key_is_backspace : KeyUser → Bool
key_is_backspace key =
    if not key.is_ctrl then false else key.ctrl == key_backspace || key.ctrl == key_backspace_win

unfoldable pub key_is_user_disconnect : KeyUser → Bool
key_is_user_disconnect key =
    if not key.is_ctrl then false else key.ctrl == key_ctrl_c || key.ctrl == key_ctrl_d

unfoldable pub key_is_common : KeyUser → Bool
unfolding key_is_alpha_num
key_is_common key =
    if key_is_alpha_num key
    then true
    else if key.is_ctrl && key.ctrl == key_help
    then true
    else if not key.is_print
    then false
    else key.print == b' ' || key.print == b'-' || key.print == b'_'

-- The checks from `keyIsAccept` on test a control key, then a printable one.
ctrl_or_print : ℕ → ℕ → KeyUser → Bool
ctrl_or_print c p key =
    if key.is_ctrl && key.ctrl == c
    then true
    else if key.is_print && key.print == p
    then true
    else false

unfoldable pub key_is_accept : KeyUser → Bool
unfolding ctrl_or_print
key_is_accept = ctrl_or_print key_enter b'l'

unfoldable pub key_is_abort : KeyUser → Bool
unfolding ctrl_or_print
key_is_abort = ctrl_or_print key_esc b'q'

unfoldable pub key_is_home : KeyUser → Bool
unfolding ctrl_or_print
key_is_home = ctrl_or_print key_home b'g'

unfoldable pub key_is_end : KeyUser → Bool
unfolding ctrl_or_print
key_is_end = ctrl_or_print key_end b'G'

unfoldable pub key_is_up : KeyUser → Bool
unfolding ctrl_or_print
key_is_up = ctrl_or_print key_up b'k'

unfoldable pub key_is_down : KeyUser → Bool
unfolding ctrl_or_print
key_is_down = ctrl_or_print key_down b'j'

unfoldable pub key_is_up_jump : KeyUser → Bool
unfolding ctrl_or_print
key_is_up_jump = ctrl_or_print key_pg_up b'K'

unfoldable pub key_is_down_jump : KeyUser → Bool
unfolding ctrl_or_print
key_is_down_jump = ctrl_or_print key_pg_dn b'J'
