-- ===== src/KeyUser.antt =====
-- KeyUser.h: the class `KeyUser`, a key press as a printable code point or a control key.
-- `char` is signed, as on x86: a byte from 128 up stands for a negative value, and the cast to
-- `char32_t` extends the sign. The operators that the code itself never calls are in
-- KeyUser/Operators.antt.
pub mod Checks
pub mod Operators
pub mod Utf8
pub mod Tests
use processing_common.Common.{
  ℕ, ◌+◌, ◌≡◌, Bool, true, false, not, ◌&&◌, ltb, leb, ◌==◌, if◌then◌else◌, List, [], ◌∷◌, ◌++◌,
}

pub record KeyUser : Type 0 where
  pub print : ℕ  -- mPrint, char32_t
  pub ctrl : ℕ  -- mCtrl, uint16_t
  pub is_print : Bool
  pub is_ctrl : Bool
  pub mod_shift : Bool
  pub mod_alt : Bool
  pub mod_ctrl : Bool

-- char32_t(other) of a char that is given by its byte.
abbrev pub char32 : ℕ → ℕ
char32 c = if ltb c 128 then c else c + 4294967040

-- KeyUser()
unfoldable pub no_key : KeyUser
no_key = record {
  print = 0;
  ctrl = 0;
  is_print = false;
  is_ctrl = false;
  mod_shift = false;
  mod_alt = false;
  mod_ctrl = false;
}

-- KeyUser(char32_t key)
unfoldable pub of_char32 : ℕ → KeyUser
of_char32 key = record {
  print = key;
  ctrl = 0;
  is_print = true;
  is_ctrl = false;
  mod_shift = false;
  mod_alt = false;
  mod_ctrl = false;
}

-- operator==, !=, < and > against a char
unfoldable pub eq_char : KeyUser → ℕ → Bool
eq_char k other = if not k.is_print then false else k.print == char32 other

unfoldable pub ne_char : KeyUser → ℕ → Bool
ne_char k other = if not k.is_print then true else not (k.print == char32 other)

unfoldable pub lt_char : KeyUser → ℕ → Bool
lt_char k other = if not k.is_print then false else ltb k.print (char32 other)

unfoldable pub gt_char : KeyUser → ℕ → Bool
gt_char k other = if not k.is_print then false else ltb (char32 other) k.print

-- operator== and != against a control key
unfoldable pub eq_ctrl : KeyUser → ℕ → Bool
eq_ctrl k other = if not k.is_ctrl then false else k.ctrl == other

unfoldable pub ne_ctrl : KeyUser → ℕ → Bool
ne_ctrl k other = if not k.is_ctrl then true else not (k.ctrl == other)

-- operator=(char)
unfoldable pub assign_char : KeyUser → ℕ → KeyUser
assign_char k key = record k { print = char32 key; is_print = true; is_ctrl = false }

-- keyCtrlSet
unfoldable pub key_ctrl_set : KeyUser → ℕ → KeyUser
key_ctrl_set k key = record k { ctrl = key; is_print = false; is_ctrl = true }

unfoldable pub mod_shift_set : KeyUser → Bool → KeyUser
mod_shift_set k m = record k { mod_shift = m }

unfoldable pub mod_alt_set : KeyUser → Bool → KeyUser
mod_alt_set k m = record k { mod_alt = m }

unfoldable pub mod_ctrl_set : KeyUser → Bool → KeyUser
mod_ctrl_set k m = record k { mod_ctrl = m }

-- The control keys.
abbrev pub key_ctrl_a : ℕ
key_ctrl_a = 0x01

abbrev pub key_ctrl_c : ℕ
key_ctrl_c = 0x03

abbrev pub key_ctrl_d : ℕ
key_ctrl_d = 0x04

abbrev pub key_backspace_win : ℕ
key_backspace_win = 0x08

abbrev pub key_enter : ℕ
key_enter = 0x0d

abbrev pub key_ctrl_x : ℕ
key_ctrl_x = 0x18

abbrev pub key_esc : ℕ
key_esc = 0x1b

abbrev pub key_backspace : ℕ
key_backspace = 0x7f

abbrev pub key_help : ℕ
key_help = b'?'

-- enum KeyExtensions
abbrev pub key_up : ℕ
key_up = 1000

abbrev pub key_down : ℕ
key_down = 1001

abbrev pub key_left : ℕ
key_left = 1002

abbrev pub key_right : ℕ
key_right = 1003

abbrev pub key_home : ℕ
key_home = 1004

abbrev pub key_delete : ℕ
key_delete = 1006

abbrev pub key_end : ℕ
key_end = 1007

abbrev pub key_pg_up : ℕ
key_pg_up = 1008

abbrev pub key_pg_dn : ℕ
key_pg_dn = 1009
