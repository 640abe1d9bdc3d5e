-- ===== src/TextBox.antt =====
-- widgets-term/TextBox.h and TextBox.cpp: a line of text that can be edited. `front` and `back` are
-- the two ends of the selection, as list indices over the text and the place behind it. Texts are
-- lists of code points or, in UTF-8, of bytes. A method that may throw returns an option, and
-- `none` is the exception: a text that is not UTF-8, or a position behind the end of a string.
pub mod Jump
pub mod Keys
pub mod Consistent
pub mod Selection
pub mod Typing
pub mod Ready
pub mod EditLaws
pub mod KeyLaws
pub mod Sessions
pub mod Print
pub mod Tests
use processing_common.Common.{
  ℕ, zero, suc, ◌+◌, ◌-◌, Bool, true, false, not, ◌&&◌, ◌||◌, ltb, leb, ◌==◌, if◌then◌else◌, u16,
  u32, sub32, sub64, List, [], ◌∷◌, ◌++◌, Option, none, some, length, take, substr, str_erase,
  str_insert,
}
use processing_common.KeyUser.{KeyUser}
use processing_common.KeyUser.Utf8.{str_to_utf, utf_to_str}
use processing_common.Widget.{Widget}
use processing_common.Widget
use processing_common.ListIdx.{ListIdx}
use processing_common.ListIdx

pub record TextBox : Type 0 where
  pub base : Widget
  pub open base use *
  pub width : ℕ  -- size_t
  pub len_max : ℕ  -- size_t
  pub ustr_current : List ℕ
  pub ustr_work : List ℕ
  pub clipboard : List ℕ
  pub front : ListIdx
  pub back : ListIdx
  pub password_mode : Bool
  pub numbers_only : Bool
  pub dirty : Bool
  pub frame_enabled : Bool
  pub padding_enabled : Bool
  pub cursor_show : Bool

abbrev pub size_width_min : ℕ
size_width_min = 4

-- Chains of steps that may throw.
infixl 5 ◌>>=◌
abbrev pub ◌>>=◌ {ℓ κ} : {A : Type ℓ} {B : Type κ} → Option A → (A → Option B) → Option B
none >>= f = none
some a >>= f = f a

unfoldable pub width_set : TextBox → ℕ → TextBox
width_set t width =
    let w₁ = if t.frame_enabled then u16 (width + 65534) else width in
    let w₂ = if t.padding_enabled then u16 (w₁ + 65534) else w₁ in
    let front = ListIdx.win_set t.front w₂ in
    if ltb width size_width_min
    then t
    else record t { width = width; front = front; back = ListIdx.win_set t.back front.win }

unfoldable pub len_max_set : TextBox → ℕ → TextBox
len_max_set t len = record t { len_max = len }

unfoldable pub password_mode_set : TextBox → Bool → TextBox
password_mode_set t mode = record t { password_mode = mode }

unfoldable pub numbers_only_set : TextBox → Bool → TextBox
numbers_only_set t only = record t { numbers_only = only }

unfoldable pub cursor_show_set : TextBox → Bool → TextBox
cursor_show_set t val = record t { cursor_show = val }

unfoldable pub cursor_bound_set : TextBox → ℕ → TextBox
cursor_bound_set t bnd = record t {
  front = ListIdx.cursor_bound_set t.front bnd;
  back = ListIdx.cursor_bound_set t.back bnd;
}

unfoldable pub focus_set : TextBox → Bool → Bool → Option TextBox
focus_set t true accept =
    let front =
      (ListIdx.cursor_end_set (ListIdx.size_set t.front (u32 (length t.ustr_current + 1)))).0 in
    some (record t {
      base = record t.base { focus = true };
      ustr_work = t.ustr_current;
      front = front;
      back = front;
    })
focus_set t false accept = do
  let leave : List ℕ → List ℕ → TextBox = λ ustr current.
      let front = (ListIdx.reset (ListIdx.size_set t.front (u32 (length ustr + 1)))).0 in
      record t {
        base = record t.base { focus = false; current = current };
        ustr_current = ustr;
        front = front;
        back = front;
      }
  str ← (if accept then utf_to_str t.ustr_work else some t.current)
  some (leave (if accept then t.ustr_work else t.ustr_current) str)

-- `for (; idx < end; ++idx) mIdxFront.inc();`, by the rounds left.
unfoldable pub incs : ℕ → ListIdx → ListIdx
incs zero l = l
incs (suc n) l = incs n (ListIdx.inc l).0

unfoldable pub selection_set : TextBox → ℕ → ℕ → TextBox
unfolding incs
selection_set t idx_start len =
    let str = if t.focus then t.ustr_work else t.ustr_current in
    let idx_max = u16 (length str) in
    let end = u16 (idx_start + len) in
    let start = if ltb idx_max idx_start then idx_max else idx_start in
    let back = incs start (ListIdx.reset t.front).0 in
    let end' = if len == 0 || ltb idx_max end then idx_max else end in
    record t { front = incs (end' - start) back; back = back }

unfoldable pub frame_enabled_set : TextBox → Bool → TextBox
unfolding width_set
frame_enabled_set t val = width_set (record t { frame_enabled = val }) (u16 t.width)

unfoldable pub padding_enabled_set : TextBox → Bool → TextBox
unfolding width_set
padding_enabled_set t val = width_set (record t { padding_enabled = val }) (u16 t.width)

-- currentSet, and the assignment of a text
unfoldable pub current_set : TextBox → List ℕ → Option TextBox
current_set t str = do
  ustr ← str_to_utf str
  let t' : TextBox = record t { base = record t.base { current = str }; ustr_current = ustr }
  let front = ListIdx.size_set t.front (u32 (length ustr + 1))
  some (
      if t.focus
      then t'
      else record t' { front = front; back = ListIdx.size_set t.back front.size })

unfoldable pub ustr_work_set : TextBox → List ℕ → TextBox
ustr_work_set t ustr =
    let front = (ListIdx.cursor_end_set (ListIdx.size_set t.front (u32 (length ustr + 1)))).0 in
    if not t.focus
    then record t { ustr_work = ustr }
    else record t { ustr_work = ustr; front = front; back = front }

-- TextBox(); with the empty text, `currentSet` cannot fail.
unfoldable pub new : TextBox
unfolding ListIdx.of_win ListIdx.size_set ListIdx.sanity_check Widget.new
new =
    let idx = ListIdx.size_set (ListIdx.of_win 10) 1 in
    record {
      base = Widget.new;
      width = 10;
      len_max = 64;
      ustr_current = [];
      ustr_work = [];
      clipboard = [];
      front = idx;
      back = idx;
      password_mode = false;
      numbers_only = false;
      dirty = false;
      frame_enabled = true;
      padding_enabled = true;
      cursor_show = true;
    }

-- dirty(), which reads the flag and clears it
unfoldable pub take_dirty : TextBox → TextBox × Bool
take_dirty t = (record t { dirty = false }, t.dirty)

unfoldable pub dirty_set : TextBox → TextBox × Bool
dirty_set t = (record t { dirty = true }, true)

unfoldable pub take_clipboard : TextBox → Bool → TextBox × List ℕ
take_clipboard t clear =
    if not clear then (t, t.clipboard) else (record t { clipboard = [] }, t.clipboard)

unfoldable pub size_displayed : TextBox → ℕ
size_displayed t = if t.focus then length t.ustr_work else length t.current

unfoldable pub idx_low : TextBox → ListIdx
idx_low t = if ltb (ListIdx.cursor_abs t.back) (ListIdx.cursor_abs t.front) then t.back else t.front

unfoldable pub idx_high : TextBox → ListIdx
idx_high t =
    if ltb (ListIdx.cursor_abs t.back) (ListIdx.cursor_abs t.front) then t.front else t.back

unfoldable pub clipboard_set : TextBox → Option TextBox
clipboard_set t =
    let low = ListIdx.cursor_abs (idx_low t) in
    let copied : Option TextBox = do
      ustr ← substr t.ustr_work low (sub32 (ListIdx.cursor_abs (idx_high t)) low)
      str ← utf_to_str ustr
      some (record t { clipboard = str })
    in if not t.focus then some (record t { clipboard = t.current }) else copied

-- `for (i = 0; i < len; ++i) mIdxFront.insert();`
unfoldable pub inserts : ℕ → ListIdx → ListIdx
inserts zero l = l
inserts (suc n) l = inserts n (ListIdx.insert l)

-- How many of `n` new code points there is room for beside `kept` old ones. The subtraction of
-- size_t wraps around if the old ones are too many already.
unfoldable pub room : ℕ → ℕ → ℕ → ℕ
room len_max kept n = sub64 (if ltb len_max (kept + n) then len_max else kept + n) kept

-- `idxLow = size; idxHigh = idxLow;` leaves both indices equal to the lower one with the new size.
unfoldable pub selection_replace : TextBox → List ℕ → Option TextBox
selection_replace t str = do
  let low = ListIdx.cursor_abs (idx_low t)
  kept ← str_erase t.ustr_work low (sub32 (ListIdx.cursor_abs (idx_high t)) low)
  let idx = ListIdx.size_set (idx_low t) (u32 (length kept + 1))
  ustr ← str_to_utf str
  let len = room t.len_max (length kept) (length ustr)
  work ← str_insert kept (ListIdx.cursor_abs idx) (take len ustr)
  let front = inserts len idx
  some (record t { ustr_work = work; front = front; back = front })

unfoldable pub paste : TextBox → List ℕ → Option TextBox
unfolding current_set
paste t str = if not t.focus then current_set t str else selection_replace t str
