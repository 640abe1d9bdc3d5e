-- ===== src/TextBox/Sessions.antt =====
-- A text box that gets the focus, takes keys and loses the focus again.
use processing_common.Common.{
  ◌+◌, ◌^◌, ◌<◌, ◌≤◌, ◌≡◌, refl, arith, Bool, true, false, u32, List, [], ◌∷◌, Option, some, length,
}
use processing_common.KeyUser.{KeyUser}
use processing_common.KeyUser.Utf8.{is_scalar, utf_to_str}
use processing_common.KeyUser.Utf8.Roundtrip.{AllScalar, str_to_utf-utf_to_str}
use processing_common.ListIdx.{ListIdx}
use processing_common.ListIdx
use processing_common.ListIdx.Bounds.{cursor_end_set-IsValid, reset-IsValid}
use processing_common.ListIdx.Keys.{cursor_end_set-Keeps, reset-Keeps}
use processing_common.TextBox.{TextBox, ◌>>=◌, new, focus_set}
use processing_common.TextBox.Consistent.{IsOver, Keeps-IsOver, size_set-IsOver}
use processing_common.TextBox.Keys.{key_process}
use processing_common.TextBox.Ready.{IsReady}
use processing_common.TextBox.KeyLaws.{key_process-IsReady}

-- A text box that may get the focus: an index over its text, which is of valid code points and not
-- too long.
pub record IsIdle (t : TextBox) : Type 0 where
  pub over : IsOver (length t.ustr_current) t.front
  pub fits : length t.ustr_current ≤ t.len_max
  pub small : t.len_max < 2 ^ 16
  pub unicode : AllScalar t.ustr_current

pub new-IsIdle : IsIdle new
unfolding new
new-IsIdle = record {
  over = record {
    valid = omega arith;
    all = refl;
    open_win = omega arith;
    small_win = omega arith;
  };
  fits = omega arith;
  small = omega arith;
  unicode = tt;
}

enter-IsReady :
    (t : TextBox) (accept : Bool)
    → IsIdle t
    → (t' : TextBox) × (focus_set t true accept ≡ some t') × IsReady t'
unfolding focus_set
enter-IsReady t accept i =
    let l = ListIdx.size_set t.front (u32 (length t.ustr_current + 1)) in
    let o : IsOver (length t.ustr_current) l =
      size_set-IsOver (length t.ustr_current) (length t.ustr_current) t.front i.over
        (omega arith) in
    let o' : IsOver (length t.ustr_current) (ListIdx.cursor_end_set l).0 =
      Keeps-IsOver (length t.ustr_current) l (ListIdx.cursor_end_set l).0 o (cursor_end_set-Keeps l)
        (cursor_end_set-IsValid l o.valid) in
    (
      _,
      refl,
      record {
        consistent = record { front_over = o'; back_over = o'; fits = i.fits; small = i.small };
        unicode = i.unicode;
        focused = refl;
      },
    )

leave-IsIdle :
    (t : TextBox)
    → IsReady t
    → (t' : TextBox) × (focus_set t false true ≡ some t')
      × IsIdle t'
      × (utf_to_str t'.ustr_current ≡ some t'.current)
unfolding focus_set
leave-IsIdle t r =
    let c = r.consistent in
    let n = length t.ustr_work in
    let (str, wrote, _) = str_to_utf-utf_to_str t.ustr_work r.unicode in
    let l = ListIdx.size_set t.front (u32 (n + 1)) in
    let o : IsOver n l = size_set-IsOver n n t.front c.front_over (omega arith) in
    let o' : IsOver n (ListIdx.reset l).0 =
      Keeps-IsOver n l (ListIdx.reset l).0 o (reset-Keeps l) (reset-IsValid l o.valid) in
    let front = (ListIdx.reset l).0 in
    let t' : TextBox = record t {
      base = record t.base { focus = false; current = str };
      ustr_current = t.ustr_work;
      front = front;
      back = front;
    } in
    (
      t',
      rw (wrote, focus_set) refl,
      record { over = o'; fits = c.fits; small = c.small; unicode = r.unicode },
      wrote,
    )

unfoldable pub keys_process : TextBox → List KeyUser → Option TextBox
keys_process t [] = some t
keys_process t (key ∷ keys) = do (t', taken) ← key_process t key; keys_process t' keys

-- The focus comes, the keys, and the focus goes with the text accepted.
unfoldable pub session : TextBox → List KeyUser → Option TextBox
session t keys = do t₁ ← focus_set t true false; t₂ ← keys_process t₁ keys; focus_set t₂ false true

abbrev pub AllUnicode : List KeyUser → Type 0
AllUnicode [] = Unit {0}
AllUnicode (key ∷ keys) = (key.is_print ≡ true → is_scalar key.print ≡ true) × AllUnicode keys

keys_process-IsReady :
    (t : TextBox) (keys : List KeyUser)
    → IsReady t
    → AllUnicode keys
    → (t' : TextBox) × (keys_process t keys ≡ some t') × IsReady t'
unfolding keys_process
keys_process-IsReady t [] r u = (t, refl, r)
keys_process-IsReady t (key ∷ keys) r u =
    let (t₁, taken, e₁, r₁) = key_process-IsReady t key r u.0 in
    let (t₂, e₂, r₂) = keys_process-IsReady t₁ keys r₁ u.1 in (t₂, rw (e₁, keys_process) e₂, r₂)

-- A text box whose index runs over its text, which is of valid code points and not longer than
-- allowed, gets the focus, takes any keys that are no invalid code points, and loses the focus with
-- its text accepted: no call throws or runs without end, the text box is such a one again, and its
-- text in UTF-8 is that of its code points.
pub session-IsIdle :
    (t : TextBox) (keys : List KeyUser)
    → IsIdle t
    → AllUnicode keys
    → (t' : TextBox) × (session t keys ≡ some t')
      × IsIdle t'
      × (utf_to_str t'.ustr_current ≡ some t'.current)
unfolding session
session-IsIdle t keys i u =
    let (t₁, e₁, r₁) = enter-IsReady t false i in
    let (t₂, e₂, r₂) = keys_process-IsReady t₁ keys r₁ u in
    let (t₃, e₃, i₃, same) = leave-IsIdle t₂ r₂ in (t₃, rw (e₁, session) (rw e₂ e₃), i₃, same)
