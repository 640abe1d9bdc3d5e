-- ===== src/TextBox/Jump/Moves.antt =====
-- That `cursorJump` and `navigate` end, change nothing but the indices, and keep them consistent.
use processing_common.Common.{
  ℕ, ◌-◌, ◌≡◌, inl, inr, refl, subst, arith, Bool, true, false, not, ◌==◌, if◌then◌else◌, ◌&&◌, u16,
  [], Option, none, some, length, Bool-cases,
}
use processing_common.KeyUser.{KeyUser, eq_ctrl, key_right}
use processing_common.ListIdx.{ListIdx}
use processing_common.ListIdx
use processing_common.ListIdx.Bounds.{
  IsValid, inc-IsValid, dec-IsValid, reset-IsValid, cursor_end_set-IsValid,
}
use processing_common.ListIdx.Moves.{Keeps, inc-Keeps, dec-Keeps}
use processing_common.ListIdx.Keys.{
  key_process, key_process-IsValid, key_process-Keeps, reset-Keeps, cursor_end_set-Keeps,
}
use processing_common.TextBox.{TextBox}
use processing_common.TextBox.Consistent.{IsOver, IsConsistent, IsOver-cursor, Keeps-IsOver}
use processing_common.TextBox.Jump.{
  jump_loop, cursor_jump, move_front, jump_front, navigate_front, navigate,
}
use processing_common.TextBox.Jump.Words.{
  Ends, jump_loop_right, jump_loop_left, word_right, word_left, IsRightStop, IsLeftStop,
  word_right-IsRightStop, word_left-IsLeftStop,
}

-- Where the jump goes, by its direction.
abbrev pub target : TextBox → Bool → ℕ
target t right =
    let n = length t.ustr_work in
    let from = ListIdx.cursor_abs t.front in
    if right then word_right t.ustr_work (n - from) from else word_left t.ustr_work from

jump_Ends :
    (t : TextBox) (right : Bool)
    → IsConsistent t
    → Ends t.ustr_work (target t right) (
        jump_loop 65537 right t.ustr_work
          (if right then u16 (length t.ustr_work) else 0)
          (u16 (ListIdx.cursor_abs t.front))
          (u16 (ListIdx.cursor_abs t.front))
          none
          t.front
          false)
jump_Ends t true c =
    let place = IsOver-cursor (length t.ustr_work) t.front c.front_over in
    let e : u16 (length t.ustr_work) ≡ length t.ustr_work = omega arith in
    let e' : u16 (ListIdx.cursor_abs t.front) ≡ ListIdx.cursor_abs t.front = omega arith in
    rw (e, e')
      (jump_loop_right t.ustr_work (length t.ustr_work - ListIdx.cursor_abs t.front) 65537
        (ListIdx.cursor_abs t.front) none t.front false c.front_over refl (omega arith)
        (omega arith) (omega arith))
jump_Ends t false c =
    let place = IsOver-cursor (length t.ustr_work) t.front c.front_over in
    let e' : u16 (ListIdx.cursor_abs t.front) ≡ ListIdx.cursor_abs t.front = omega arith in
    rw e' (
      jump_loop_left t.ustr_work (ListIdx.cursor_abs t.front) 65537 none t.front false c.front_over
        refl (omega arith) (omega arith))

-- The front end has moved to a place in the text, and nothing else has changed.
pub record IsMoved (t t' : TextBox) : Type 0 where
  pub consistent : IsConsistent t'
  pub same_work : t'.ustr_work ≡ t.ustr_work
  pub same_max : t'.len_max ≡ t.len_max
  pub same_focus : t'.focus ≡ t.focus

over-IsMoved :
    (t : TextBox) (l : ListIdx)
    → IsConsistent t
    → IsOver (length t.ustr_work) l
    → IsMoved t (record t { front = l })
over-IsMoved t l c o = record {
  consistent = record { front_over = o; back_over = c.back_over; fits = c.fits; small = c.small };
  same_work = refl;
  same_max = refl;
  same_focus = refl;
}

-- A place where a jump of the text box may end.
abbrev pub IsStop : TextBox → Bool → ℕ → Type 0
IsStop t true place =
    IsRightStop t.ustr_work (length t.ustr_work - ListIdx.cursor_abs t.front)
      (ListIdx.cursor_abs t.front) place
IsStop t false place = IsLeftStop t.ustr_work (ListIdx.cursor_abs t.front) place

target-IsStop : (t : TextBox) (right : Bool) → IsStop t right (target t right)
target-IsStop t true = word_right-IsRightStop _ _ _
target-IsStop t false = word_left-IsLeftStop _ _

-- In an empty text the cursor is at the target already.
target_empty :
    (t : TextBox) (right : Bool)
    → IsConsistent t
    → length t.ustr_work ≡ 0
    → target t right ≡ ListIdx.cursor_abs t.front
target_empty t true c h =
    omega (arith, target-IsStop t true, IsOver-cursor (length t.ustr_work) t.front c.front_over)
target_empty t false c h =
    omega (arith, target-IsStop t false, IsOver-cursor (length t.ustr_work) t.front c.front_over)

-- In a consistent text box the loop of `cursorJump` ends, and the jump leaves the text and the
-- other end of the selection as they are. To the right it stops at the first end of a word behind
-- the cursor or at the end of the text, to the left at the last start of a word before the cursor
-- or at the start of the text.
pub cursor_jump_lem :
    (t : TextBox) (key : KeyUser)
    → IsConsistent t
    → (t' : TextBox) × (changed : Bool) × (cursor_jump t key ≡ some (t', changed))
      × IsMoved t t'
      × (t'.back ≡ t.back)
      × IsStop t (eq_ctrl key key_right) (ListIdx.cursor_abs t'.front)
unfolding cursor_jump
cursor_jump_lem t key c = elim (Bool-cases (length t.ustr_work == 0)) [
  | inl none_left ↦ (
    t,
    false,
    rw none_left,
    record { consistent = c; same_work = refl; same_max = refl; same_focus = refl },
    refl,
    subst (IsStop t right) (target_empty t right c (ground arith)) (target-IsStop t right),
  )
  | inr some_left ↦
      let (front, changed, e, over, place) = jump_Ends t right c in
      (
        record t { front = front },
        changed,
        rw some_left (rw e),
        over-IsMoved t front c over,
        refl,
        rw place (target-IsStop t right),
      )
]
  where
    right : Bool
    right = eq_ctrl key key_right

-- What a move of the front end leads to: a text box that has moved, with the two flags.
abbrev Moves : TextBox → Option (TextBox × Bool × Bool) → Type 0
Moves t r =
    (t' : TextBox) × (changed : Bool) × (processed : Bool) × (r ≡ some (t', changed, processed))
    × IsMoved t t'

Moves-if :
    (t : TextBox) (b : Bool) (x y : Option (TextBox × Bool × Bool))
    → Moves t x
    → Moves t y
    → Moves t (if b then x else y)
Moves-if t true x y p q = p
Moves-if t false x y p q = q

move_front-Moves :
    (t : TextBox) (r : ListIdx × Bool)
    → IsConsistent t
    → Keeps t.front r.0
    → IsValid r.0
    → Moves t (move_front t r)
unfolding move_front
move_front-Moves t r c k v = (
  record t { front = r.0 },
  r.1,
  true,
  refl,
  over-IsMoved t r.0 c (Keeps-IsOver (length t.ustr_work) t.front r.0 c.front_over k v),
)

jump_front-Moves : (t : TextBox) (key : KeyUser) → IsConsistent t → Moves t (jump_front t key)
unfolding jump_front
jump_front-Moves t key c =
    let (t', changed, e, m, _, _) = cursor_jump_lem t key c in (t', changed, true, rw e, m)

stay-Moves : (t : TextBox) → IsConsistent t → Moves t (some (t, false, false))
stay-Moves t c = (
  t,
  false,
  false,
  refl,
  record { consistent = c; same_work = refl; same_max = refl; same_focus = refl },
)

navigate_front-Moves :
    (t : TextBox) (key : KeyUser) → IsConsistent t → Moves t (navigate_front t key)
unfolding navigate_front
navigate_front-Moves t key c =
    let v = c.front_over.valid in
    let l = t.front in
    let home = move_front-Moves t (ListIdx.reset l) c (reset-Keeps l) (reset-IsValid l v) in
    let end =
      move_front-Moves t (ListIdx.cursor_end_set l) c (cursor_end_set-Keeps l)
        (cursor_end_set-IsValid l v) in
    let up = move_front-Moves t (ListIdx.dec l) c (dec-Keeps l) (dec-IsValid l v) in
    let down = move_front-Moves t (ListIdx.inc l) c (inc-Keeps l) (inc-IsValid l v) in
    let page =
      move_front-Moves t (key_process l key []) c (key_process-Keeps l key [])
        (key_process-IsValid l key [] v) in
    let jump = jump_front-Moves t key c in
    let stay = stay-Moves t c in
    Moves-if t _ _ _ home (
      Moves-if t _ _ _ end (
        Moves-if t _ _ _ jump
          (Moves-if t _ _ _ up (Moves-if t _ _ _ down (Moves-if t _ _ _ page stay)))))

-- `navigate` never fails on a consistent text box; it keeps the text and the indices consistent.
pub navigate-IsMoved :
    (t : TextBox) (key : KeyUser)
    → IsConsistent t
    → (t' : TextBox) × (changed : Bool) × (navigate t key ≡ some (t', changed)) × IsMoved t t'
unfolding navigate
navigate-IsMoved t key c =
    let (t', changed, processed, e, m) = navigate_front-Moves t key c in
    let o : IsOver (length t'.ustr_work) t'.front = m.consistent.front_over in
    elim (Bool-cases (processed && not key.mod_shift)) [
      | inl s ↦ (
        record t' { back = t'.front },
        true,
        rw e (rw s),
        record {
          consistent = record {
            front_over = o;
            back_over = o;
            fits = m.consistent.fits;
            small = m.consistent.small;
          };
          same_work = m.same_work;
          same_max = m.same_max;
          same_focus = m.same_focus;
        },
      )
      | inr s ↦ (t', changed, rw e (rw s), m)
    ]
