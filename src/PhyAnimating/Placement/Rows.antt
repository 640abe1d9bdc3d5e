-- ===== src/PhyAnimating/Placement/Rows.antt =====
-- The functions of PhyAnimating.cpp that make up to three objects.
use processing_common.Common.{ℕ, suc, Bool, true, false, not, List, [], ◌∷◌}
use processing_common.PhyAnimating.{
  add_widget, grid_add, set_frame_hline, set_frame_sunken, set_chart, set_single_focus, set_text,
  Ui, made, failed, called,
}
use processing_common.PhyAnimating.Widgets.{
  line_calls, label_calls, prefixed_calls, button_calls, switch_calls, edit_calls, progress_calls,
  line_label, ui_line_add, label_prefix, ui_label_add, ui_button_add, ui_switch_add,
  line_edit_label, ui_line_edit_add, ui_progress_add, ui_chart_add,
}
use processing_common.PhyAnimating.Placement.{
  placing, as_widget, as_layout, in_grid, in_row, in_view, Pending, IsTidy, made-Pending,
  failed-Pending, Pending-IsTidy, deleted-Pending, called-Pending, IsTidy-Pending, failed-IsTidy,
  either, Fst, shown-IsTidy,
}

pub ui_button_add-IsTidy :
    (alloc : ℕ → Bool) (str : List ℕ) (u : Ui) → IsTidy u → IsTidy (ui_button_add alloc str u).0
unfolding ui_button_add
ui_button_add-IsTidy alloc str u h =
    let p0 = IsTidy-Pending u h in
    either Fst (not (alloc u.next)) _ _ (failed-IsTidy u p0) (
      shown-IsTidy (u.next ∷ []) (button_calls str u.next) (made u) (made-Pending [] u p0)
        (as_widget (search placing depth 9), tt))

line_label-IsTidy :
    (alloc : ℕ → Bool) (str : List ℕ) (label1 frame : ℕ) (u : Ui)
    → Pending (frame ∷ label1 ∷ []) u
    → IsTidy (line_label alloc str label1 frame u)
unfolding line_label
line_label-IsTidy alloc [] label1 frame u p =
    shown-IsTidy (frame ∷ label1 ∷ []) (add_widget label1 ∷ add_widget frame ∷ []) u p
      (as_widget (search placing depth 9), (as_widget (search placing depth 9), tt))
line_label-IsTidy alloc (c ∷ str) label1 frame u p =
    either IsTidy (not (alloc u.next)) _ _
      (Pending-IsTidy [] _
        (deleted-Pending label1 [] _
          (deleted-Pending frame (label1 ∷ []) _ (failed-Pending (frame ∷ label1 ∷ []) u p)))
        tt)
      (shown-IsTidy (u.next ∷ frame ∷ label1 ∷ []) (line_calls (c ∷ str) label1 frame u.next)
        (made u) (made-Pending (frame ∷ label1 ∷ []) u p)
        (
          as_widget (search placing depth 9),
          (as_widget (search placing depth 9), (as_widget (search placing depth 9), tt)),
        ))

pub ui_line_add-IsTidy :
    (alloc : ℕ → Bool) (str : List ℕ) (u : Ui) → IsTidy u → IsTidy (ui_line_add alloc str u)
unfolding ui_line_add
ui_line_add-IsTidy alloc str u h =
    let p0 = IsTidy-Pending u h in
    let p1 = made-Pending [] u p0 in
    let p2 = made-Pending (u.next ∷ []) (made u) p1 in
    let frame = suc u.next in
    either IsTidy (not (alloc u.next)) _ _ (failed-IsTidy u p0) (
      either IsTidy (not (alloc (suc u.next))) _ _
        (Pending-IsTidy [] _
          (deleted-Pending u.next [] _ (failed-Pending (u.next ∷ []) (made u) p1)) tt)
        (line_label-IsTidy alloc str u.next frame _ (
          called-Pending (frame ∷ u.next ∷ []) (set_frame_hline frame ∷ set_frame_sunken frame ∷ [])
            (made (made u)) p2)))

label_prefix-IsTidy :
    (alloc : ℕ → Bool) (str : List ℕ) (align_right : Bool) (layout value : ℕ) (u : Ui)
    → Pending (value ∷ layout ∷ []) u
    → IsTidy (label_prefix alloc str align_right layout value u).0
unfolding label_prefix
label_prefix-IsTidy alloc [] true layout value u p =
    shown-IsTidy (value ∷ layout ∷ []) (label_calls true layout value) u p (
      in_row layout (search placing depth 9) (search placing depth 9),
      (as_layout (search placing depth 9), tt),
    )
label_prefix-IsTidy alloc [] false layout value u p =
    shown-IsTidy (value ∷ layout ∷ []) (label_calls false layout value) u p (
      in_row layout (search placing depth 9) (search placing depth 9),
      (as_layout (search placing depth 9), tt),
    )
label_prefix-IsTidy alloc (c ∷ str) align_right layout value u p =
    either Fst (not (alloc u.next)) _ _
      (Pending-IsTidy [] _
        (deleted-Pending layout [] _
          (deleted-Pending value (layout ∷ []) _ (failed-Pending (value ∷ layout ∷ []) u p)))
        tt)
      (shown-IsTidy (u.next ∷ value ∷ layout ∷ []) (prefixed_calls (c ∷ str) layout value u.next)
        (made u) (made-Pending (value ∷ layout ∷ []) u p)
        (
          in_row layout (search placing depth 9) (search placing depth 9),
          (
            in_row layout (search placing depth 9) (search placing depth 9),
            (as_layout (search placing depth 9), tt),
          ),
        ))

pub ui_label_add-IsTidy :
    (alloc : ℕ → Bool) (str : List ℕ) (align_right : Bool) (u : Ui)
    → IsTidy u
    → IsTidy (ui_label_add alloc str align_right u).0
unfolding ui_label_add
ui_label_add-IsTidy alloc str align_right u h =
    let p0 = IsTidy-Pending u h in
    let p1 = made-Pending [] u p0 in
    either Fst (not (alloc u.next)) _ _ (failed-IsTidy u p0) (
      either Fst (not (alloc (suc u.next))) _ _
        (Pending-IsTidy [] _
          (deleted-Pending u.next [] _ (failed-Pending (u.next ∷ []) (made u) p1)) tt)
        (label_prefix-IsTidy alloc str align_right u.next (suc u.next) (made (made u))
          (made-Pending (u.next ∷ []) (made u) p1)))

pub ui_switch_add-IsTidy :
    (alloc : ℕ → Bool) (str : List ℕ) (u : Ui) → IsTidy u → IsTidy (ui_switch_add alloc str u).0
unfolding ui_switch_add
ui_switch_add-IsTidy alloc str u h =
    let p0 = IsTidy-Pending u h in
    let p1 = made-Pending [] u p0 in
    let layout = u.next in
    let label = suc layout in
    let p2 = made-Pending (layout ∷ []) (made u) p1 in
    either Fst (not (alloc layout)) _ _ (failed-IsTidy u p0) (
      either Fst (not (alloc label)) _ _
        (Pending-IsTidy [] _
          (deleted-Pending layout [] _ (failed-Pending (layout ∷ []) (made u) p1)) tt)
        (either Fst (not (alloc (suc label))) _ _
          (Pending-IsTidy [] _
            (deleted-Pending layout [] _ (
              deleted-Pending label (layout ∷ []) _ (
                called-Pending (label ∷ layout ∷ []) (set_text label str ∷ [])
                  (failed (made (made u)))
                  (failed-Pending (label ∷ layout ∷ []) (made (made u)) p2))))
            tt)
          (shown-IsTidy (suc label ∷ label ∷ layout ∷ [])
            (switch_calls str layout label (suc label)) (made (made (made u)))
            (made-Pending (label ∷ layout ∷ []) (made (made u)) p2)
            (
              in_row layout (search placing depth 9) (search placing depth 9),
              (
                in_row layout (search placing depth 9) (search placing depth 9),
                (as_layout (search placing depth 9), tt),
              ),
            ))))

pub ui_line_edit_add-IsTidy :
    (alloc : ℕ → Bool) (str : List ℕ) (u : Ui) → IsTidy u → IsTidy (ui_line_edit_add alloc str u).0
unfolding ui_line_edit_add line_edit_label
ui_line_edit_add-IsTidy alloc [] u h =
    let p0 = IsTidy-Pending u h in
    either Fst (not (alloc u.next)) _ _ (failed-IsTidy u p0) (
      shown-IsTidy (u.next ∷ []) (add_widget u.next ∷ []) (made u) (made-Pending [] u p0)
        (as_widget (search placing depth 9), tt))
ui_line_edit_add-IsTidy alloc (c ∷ str) u h =
    let p0 = IsTidy-Pending u h in
    let p1 = made-Pending [] u p0 in
    either Fst (not (alloc u.next)) _ _ (failed-IsTidy u p0) (
      either Fst (not (alloc (suc u.next))) _ _
        (Pending-IsTidy [] _
          (deleted-Pending u.next [] _ (failed-Pending (u.next ∷ []) (made u) p1)) tt)
        (shown-IsTidy (suc u.next ∷ u.next ∷ []) (edit_calls (c ∷ str) u.next (suc u.next))
          (made (made u)) (made-Pending (u.next ∷ []) (made u) p1)
          (as_widget (search placing depth 9), (as_widget (search placing depth 9), tt))))

pub ui_progress_add-IsTidy :
    (alloc : ℕ → Bool) (str : List ℕ) (u : Ui) → IsTidy u → IsTidy (ui_progress_add alloc str u).0
unfolding ui_progress_add
ui_progress_add-IsTidy alloc str u h =
    let p0 = IsTidy-Pending u h in
    let p1 = made-Pending [] u p0 in
    either Fst (not (alloc u.next)) _ _ (failed-IsTidy u p0) (
      either Fst (not (alloc (suc u.next))) _ _
        (Pending-IsTidy [] _
          (deleted-Pending u.next [] _ (failed-Pending (u.next ∷ []) (made u) p1)) tt)
        (shown-IsTidy (suc u.next ∷ u.next ∷ []) (progress_calls str u.next (suc u.next))
          (made (made u)) (made-Pending (u.next ∷ []) (made u) p1)
          (as_widget (search placing depth 9), (as_widget (search placing depth 9), tt))))

pub ui_chart_add-IsTidy : (alloc : ℕ → Bool) (u : Ui) → IsTidy u → IsTidy (ui_chart_add alloc u).0
unfolding ui_chart_add
ui_chart_add-IsTidy alloc u h =
    let p0 = IsTidy-Pending u h in
    let focus = set_single_focus u.next ∷ [] in
    let p1 = called-Pending (u.next ∷ []) focus (made u) (made-Pending [] u p0) in
    let u1 = called focus (made u) in
    either Fst (not (alloc u.next)) _ _ (failed-IsTidy u p0) (
      either Fst (not (alloc (suc u.next))) _ _
        (Pending-IsTidy [] _ (deleted-Pending u.next [] _ (failed-Pending (u.next ∷ []) u1 p1)) tt)
        (shown-IsTidy (suc u.next ∷ u.next ∷ [])
          (set_chart u.next (suc u.next) ∷ grid_add u.next ∷ []) (made u1)
          (made-Pending (u.next ∷ []) u1 p1)
          (
            in_view u.next (search placing depth 9) (search placing depth 9),
            (in_grid (search placing depth 9), tt),
          )))
