-- ===== src/PhyAnimating/Placement/Adds.antt =====
-- The slider of PhyAnimating.cpp, and any sequence of widgets.
use processing_common.Common.{ℕ, suc, Bool, not, List, [], ◌∷◌, ◌++◌, none, some}
use processing_common.PhyAnimating.{ℤ, print_int, set_text, Ui, made, called}
use processing_common.PhyAnimating.Widgets.{
  slider_calls, slider_shown, slider_unit, ui_slider_add, Add, line, button, switch, line_edit,
  progress, label, slider, chart, add, adds,
}
use processing_common.PhyAnimating.Placement.{
  placing, as_widget, as_layout, in_row, Pending, IsTidy, made-Pending, failed-Pending,
  Pending-IsTidy, deleted-Pending, called-Pending, IsTidy-Pending, failed-IsTidy, either, Fst,
  shown-IsTidy,
}
use processing_common.PhyAnimating.Placement.Rows.{
  ui_line_add-IsTidy, ui_label_add-IsTidy, ui_button_add-IsTidy, ui_switch_add-IsTidy,
  ui_line_edit_add-IsTidy, ui_progress_add-IsTidy, ui_chart_add-IsTidy,
}

abbrev with_info : ℕ → ℕ → List ℕ → List ℕ → ℤ → Ui → Ui
with_info knob value str unit val_max u = record u {
  labels =
      (knob, record { label = value; prefix = str; unit = unit; val_max = val_max }) ∷ u.labels;
}

slider_shown-IsTidy :
    (val_max val_start : ℤ) (str unit : List ℕ) (two_sided : Bool) (knob row prefix value : ℕ)
    (u : Ui)
    → Pending (value ∷ prefix ∷ row ∷ knob ∷ []) u
    → IsTidy (slider_shown val_max val_start str unit two_sided knob row prefix value none u).0
unfolding slider_shown slider_calls
slider_shown-IsTidy val_max val_start str unit two_sided knob row prefix value u p =
    shown-IsTidy (value ∷ prefix ∷ row ∷ knob ∷ [])
      (slider_calls val_max val_start two_sided knob row prefix value none)
      (with_info knob value str unit val_max u)
      (record { rest = p.rest; live = p.live; owned = p.owned; fault = p.fault })
      (
        in_row row (search placing depth 9) (search placing depth 9),
        (
          in_row row (search placing depth 9) (search placing depth 9),
          (as_layout (search placing depth 9), (as_widget (search placing depth 9), tt)),
        ),
      )

slider_shown-IsTidy_unit :
    (val_max val_start : ℤ) (str unit : List ℕ) (two_sided : Bool) (knob row prefix value name : ℕ)
    (u : Ui)
    → Pending (name ∷ value ∷ prefix ∷ row ∷ knob ∷ []) u
    → IsTidy
        (slider_shown val_max val_start str unit two_sided knob row prefix value (some name) u).0
unfolding slider_shown slider_calls
slider_shown-IsTidy_unit val_max val_start str unit two_sided knob row prefix value name u p =
    shown-IsTidy (name ∷ value ∷ prefix ∷ row ∷ knob ∷ [])
      (slider_calls val_max val_start two_sided knob row prefix value (some name))
      (with_info knob value str unit val_max u)
      (record { rest = p.rest; live = p.live; owned = p.owned; fault = p.fault })
      (
        in_row row (search placing depth 9) (search placing depth 9),
        (
          in_row row (search placing depth 9) (search placing depth 9),
          (
            in_row row (search placing depth 9) (search placing depth 9),
            (as_layout (search placing depth 9), (as_widget (search placing depth 9), tt)),
          ),
        ),
      )

slider_unit-IsTidy :
    (alloc : ℕ → Bool) (val_max val_start : ℤ) (str unit : List ℕ) (two_sided : Bool)
    (knob row prefix value : ℕ) (u : Ui)
    → Pending (value ∷ prefix ∷ row ∷ knob ∷ []) u
    → IsTidy (slider_unit alloc val_max val_start str unit two_sided knob row prefix value u).0
unfolding slider_unit
slider_unit-IsTidy alloc val_max val_start str [] two_sided knob row prefix value u p =
    slider_shown-IsTidy val_max val_start str [] two_sided knob row prefix value u p
slider_unit-IsTidy alloc val_max val_start str (c ∷ unit) two_sided knob row prefix value u p =
    let ids = value ∷ prefix ∷ row ∷ knob ∷ [] in
    let text = set_text u.next ((b'[' ∷ []) ++ ((c ∷ unit) ++ (b']' ∷ []))) ∷ [] in
    either Fst (not (alloc u.next)) _ _
      (Pending-IsTidy [] _
        (deleted-Pending knob [] _ (
          deleted-Pending row (knob ∷ []) _ (
            deleted-Pending prefix (row ∷ knob ∷ []) _
              (deleted-Pending value (prefix ∷ row ∷ knob ∷ []) _ (failed-Pending ids u p)))))
        tt)
      (slider_shown-IsTidy_unit val_max val_start str (c ∷ unit) two_sided knob row prefix value
        u.next (called text (made u))
        (called-Pending (u.next ∷ ids) text (made u) (made-Pending ids u p)))

ui_slider_add-IsTidy :
    (alloc : ℕ → Bool) (val_max val_start : ℤ) (str unit : List ℕ) (two_sided : Bool) (u : Ui)
    → IsTidy u
    → IsTidy (ui_slider_add alloc val_max val_start str unit two_sided u).0
unfolding ui_slider_add
ui_slider_add-IsTidy alloc val_max val_start str unit two_sided u h =
    let p0 = IsTidy-Pending u h in
    let knob = u.next in
    let row = suc knob in
    let prefix = suc row in
    let value = suc prefix in
    let p1 = made-Pending [] u p0 in
    let p2 = made-Pending (knob ∷ []) (made u) p1 in
    let text = set_text prefix str ∷ [] in
    let u3 = called text (made (made (made u))) in
    let p3 =
      called-Pending (prefix ∷ row ∷ knob ∷ []) text (made (made (made u)))
        (made-Pending (row ∷ knob ∷ []) (made (made u)) p2) in
    let p4 =
      called-Pending (value ∷ prefix ∷ row ∷ knob ∷ []) (set_text value (print_int val_start) ∷ [])
        (made u3) (made-Pending (prefix ∷ row ∷ knob ∷ []) u3 p3) in
    either Fst (not (alloc knob)) _ _ (failed-IsTidy u p0) (
      either Fst (not (alloc row)) _ _
        (Pending-IsTidy [] _ (deleted-Pending knob [] _ (failed-Pending (knob ∷ []) (made u) p1))
          tt)
        (either Fst (not (alloc prefix)) _ _
          (Pending-IsTidy [] _
            (deleted-Pending knob [] _ (
              deleted-Pending row (knob ∷ []) _
                (failed-Pending (row ∷ knob ∷ []) (made (made u)) p2)))
            tt)
          (either Fst (not (alloc value)) _ _
            (Pending-IsTidy [] _
              (deleted-Pending knob [] _ (
                deleted-Pending row (knob ∷ []) _ (
                  deleted-Pending prefix (row ∷ knob ∷ []) _
                    (failed-Pending (prefix ∷ row ∷ knob ∷ []) u3 p3))))
              tt)
            (slider_unit-IsTidy alloc val_max val_start str unit two_sided knob row prefix value _
              p4))))

add-IsTidy : (alloc : ℕ → Bool) (a : Add) (u : Ui) → IsTidy u → IsTidy (add alloc a u).0
unfolding add
add-IsTidy alloc (line str) u h = ui_line_add-IsTidy alloc str u h
add-IsTidy alloc (button str) u h = ui_button_add-IsTidy alloc str u h
add-IsTidy alloc (switch str) u h = ui_switch_add-IsTidy alloc str u h
add-IsTidy alloc (line_edit str) u h = ui_line_edit_add-IsTidy alloc str u h
add-IsTidy alloc (progress str) u h = ui_progress_add-IsTidy alloc str u h
add-IsTidy alloc (label str align_right) u h = ui_label_add-IsTidy alloc str align_right u h
add-IsTidy alloc (slider val_max val_start str unit two_sided) u h =
    ui_slider_add-IsTidy alloc val_max val_start str unit two_sided u h
add-IsTidy alloc chart u h = ui_chart_add-IsTidy alloc u h

-- Whichever allocations fail, after any sequence of calls of the functions that add widgets every
-- live object is one that a layout of the window owns, itself or by the row or chart view that it
-- is in, and no object has been deleted that was not alive, if that was so before.
pub adds-IsTidy :
    (alloc : ℕ → Bool) (more : List Add) (u : Ui) → IsTidy u → IsTidy (adds alloc more u)
unfolding adds
adds-IsTidy alloc [] u h = h
adds-IsTidy alloc (a ∷ more) u h = adds-IsTidy alloc more (add alloc a u).0 (add-IsTidy alloc a u h)
