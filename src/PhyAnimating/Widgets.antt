-- ===== src/PhyAnimating/Widgets.antt =====
-- PhyAnimating.cpp: the functions that put widgets into the window. `alloc` says which allocations
-- succeed; the result is none for NULL.
use processing_common.Common.{
  ℕ, suc, Bool, true, false, not, if◌then◌else◌, List, [], ◌∷◌, ◌++◌, Option, none, some,
}
use processing_common.PhyAnimating.{
  ℤ, pos, neg, div4, print_int, Call, add_widget, add_layout, grid_add, set_frame_hline,
  set_frame_sunken, set_chart, row_add, row_stretch, set_single_focus, set_text, set_range,
  set_step, set_value, connect, LabelInfo, Ui, made, failed, removed, is_live, deleted, called,
}

-- What is shown where all allocations have succeeded, function by function.
abbrev pub line_calls : List ℕ → ℕ → ℕ → ℕ → List Call
line_calls str label1 line label2 =
    add_widget label1
    ∷ add_widget line
    ∷ set_text label2 ((b'<' ∷ b'b' ∷ b'>' ∷ []) ++ (str ++ (b'<' ∷ b'/' ∷ b'b' ∷ b'>' ∷ [])))
    ∷ add_widget label2
    ∷ []

abbrev stretch : Bool → ℕ → List Call
stretch true layout = row_stretch layout ∷ []
stretch false layout = []

abbrev pub label_calls : Bool → ℕ → ℕ → List Call
label_calls align_right layout value =
    stretch align_right layout ++ (row_add layout value ∷ add_layout layout ∷ [])

abbrev pub prefixed_calls : List ℕ → ℕ → ℕ → ℕ → List Call
prefixed_calls str layout value prefix =
    set_text prefix str
    ∷ row_add layout prefix
    ∷ row_stretch layout
    ∷ row_add layout value
    ∷ add_layout layout
    ∷ []

abbrev pub button_calls : List ℕ → ℕ → List Call
button_calls str button = set_text button str ∷ add_widget button ∷ []

abbrev pub switch_calls : List ℕ → ℕ → ℕ → ℕ → List Call
switch_calls str layout label switch =
    set_text label str
    ∷ row_add layout label
    ∷ row_stretch layout
    ∷ row_add layout switch
    ∷ add_layout layout
    ∷ []

abbrev unit_calls : ℕ → Option ℕ → List Call
unit_calls layout none = []
unit_calls layout (some id) = row_add layout id ∷ []

unfoldable pub slider_calls : ℤ → ℤ → Bool → ℕ → ℕ → ℕ → ℕ → Option ℕ → List Call
slider_calls val_max val_start two_sided slider layout prefix value unit_label =
    set_range slider (if two_sided then neg val_max else pos 0) val_max
    ∷ set_step slider (div4 val_max)
    ∷ set_value slider val_start
    ∷ connect slider
    ∷ row_add layout prefix
    ∷ row_stretch layout
    ∷ row_add layout value
    ∷ (unit_calls layout unit_label ++ (add_widget slider ∷ add_layout layout ∷ []))

abbrev pub edit_calls : List ℕ → ℕ → ℕ → List Call
edit_calls str line label = set_text label str ∷ add_widget line ∷ add_widget label ∷ []

abbrev pub progress_calls : List ℕ → ℕ → ℕ → List Call
progress_calls str progress label = set_text label str ∷ add_widget progress ∷ add_widget label ∷ []

-- The label behind the line of uiLineAdd, if there is a text.
unfoldable pub line_label : (ℕ → Bool) → List ℕ → ℕ → ℕ → Ui → Ui
line_label alloc [] label1 line u = called (add_widget label1 ∷ add_widget line ∷ []) u
line_label alloc (c ∷ str) label1 line u =
    let label2 = u.next in
    if not (alloc label2)
    then deleted label1 (deleted line (failed u))
    else called (line_calls (c ∷ str) label1 line label2) (made u)

unfoldable pub ui_line_add : (ℕ → Bool) → List ℕ → Ui → Ui
unfolding line_label removed is_live
ui_line_add alloc str u =
    let label1 = u.next in
    let line = suc label1 in
    if not (alloc label1)
    then failed u
    else if not (alloc line)
    then deleted label1 (failed (made u))
    else line_label alloc str label1 line
        (called (set_frame_hline line ∷ set_frame_sunken line ∷ []) (made (made u)))

-- The prefix of uiLabelAdd, if there is one.
unfoldable pub label_prefix : (ℕ → Bool) → List ℕ → Bool → ℕ → ℕ → Ui → Ui × Option ℕ
label_prefix alloc [] align_right layout value u =
    (called (label_calls align_right layout value) u, some value)
label_prefix alloc (c ∷ str) align_right layout value u =
    let prefix = u.next in
    if not (alloc prefix)
    then (deleted layout (deleted value (failed u)), none)
    else (called (prefixed_calls (c ∷ str) layout value prefix) (made u), some value)

unfoldable pub ui_label_add : (ℕ → Bool) → List ℕ → Bool → Ui → Ui × Option ℕ
unfolding label_prefix removed is_live
ui_label_add alloc str align_right u =
    let layout = u.next in
    let value = suc layout in
    if not (alloc layout)
    then (failed u, none)
    else if not (alloc value)
    then (deleted layout (failed (made u)), none)
    else label_prefix alloc str align_right layout value (made (made u))

unfoldable pub ui_button_add : (ℕ → Bool) → List ℕ → Ui → Ui × Option ℕ
ui_button_add alloc str u =
    let button = u.next in
    if not (alloc button)
    then (failed u, none)
    else (called (button_calls str button) (made u), some button)

unfoldable pub ui_switch_add : (ℕ → Bool) → List ℕ → Ui → Ui × Option ℕ
unfolding removed is_live
ui_switch_add alloc str u =
    let layout = u.next in
    let label = suc layout in
    let switch = suc label in
    if not (alloc layout)
    then (failed u, none)
    else if not (alloc label)
    then (deleted layout (failed (made u)), none)
    else if not (alloc switch)
    then (
      deleted layout (deleted label (called (set_text label str ∷ []) (failed (made (made u))))),
      none,
    )
    else (called (switch_calls str layout label switch) (made (made (made u))), some switch)

-- The end of uiSliderAdd, with the label of the unit, if there is one.
unfoldable pub slider_shown :
    ℤ → ℤ → List ℕ → List ℕ → Bool → ℕ → ℕ → ℕ → ℕ → Option ℕ → Ui → Ui × Option ℕ
unfolding slider_calls
slider_shown val_max val_start str unit two_sided slider layout prefix value unit_label u =
    let inf : LabelInfo = record { label = value; prefix = str; unit = unit; val_max = val_max } in
    let u' : Ui = record u { labels = (slider, inf) ∷ u.labels } in
    (
      called (slider_calls val_max val_start two_sided slider layout prefix value unit_label) u',
      some slider,
    )

unfoldable pub slider_unit :
    (ℕ → Bool) → ℤ → ℤ → List ℕ → List ℕ → Bool → ℕ → ℕ → ℕ → ℕ → Ui → Ui × Option ℕ
unfolding slider_shown
slider_unit alloc val_max val_start str [] two_sided slider layout prefix value u =
    slider_shown val_max val_start str [] two_sided slider layout prefix value none u
slider_unit alloc val_max val_start str (c ∷ unit) two_sided slider layout prefix value u =
    let label = u.next in
    if not (alloc label)
    then (deleted slider (deleted layout (deleted prefix (deleted value (failed u)))), none)
    else slider_shown val_max val_start str (c ∷ unit) two_sided slider layout prefix value
        (some label)
        (called (set_text label ((b'[' ∷ []) ++ ((c ∷ unit) ++ (b']' ∷ []))) ∷ []) (made u))

unfoldable pub ui_slider_add : (ℕ → Bool) → ℤ → ℤ → List ℕ → List ℕ → Bool → Ui → Ui × Option ℕ
unfolding slider_unit removed is_live print_int
ui_slider_add alloc val_max val_start str unit two_sided u =
    let slider = u.next in
    let layout = suc slider in
    let prefix = suc layout in
    let value = suc prefix in
    let u3 = called (set_text prefix str ∷ []) (made (made (made u))) in
    if not (alloc slider)
    then (failed u, none)
    else if not (alloc layout)
    then (deleted slider (failed (made u)), none)
    else if not (alloc prefix)
    then (deleted slider (deleted layout (failed (made (made u)))), none)
    else if not (alloc value)
    then (deleted slider (deleted layout (deleted prefix (failed u3))), none)
    else slider_unit alloc val_max val_start str unit two_sided slider layout prefix value
        (called (set_text value (print_int val_start) ∷ []) (made u3))

unfoldable pub line_edit_label : (ℕ → Bool) → List ℕ → ℕ → Ui → Ui × Option ℕ
line_edit_label alloc [] line u = (called (add_widget line ∷ []) u, some line)
line_edit_label alloc (c ∷ str) line u =
    let label = u.next in
    if not (alloc label)
    then (deleted line (failed u), none)
    else (called (edit_calls (c ∷ str) line label) (made u), some line)

unfoldable pub ui_line_edit_add : (ℕ → Bool) → List ℕ → Ui → Ui × Option ℕ
unfolding line_edit_label removed is_live
ui_line_edit_add alloc str u =
    let line = u.next in
    if not (alloc line) then (failed u, none) else line_edit_label alloc str line (made u)

unfoldable pub ui_progress_add : (ℕ → Bool) → List ℕ → Ui → Ui × Option ℕ
unfolding removed is_live
ui_progress_add alloc str u =
    let progress = u.next in
    let label = suc progress in
    if not (alloc progress)
    then (failed u, none)
    else if not (alloc label)
    then (deleted progress (failed (made u)), none)
    else (called (progress_calls str progress label) (made (made u)), some progress)

unfoldable pub ui_chart_add : (ℕ → Bool) → Ui → Ui × Option ℕ
unfolding removed is_live
ui_chart_add alloc u =
    let view = u.next in
    let chart = suc view in
    let u1 = called (set_single_focus view ∷ []) (made u) in
    if not (alloc view)
    then (failed u, none)
    else if not (alloc chart)
    then (deleted view (failed u1), none)
    else (called (set_chart view chart ∷ grid_add view ∷ []) (made u1), some chart)

-- A call of one of the functions.
pub data Add : Type 0 where
  line button switch line_edit progress : List ℕ → Add
  label : List ℕ → Bool → Add
  slider : ℤ → ℤ → List ℕ → List ℕ → Bool → Add
  chart : Add

unfoldable pub add : (ℕ → Bool) → Add → Ui → Ui × Option ℕ
unfolding ui_line_add ui_label_add ui_button_add ui_switch_add ui_slider_add ui_line_edit_add
    ui_progress_add ui_chart_add
add alloc (line str) u = (ui_line_add alloc str u, none)
add alloc (button str) u = ui_button_add alloc str u
add alloc (switch str) u = ui_switch_add alloc str u
add alloc (line_edit str) u = ui_line_edit_add alloc str u
add alloc (progress str) u = ui_progress_add alloc str u
add alloc (label str align_right) u = ui_label_add alloc str align_right u
add alloc (slider val_max val_start str unit two_sided) u =
    ui_slider_add alloc val_max val_start str unit two_sided u
add alloc chart u = ui_chart_add alloc u

unfoldable pub adds : (ℕ → Bool) → List Add → Ui → Ui
unfolding add
adds alloc [] u = u
adds alloc (a ∷ more) u = adds alloc more (add alloc a u).0
