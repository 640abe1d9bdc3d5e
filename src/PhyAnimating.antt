-- ===== src/PhyAnimating.antt =====
-- PhyAnimating.cpp: a Qt window that a process drives. What Qt, the allocator and the derived class
-- answer is an argument.
pub mod Widgets
pub mod Placement
pub mod Windows
pub mod Tests
use processing_common.Common.{
  ℕ, zero, suc, ◌/◌, Bool, true, false, not, ◌&&◌, ◌||◌, ◌==◌, if◌then◌else◌, List, [], ◌∷◌, ◌++◌,
  Option, none, some,
}
use processing_common.MailSending.{Success, pending, positive, negative, digits}

-- An int, which is not INT_MIN here.
pub data ℤ : Type 0 where
  pos negsuc : ℕ → ℤ

abbrev pub neg : ℤ → ℤ
neg (pos zero) = pos zero
neg (pos (suc n)) = negsuc n
neg (negsuc n) = pos (suc n)

-- The quotient of C++, which is cut towards 0.
abbrev pub div4 : ℤ → ℤ
div4 (pos n) = pos (n / 4)
div4 (negsuc n) = neg (pos (suc n / 4))

-- snprintf with "%d"
unfoldable pub print_int : ℤ → List ℕ
unfolding digits
print_int (pos n) = digits 10 n []
print_int (negsuc n) = b'-' ∷ digits 10 (suc n) []

-- The calls of Qt, with the objects they are about. `add_widget`, `add_layout` and `grid_add` are
-- those of the window's own layouts, and make it the owner.
pub data Call : Type 0 where
  add_widget add_layout grid_add set_frame_hline set_frame_sunken : ℕ → Call
  set_chart row_add : ℕ → ℕ → Call
  row_stretch set_single_focus : ℕ → Call
  set_text : ℕ → List ℕ → Call
  set_range : ℕ → ℤ → ℤ → Call
  set_step set_value : ℕ → ℤ → Call
  connect : ℕ → Call

pub record LabelInfo : Type 0 where
  pub label : ℕ
  pub prefix : List ℕ
  pub unit : List ℕ
  pub val_max : ℤ

-- The objects that are alive, by the number of the allocation they come from, the last first; the
-- calls, the last first; the map of the labels; and whether an object has been deleted twice.
pub record Ui : Type 0 where
  pub next : ℕ
  pub live : List ℕ
  pub calls : List Call
  pub labels : List (ℕ × LabelInfo)
  pub fault : Bool

abbrev pub made : Ui → Ui
made u = record u { next = suc u.next; live = u.next ∷ u.live }

abbrev pub failed : Ui → Ui
failed u = record u { next = suc u.next }

pub is_live : ℕ → List ℕ → Bool
is_live id [] = false
is_live id (i ∷ ids) = (i == id) || is_live id ids

pub removed : ℕ → List ℕ → List ℕ
removed id [] = []
removed id (i ∷ ids) = if i == id then ids else i ∷ removed id ids

abbrev pub deleted : ℕ → Ui → Ui
deleted id u = record u { live = removed id u.live; fault = u.fault || not (is_live id u.live) }

abbrev pub called : List Call → Ui → Ui
called [] u = u
called (c ∷ cs) u = called cs (record u { calls = c ∷ u.calls })

pub label_of : ℕ → List (ℕ × LabelInfo) → Option LabelInfo
label_of slider [] = none
label_of slider ((id, inf) ∷ labels) = if id == slider then some inf else label_of slider labels

abbrev label_updated : ℤ → Ui → Option LabelInfo → Ui
label_updated value u none = u
label_updated value u (some inf) = called (set_text inf.label (print_int value) ∷ []) u

unfoldable pub slider_updated : ℕ → ℤ → Ui → Ui
unfolding label_of print_int
slider_updated sender value u = label_updated value u (label_of sender u.labels)

pub data ProcState : Type 0 where
  start qt_init main_start main : ProcState

-- The static variables of Qt.
pub record Qt : Type 0 where
  pub app : Bool
  pub global_init_done : Bool

unfoldable pub qt_global_init : Bool → Qt → Qt × Bool
qt_global_init created q =
    if q.global_init_done
    then (q, true)
    else if created
    then (record { app = true; global_init_done = true }, true)
    else (q, false)

unfoldable pub qt_global_destruct : Qt → Qt
qt_global_destruct q = record q { app = false }

pub record PhyAnimating : Type 0 where
  pub state : ProcState
  pub window : Bool
  pub grid : Bool
  pub opt : Bool
  pub win_visible_old : Bool
  pub base_init_done : Bool
  pub labels : List (ℕ × LabelInfo)
  pub qt : Qt

abbrev pub new_animating : Qt → PhyAnimating
new_animating qt = record {
  state = start;
  window = false;
  grid = false;
  opt = false;
  win_visible_old = false;
  base_init_done = false;
  labels = [];
  qt = qt;
}

-- What a call of `process` meets: the level of the driver, the allocations, the derived class, the
-- visibility of the window.
pub record Tick : Type 0 where
  pub level_driver : ℕ
  pub app_created : Bool
  pub window_created : Bool
  pub grid_created : Bool
  pub opt_created : Bool
  pub animated : Success
  pub visible : Bool

unfoldable pub qt_begun : PhyAnimating → Qt × Bool → PhyAnimating × Success
qt_begun p (q, true) = (record p { qt = q; state = main_start }, pending)
qt_begun p (q, false) = (record p { qt = q }, negative)

unfoldable pub window_made : Tick → PhyAnimating → PhyAnimating × Success
window_made t p =
    if not t.window_created
    then (record p { window = false }, negative)
    else if not t.grid_created
    then (record p { window = true; grid = false }, negative)
    else if not t.opt_created
    then (record p { window = true; grid = true; opt = false }, negative)
    else (
      record p { window = true; grid = true; opt = true; base_init_done = true; state = main },
      pending,
    )

unfoldable pub watched : Success → Bool → PhyAnimating → PhyAnimating × Success
watched positive visible p = (p, positive)
watched negative visible p = (p, negative)
watched pending visible p =
    if p.win_visible_old && not visible
    then (p, positive)
    else (record p { win_visible_old = visible }, pending)

unfoldable pub process_in : ProcState → Tick → PhyAnimating → PhyAnimating × Success
unfolding qt_begun qt_global_init window_made watched
process_in start t p =
    if not (t.level_driver == 0) then (p, negative) else (record p { state = qt_init }, pending)
process_in qt_init t p = qt_begun p (qt_global_init t.app_created p.qt)
process_in main_start t p = window_made t p
process_in main t p = watched t.animated t.visible p

unfoldable pub process : Tick → PhyAnimating → PhyAnimating × Success
unfolding process_in
process t p = process_in p.state t p

-- The end of a shutdown, once animShutdown is done.
unfoldable pub window_closed : Success → PhyAnimating → PhyAnimating × Success
window_closed pending p = (p, pending)
window_closed positive p = (record p { labels = []; window = false }, positive)
window_closed negative p = (record p { labels = []; window = false }, positive)

-- `anim_shutdown` is what the derived class answers.
unfoldable pub shutdown : Success → PhyAnimating → PhyAnimating × Success
unfolding window_closed
shutdown anim_shutdown p = window_closed (if p.base_init_done then anim_shutdown else positive) p
