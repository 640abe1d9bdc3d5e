-- ===== src/PhyAnimating/Windows.antt =====
-- The process of PhyAnimating.cpp ends when its window is closed.
use processing_common.Common.{
  ◌≡◌, ◌∙◌, inl, inr, refl, sym, ap, subst, Bool, true, false, not, ◌&&◌, ◌||◌, if◌then◌else◌, List,
  [], ◌∷◌, Bool-cases,
}
use processing_common.MailSending.{Success, pending, positive, negative}
use processing_common.PhyAnimating.{
  qt_init, main_start, main, Qt, qt_global_init, PhyAnimating, new_animating, Tick, qt_begun,
  window_made, watched, process_in, process,
}

-- The calls up to the first one that does not give Pending.
unfoldable pub next :
    PhyAnimating × Success → (PhyAnimating → PhyAnimating × Success) → PhyAnimating × Success
next (p, pending) f = f p
next (p, positive) f = (p, positive)
next (p, negative) f = (p, negative)

unfoldable pub run : List Tick → PhyAnimating → PhyAnimating × Success
unfolding process next
run [] p = (p, pending)
run (t ∷ ts) p = next (process t p) (run ts)

-- Whether a window that is seen is not seen at a later call.
abbrev pub closes : Bool → List Tick → Bool
closes old [] = false
closes old (t ∷ ts) = (old && not t.visible) || closes t.visible ts

abbrev pub AllAnimated : List Tick → Type 0
AllAnimated [] = Unit {0}
AllAnimated (t ∷ ts) = (t.animated ≡ pending) × AllAnimated ts

-- A process in its main state, with all that it needs for it.
pub record HasWindow (p : PhyAnimating) : Type 0 where
  pub state : p.state ≡ main
  pub window : p.window ≡ true
  pub grid : p.grid ≡ true
  pub opt : p.opt ≡ true
  pub base_init_done : p.base_init_done ≡ true

-- A process with its window, which has ended if the window is closed.
pub record IsWatched (closed : Bool) (r : PhyAnimating × Success) : Type 0 where
  pub result : r.1 ≡ (if closed then positive else pending)
  pub has_window : HasWindow r.0

closed_at :
    (ts : List Tick) (t : Tick) (p : PhyAnimating)
    → HasWindow p
    → (p.win_visible_old && not t.visible) ≡ true
    → process t p ≡ (p, positive)
    → IsWatched (closes p.win_visible_old (t ∷ ts)) (run (t ∷ ts) p)
unfolding run next
closed_at ts t p w closed eq =
    subst (λ x. IsWatched (closes p.win_visible_old (t ∷ ts)) (next x (run ts))) (sym eq)
      (subst (λ b. IsWatched (b || closes t.visible ts) (p, positive)) (sym closed)
        (record { result = refl; has_window = w }))

run-main :
    (ts : List Tick) (p : PhyAnimating)
    → HasWindow p
    → AllAnimated ts
    → IsWatched (closes p.win_visible_old ts) (run ts p)
unfolding run process process_in watched next
run-main [] p w h = record { result = refl; has_window = w }
run-main (t ∷ ts) p w h = elim (Bool-cases (p.win_visible_old && not t.visible)) [
  | inl closed ↦
      let eq : process t p ≡ (p, positive) =
        ap (λ s. process_in s t p) w.state ∙ rw (h.0, closed) refl in
      closed_at ts t p w closed eq
  | inr kept ↦
      let p' : PhyAnimating = record p { win_visible_old = t.visible } in
      let w' : HasWindow p' = record {
        state = w.state;
        window = w.window;
        grid = w.grid;
        opt = w.opt;
        base_init_done = w.base_init_done;
      } in
      let eq : process t p ≡ (p', pending) =
        ap (λ s. process_in s t p) w.state ∙ rw (h.0, kept) refl in
      subst (λ x. IsWatched (closes p.win_visible_old (t ∷ ts)) (next x (run ts))) (sym eq)
        (subst (λ b. IsWatched (b || closes t.visible ts) (run ts p')) (sym kept)
          (run-main ts p' w' h.1))
]

-- What the first three calls need: no driver above, a Qt application, and memory.
pub record IsServed (qt : Qt) (t1 t2 t3 : Tick) : Type 0 where
  pub level : t1.level_driver ≡ 0
  pub app : (qt.global_init_done || t2.app_created) ≡ true
  pub window : t3.window_created ≡ true
  pub grid : t3.grid_created ≡ true
  pub opt : t3.opt_created ≡ true

begun :
    (qt : Qt) (created : Bool) (p : PhyAnimating)
    → (qt.global_init_done || created) ≡ true
    → (q : Qt) × (qt_begun p (qt_global_init created qt)
        ≡ (record p { qt = q; state = main_start }, pending))
unfolding qt_begun qt_global_init
begun qt created p h = elim (Bool-cases qt.global_init_done) [
  | inl again ↦ (qt, rw again refl)
  | inr first ↦
      let new : created ≡ true = sym (ap (λ b. b || created) first) ∙ h in
      (record { app = true; global_init_done = true }, rw (first, new) refl)
]

-- The process once its window is made.
abbrev shown : Qt → PhyAnimating
shown q = record (new_animating q) {
  window = true;
  grid = true;
  opt = true;
  base_init_done = true;
  state = main;
}

-- If the driver level is 0, Qt is initialised or can be, and the allocations succeed, then a new
-- process whose derived class stays pending is in its main state after three calls, with its
-- window, its grid, its box of options and the mark that all is made, and keeps them. From then on
-- it is pending until the window is not visible at a call after one at which it was; then it ends
-- with success.
pub run-window :
    (qt : Qt) (t1 t2 t3 : Tick) (ts : List Tick)
    → IsServed qt t1 t2 t3
    → AllAnimated ts
    → IsWatched (closes false ts) (run (t1 ∷ t2 ∷ t3 ∷ ts) (new_animating qt))
unfolding run process process_in next window_made
run-window qt t1 t2 t3 ts s h =
    let p1 : PhyAnimating = record (new_animating qt) { state = qt_init } in
    let eq1 : process t1 (new_animating qt) ≡ (p1, pending) = rw s.level refl in
    let (q, eq2) = begun qt t2.app_created p1 s.app in
    let p2 : PhyAnimating = record (new_animating q) { state = main_start } in
    let eq3 : process t3 p2 ≡ (shown q, pending) = rw (s.window, s.grid, s.opt) refl in
    let w : HasWindow (shown q) = record {
      state = refl;
      window = refl;
      grid = refl;
      opt = refl;
      base_init_done = refl;
    } in
    let eq : run (t1 ∷ t2 ∷ t3 ∷ ts) (new_animating qt) ≡ run ts (shown q) =
      ap (λ x. next x (run (t2 ∷ t3 ∷ ts))) eq1
      ∙ ap (λ x. next x (run (t3 ∷ ts))) eq2
      ∙ ap (λ x. next x (run ts)) eq3 in
    subst (IsWatched (closes false ts)) (sym eq) (run-main ts (shown q) w h)
