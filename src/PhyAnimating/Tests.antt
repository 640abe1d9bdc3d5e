-- ===== src/PhyAnimating/Tests.antt =====
-- Runs of PhyAnimating.cpp on small inputs.
use processing_common.Common.{ℕ, ◌≡◌, ◌==◌, refl, Bool, true, false, not, List, [], ◌∷◌}
use processing_common.MailSending.{pending}
use processing_common.PhyAnimating.{pos, Ui, Qt, new_animating, Tick, removed, is_live}
use processing_common.PhyAnimating.Widgets.{slider_unit, ui_slider_add, Add, label, slider, adds}
use processing_common.PhyAnimating.Placement.{IsTidy}
use processing_common.PhyAnimating.Placement.Adds.{adds-IsTidy}
use processing_common.PhyAnimating.Windows.{IsWatched, run, run-window}

abbrev no_widgets : Ui
no_widgets = record { next = 0; live = []; calls = []; labels = []; fault = false }

-- All allocations but the fifth.
abbrev scarce : ℕ → Bool
scarce i = not (i == 4)

-- The label of the unit cannot be allocated: all others are deleted.
slider_rolled_back :
    (ui_slider_add scarce (pos 9) (pos 5) [] (b'm' ∷ []) false no_widgets).0.live ≡ []
unfolding ui_slider_add slider_unit removed is_live
slider_rolled_back = refl

abbrev widgets : List Add
widgets = slider (pos 9) (pos 5) [] (b'm' ∷ []) false ∷ label (b'x' ∷ []) true ∷ []

adds-IsTidy_example : IsTidy (adds scarce widgets no_widgets)
adds-IsTidy_example = adds-IsTidy scarce widgets no_widgets (tt, refl)

abbrev qt : Qt
qt = record { app = false; global_init_done = false }

abbrev tick : Bool → Tick
tick visible = record {
  level_driver = 0;
  app_created = true;
  window_created = true;
  grid_created = true;
  opt_created = true;
  animated = pending;
  visible = visible;
}

run-window_example :
    IsWatched true
      (run (tick false ∷ tick false ∷ tick false ∷ tick true ∷ tick false ∷ []) (new_animating qt))
run-window_example =
    run-window qt (tick false) (tick false) (tick false) (tick true ∷ tick false ∷ [])
      (record { level = refl; app = refl; window = refl; grid = refl; opt = refl })
      (refl, (refl, tt))
