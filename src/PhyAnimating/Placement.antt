-- ===== src/PhyAnimating/Placement.antt =====
-- The widgets that PhyAnimating.cpp allocates belong to the window, or are deleted.
pub mod Rows
pub mod Adds
use processing_common.Common.{
  ℕ, suc, ◌≡◌, ◌∙◌, refl, sym, ap, subst, arith, Bool, true, false, not, ◌||◌, ◌==◌, if◌then◌else◌,
  List, [], ◌∷◌, ◌++◌, Option, none, some,
}
use processing_common.PhyAnimating.{
  ℤ, pos, neg, div4, print_int, Call, add_widget, add_layout, grid_add, set_frame_hline,
  set_frame_sunken, set_chart, row_add, row_stretch, set_single_focus, set_text, set_range,
  set_step, set_value, connect, LabelInfo, Ui, made, failed, removed, is_live, deleted, called,
}

pub data Has (c : Call) : List Call → Type 0 where
  here : (cs : List Call) → Has c (c ∷ cs)
  there : (d : Call) (cs : List Call) → Has c cs → Has c (d ∷ cs)

pub ruleset placing = (here, there)

-- An object that the layouts of the window own, itself or by the row or view that it is in.
pub data Owned (id : ℕ) (cs : List Call) : Type 0 where
  as_widget : Has (add_widget id) cs → Owned id cs
  as_layout : Has (add_layout id) cs → Owned id cs
  in_grid : Has (grid_add id) cs → Owned id cs
  in_row : (layout : ℕ) → Has (row_add layout id) cs → Has (add_layout layout) cs → Owned id cs
  in_view : (view : ℕ) → Has (set_chart view id) cs → Has (grid_add view) cs → Owned id cs

abbrev pub AllOwned : List ℕ → List Call → Type 0
AllOwned [] cs = Unit {0}
AllOwned (id ∷ ids) cs = Owned id cs × AllOwned ids cs

-- Objects that are not put into the window yet, in front of those that it owns.
pub record Pending (ids : List ℕ) (u : Ui) : Type 0 where
  pub rest : List ℕ
  pub live : u.live ≡ ids ++ rest
  pub owned : AllOwned rest u.calls
  pub fault : u.fault ≡ false

-- All live objects are the window's, and none has been deleted twice.
abbrev pub IsTidy : Ui → Type 0
IsTidy u = AllOwned u.live u.calls × (u.fault ≡ false)

Owned-called : (id : ℕ) (c : Call) (cs : List Call) → Owned id cs → Owned id (c ∷ cs)
Owned-called id c cs (as_widget h) = as_widget (there c cs h)
Owned-called id c cs (as_layout h) = as_layout (there c cs h)
Owned-called id c cs (in_grid h) = in_grid (there c cs h)
Owned-called id c cs (in_row layout h h') = in_row layout (there c cs h) (there c cs h')
Owned-called id c cs (in_view view h h') = in_view view (there c cs h) (there c cs h')

AllOwned-called :
    (ids : List ℕ) (c : Call) (cs : List Call) → AllOwned ids cs → AllOwned ids (c ∷ cs)
AllOwned-called [] c cs h = tt
AllOwned-called (id ∷ ids) c cs h = (Owned-called id c cs h.0, AllOwned-called ids c cs h.1)

AllOwned-append :
    (ids ids' : List ℕ) (cs : List Call)
    → AllOwned ids cs
    → AllOwned ids' cs
    → AllOwned (ids ++ ids') cs
AllOwned-append [] ids' cs h h' = h'
AllOwned-append (id ∷ ids) ids' cs h h' = (h.0, AllOwned-append ids ids' cs h.1 h')

module _ (ids : List ℕ) (u : Ui) (p : Pending ids u) where
  pub made-Pending : Pending (u.next ∷ ids) (made u)
  made-Pending = record {
    rest = p.rest;
    live = ap (λ l. u.next ∷ l) p.live;
    owned = p.owned;
    fault = p.fault;
  }

  pub failed-Pending : Pending ids (failed u)
  failed-Pending = record { rest = p.rest; live = p.live; owned = p.owned; fault = p.fault }

  -- Owned objects are pending no more.
  pub Pending-IsTidy : AllOwned ids u.calls → IsTidy u
  Pending-IsTidy h = (
    subst (λ l. AllOwned l u.calls) (sym p.live) (AllOwned-append ids p.rest u.calls h p.owned),
    p.fault,
  )

pub deleted-Pending :
    (id : ℕ) (ids : List ℕ) (u : Ui) → Pending (id ∷ ids) u → Pending ids (deleted id u)
unfolding removed is_live
deleted-Pending id ids u p =
    let same : (id == id) ≡ true = ground arith in
    record {
      rest = p.rest;
      live =
          ap (removed id) p.live
          ∙ ap (λ b. if b then ids ++ p.rest else id ∷ removed id (ids ++ p.rest)) same;
      owned = p.owned;
      fault =
          ap (λ b. b || not (is_live id u.live)) p.fault
          ∙ ap (λ l. not (is_live id l)) p.live
          ∙ ap (λ b. not (b || is_live id (ids ++ p.rest))) same;
    }

pub called-Pending :
    (ids : List ℕ) (cs : List Call) (u : Ui) → Pending ids u → Pending ids (called cs u)
called-Pending ids [] u p = p
called-Pending ids (c ∷ cs) u p =
    called-Pending ids cs (record u { calls = c ∷ u.calls })
      (record {
        rest = p.rest;
        live = p.live;
        owned = AllOwned-called p.rest c u.calls p.owned;
        fault = p.fault;
      })

pub IsTidy-Pending : (u : Ui) → IsTidy u → Pending [] u
IsTidy-Pending u h = record { rest = u.live; live = refl; owned = h.0; fault = h.1 }

pub failed-IsTidy : (u : Ui) → Pending [] u → IsTidy (failed u)
failed-IsTidy u p = Pending-IsTidy [] (failed u) (failed-Pending [] u p) tt

pub either {ℓ} :
    {A : Type ℓ} (P : A → Type 0) (b : Bool) (x y : A) → P x → P y → P (if b then x else y)
either P true x y hx hy = hx
either P false x y hx hy = hy

abbrev pub Fst : Ui × Option ℕ → Type 0
Fst r = IsTidy r.0

-- Pending objects that calls put into the window.
pub shown-IsTidy :
    (ids : List ℕ) (cs : List Call) (u : Ui)
    → Pending ids u
    → AllOwned ids (called cs u).calls
    → IsTidy (called cs u)
shown-IsTidy ids [] u p h = Pending-IsTidy ids u p h
shown-IsTidy ids (c ∷ cs) u p h =
    shown-IsTidy ids cs (record u { calls = c ∷ u.calls }) (called-Pending ids (c ∷ []) u p) h
