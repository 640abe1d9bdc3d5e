-- ===== src/MsWaiting/Tests.antt =====
-- Examples of the theorem about MsWaiting.cpp.
use processing_common.Common.{◌≡◌, arith, [], ◌∷◌}
use processing_common.MsWaiting.{positive, new, run}
use processing_common.MsWaiting.Waits.{run-new}

-- A wait of 100 ms that starts 50 ms before the clock wraps around.
run-new_example : run (new 100) (4294967246 ∷ 4294967290 ∷ 40 ∷ 55 ∷ 60 ∷ []) ≡ (positive, 60 ∷ [])
run-new_example =
    run-new 100 4294967246 (4294967290 ∷ 4294967336 ∷ []) 4294967351 (60 ∷ []) (omega arith)
      (omega arith, omega arith, (omega arith, omega arith, tt)) (omega arith) (omega arith)
