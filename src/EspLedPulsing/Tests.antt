-- ===== src/EspLedPulsing/Tests.antt =====
-- Examples of the theorem about EspLedPulsing.cpp.
use processing_common.Common.{ℕ, ◌≡◌, refl, Bool, true, List, [], ◌∷◌}
use processing_common.EspLedPulsing.{new_led, pin_set, param_set, led_process, led_process_in}
use processing_common.EspLedPulsing.Pulses.{led, written, ticks}

-- Two pulses of 50 ms in 200 ms each, and the start of the next burst.
abbrev times : List (ℕ × Bool)
times =
    (0, true)
    ∷ (10, true)
    ∷ (60, true)
    ∷ (210, true)
    ∷ (211, true)
    ∷ (260, true)
    ∷ (410, true)
    ∷ (500, true)
    ∷ (510, true)
    ∷ (511, true)
    ∷ []

three_pulses : (ticks (led 5 50 200 2 100) (0, 0) times).1 ≡ (1, 3)
unfolding ticks written led_process led_process_in new_led pin_set param_set
three_pulses = refl
