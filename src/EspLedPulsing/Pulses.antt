-- ===== src/EspLedPulsing/Pulses.antt =====
-- How many pulses EspLedPulsing.cpp gives.
use processing_common.Common.{
  ℕ, ◌+◌, ◌*◌, ◌^◌, ◌<◌, ◌≡◌, Bool, not, ◌&&◌, ◌==◌, if◌then◌else◌, u32, List, [], ◌∷◌,
}
use processing_common.EspLedPulsing.{
  Success, LedState, start, led_high, led_low, led_burst_wait, Led, new_led, pin_set, param_set,
  led_process,
}

-- The levels that are given to a pin: its level, and how often it has risen.
unfoldable pub written : List ℕ → ℕ × ℕ → ℕ × ℕ
written [] pin = pin
written (level ∷ levels) pin =
    written levels (level, if not (level == 0) && (pin.0 == 0) then pin.1 + 1 else pin.1)

-- The ticks at the given times, each with the result of gpioInit, and what becomes of the pin.
unfoldable pub ticks : Led → ℕ × ℕ → List (ℕ × Bool) → Led × (ℕ × ℕ)
unfolding written
ticks l pin [] = (l, pin)
ticks l pin (t ∷ ts) = let r = led_process l t.0 t.1 in ticks r.0 (written r.1 pin) ts

-- The level of the pin, by the state.
abbrev pub level_in : LedState → ℕ
level_in led_high = 1
level_in _ = 0

-- The pulses of a burst: at least one.
abbrev pub burst : Led → ℕ
burst l = if l.count == 0 then 1 else l.count

-- The pulses of this burst, by the state; the one that is going on is among them.
abbrev pub begun : LedState → ℕ → ℕ
begun led_high n = n + 1
begun led_low n = n + 1
begun _ n = n

-- Whether the pulses of this burst are in order: a burst that waits is complete, and before the next
-- pulse it is not.
abbrev pub InOrder : LedState → Led → Type 0
InOrder start l = l.cur_count ≡ 0
InOrder led_burst_wait l = l.cur_count ≡ burst l
InOrder _ l = l.cur_count < burst l

-- In state `s`, the pin is high during a pulse only, and its pulses so far are `bursts` whole bursts
-- and those of the current one.
pub record IsPulsing (s : LedState) (pin : ℕ × ℕ) (bursts : ℕ) (l : Led) : Type 0 where
  pub at : l.state ≡ s
  pub level : pin.0 ≡ level_in s
  pub all : pin.1 ≡ bursts * burst l + begun s l.cur_count
  pub counted : l.num_bursts_done ≡ u32 bursts
  pub in_order : InOrder s l
  pub count_fits : l.count < 2 ^ 8
  pub some_width : 0 < l.width

abbrev Pulses : ℕ × ℕ → Led × List ℕ × Success → Type 0
Pulses pin r = (s : LedState) × (bursts : ℕ) × IsPulsing s (written r.1 pin) bursts r.0

-- A new LED with a pin and the given parameters.
abbrev pub led : ℕ → ℕ → ℕ → ℕ → ℕ → Led
led pin width period count gap = param_set (pin_set new_led pin) width period count gap
