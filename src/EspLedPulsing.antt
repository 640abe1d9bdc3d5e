-- ===== src/EspLedPulsing.antt =====
-- EspLedPulsing.h and EspLedPulsing.cpp: bursts of pulses on a pin. Times are uint32_t and wrap
-- around, the counts of pulses are uint8_t. What `millis` returns and whether the pin could be set
-- up are arguments of a call; the levels that it gives to the pin are part of its result.
pub mod Pulses
pub mod Tests
use processing_common.Common.{
  ℕ, ◌+◌, ◌-◌, ◌*◌, Bool, true, false, not, ltb, leb, ◌==◌, if◌then◌else◌, u8, u32, sub32, List, [],
  ◌∷◌,
}

pub data Success : Type 0 where
  pending positive negative : Success

pub data LedState : Type 0 where
  start led_high_set led_high led_low led_burst_wait : LedState

pub record Led : Type 0 where
  pub state : LedState
  pub start_ms : ℕ
  pub pin : ℕ
  pub count : ℕ
  pub cur_count : ℕ
  pub width : ℕ
  pub period : ℕ
  pub gap : ℕ
  pub num_bursts_done : ℕ

unfoldable pub new_led : Led
new_led = record {
  state = start;
  start_ms = 0;
  pin = 0;
  count = 1;
  cur_count = 0;
  width = 50;
  period = 1000;
  gap = 0;
  num_bursts_done = 0;
}

unfoldable pub pin_set : Led → ℕ → Led
pin_set l id = record l { pin = id }

unfoldable pub param_set : Led → ℕ → ℕ → ℕ → ℕ → Led
param_set l width period count gap = record l {
  width = width;
  period = period;
  count = count;
  gap = gap;
}

-- mCurCount * mPeriod + num
abbrev pub due : Led → ℕ → ℕ
due l num = u32 (u32 (l.cur_count * l.period) + num)

-- process(), by the state; `initialized` is the result of gpioInit.
unfoldable pub led_process_in : LedState → Led → ℕ → Bool → Led × List ℕ × Success
led_process_in start l cur_time_ms initialized =
    if l.pin == 0
    then (l, [], negative)
    else if not initialized
    then (l, [], negative)
    else (record l { state = led_high_set }, [], pending)
led_process_in led_high_set l cur_time_ms initialized = (
  record l { start_ms = if l.cur_count == 0 then cur_time_ms else l.start_ms; state = led_high },
  (if not (l.width == 0) then 1 else 0) ∷ [],
  pending,
)
led_process_in led_high l cur_time_ms initialized =
    if ltb (sub32 cur_time_ms l.start_ms) (due l l.width)
    then (l, [], pending)
    else (record l { state = led_low }, 0 ∷ [], pending)
led_process_in led_low l cur_time_ms initialized =
    let cur_count = u8 (l.cur_count + 1) in
    if ltb (sub32 cur_time_ms l.start_ms) (due l l.period)
    then (l, [], pending)
    else if leb l.count cur_count
    then (record l { cur_count = cur_count; state = led_burst_wait }, [], pending)
    else (record l { cur_count = cur_count; state = led_high_set }, [], pending)
led_process_in led_burst_wait l cur_time_ms initialized =
    if ltb (sub32 cur_time_ms l.start_ms) (due l l.gap) then (l, [], pending) else (
      record l {
        cur_count = 0;
        num_bursts_done = u32 (l.num_bursts_done + 1);
        state = led_high_set;
      },
      [],
      pending,
    )

unfoldable pub led_process : Led → ℕ → Bool → Led × List ℕ × Success
led_process l cur_time_ms initialized = led_process_in l.state l cur_time_ms initialized

unfoldable pub led_shutdown : Led → List ℕ × Success
led_shutdown l = (if not (l.pin == 0) then 0 ∷ [] else [], positive)
