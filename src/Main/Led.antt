-- ===== src/Main/Led.antt =====
-- `Led_TimerCallback` of src/main.c, called every millisecond: the clock, the count to the next look
-- for firmware, and the light that tells what the dongle does.
pub mod Signals
pub mod Runs
pub mod Shown
use aelebdwif01_dongle.Prelude.{ℕ, zero, suc, ◌+◌, ◌%◌, ◌^◌, Bool, true, false, leb, if◌then◌else◌}
use aelebdwif01_dongle.UnitComm.{
  ComState, initialize, communicating, connected, com_error, ConnectState, bootloader_state1,
}

-- What the callback reads.
pub record Conditions : Type 0 where
  pub unit_update_task_flag : Bool
  pub current_state : ConnectState
  pub ota_in_progress : Bool
  pub com_state : ComState

-- What it changes; `wifi_led1` is the level of the pin.
pub record Led : Type 0 where
  pub millis_tick : ℕ
  pub unit_update_counter : ℕ
  pub counter_led : ℕ
  pub counter_led1 : ℕ
  pub wifi_led1 : Bool

-- A counter that is increased, and the level: on up to the first limit, off up to the second, and
-- then the counter starts again.
unfoldable pub blink : ℕ → ℕ → ℕ → Bool → ℕ × Bool
blink on off counter level =
    let c = (counter + 1) % 2 ^ 16 in
    if leb c on then (c, true) else if leb c off then (c, false) else (0, level)

-- The two flashes while the unit's firmware is looked for.
unfoldable pub flash_twice : ℕ → Bool → ℕ × Bool
flash_twice counter level =
    let c = (counter + 1) % 2 ^ 16 in
    if leb c 150
    then (c, true)
    else if leb c 350
    then (c, false)
    else if leb c 500
    then (c, true)
    else if leb c 1300
    then (c, false)
    else (0, level)

abbrev pub with_led : ℕ × Bool → Led → Led
with_led (c, level) s = record s { counter_led = c; wifi_led1 = level }

abbrev pub with_led1 : ℕ × Bool → Led → Led
with_led1 (c, level) s = record s { counter_led1 = c; wifi_led1 = level }

abbrev pub is_sending : ConnectState → Bool
is_sending bootloader_state1 = true
is_sending _ = false

-- The last branches, by the state of the connection to the unit.
unfoldable pub show_com_state : ComState → Led → Led
unfolding blink
show_com_state initialize s = with_led (blink 500 1000 s.counter_led s.wifi_led1) s
show_com_state communicating s = with_led (blink 500 1000 s.counter_led s.wifi_led1) s
show_com_state connected s = record s { wifi_led1 = true; counter_led = 0 }
show_com_state com_error s = with_led (blink 1000 2000 s.counter_led s.wifi_led1) s

unfoldable pub show : Conditions → Led → Led
unfolding flash_twice show_com_state
show q s =
    if q.unit_update_task_flag
    then with_led (flash_twice s.counter_led s.wifi_led1) s
    else if is_sending q.current_state
    then with_led (blink 200 1200 s.counter_led s.wifi_led1) s
    else if q.ota_in_progress
    then with_led1 (blink 100 200 s.counter_led1 s.wifi_led1) s
    else show_com_state q.com_state s

-- `Led_TimerCallback`
unfoldable pub led_timer_callback : Conditions → Led → Led
unfolding show
led_timer_callback q s = show q (record s {
  millis_tick = (s.millis_tick + 1) % 2 ^ 32;
  unit_update_counter = (s.unit_update_counter + 1) % 2 ^ 32;
})
