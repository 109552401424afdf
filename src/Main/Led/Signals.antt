-- ===== src/Main/Led/Signals.antt =====
-- The light of src/main.c as signals with a period: what it shows as long as the conditions last.
use aelebdwif01_dongle.Prelude.{
  ℕ, zero, suc, ◌+◌, ◌-◌, ◌%◌, ◌^◌, ◌≡◌, ◌≤◌, ◌<◌, ◌⊎◌, refl, Bool, true, false, leb, ltb, arith,
  if◌then◌else◌,
}
use aelebdwif01_dongle.UnitComm.{ComState, initialize, communicating, connected, com_error}
use aelebdwif01_dongle.Main.Led.{
  Conditions, Led, blink, flash_twice, is_sending, led_timer_callback,
}

-- What the light can tell.
pub data Signal : Type 0 where
  updating sending ota searching linked failed : Signal

abbrev pub link_signal : ComState → Signal
link_signal initialize = searching
link_signal communicating = searching
link_signal connected = linked
link_signal com_error = failed

abbrev pub signal_of : Conditions → Signal
signal_of q =
    if q.unit_update_task_flag
    then updating
    else if is_sending q.current_state
    then sending
    else if q.ota_in_progress
    then ota
    else link_signal q.com_state

-- In milliseconds.
abbrev pub period : Signal → ℕ
period updating = 1301
period sending = 1201
period ota = 201
period searching = 1001
period linked = 1
period failed = 2001

-- A single flash from the first millisecond on, of a length.
abbrev pub flash : ℕ → ℕ → Bool
flash length zero = false
flash length (suc t) = ltb t length

-- Whether the light is on at a time of the period.
abbrev pub bright : Signal → ℕ → Bool
bright updating t = if leb t 350 then flash 150 t else flash 150 (t - 350)
bright sending t = flash 200 t
bright ota t = flash 100 t
bright searching t = flash 500 t
bright linked t = true
bright failed t = flash 1000 t

-- The counter that the signal uses.
abbrev pub choose : Signal → ℕ → ℕ → ℕ
choose ota c c1 = c1
choose _ c c1 = c

abbrev pub counter_of : Signal → Led → ℕ
counter_of g s = choose g s.counter_led s.counter_led1

-- The calls that follow one another under the same conditions.
unfoldable pub led_after : Conditions → ℕ → Led → Led
led_after q zero s = s
led_after q (suc n) s = led_after q n (led_timer_callback q s)

-- One call, for the counter and the level.
abbrev pub look_next : Signal → ℕ → Bool → ℕ × Bool
look_next updating c l = flash_twice c l
look_next sending c l = blink 200 1200 c l
look_next ota c l = blink 100 200 c l
look_next searching c l = blink 500 1000 c l
look_next linked c l = (0, true)
look_next failed c l = blink 1000 2000 c l

blink_on :
    (on off c : ℕ) (l : Bool)
    → on < off
    → off < 65535
    → c < off
    → blink on off c l ≡ (c + 1, flash on (c + 1))
unfolding blink
blink_on on off c l h k m = let e : (c + 1) % 2 ^ 16 ≡ c + 1 = omega arith in rw e (ground arith)

blink_again : (on off c : ℕ) (l : Bool) → on < off → off ≤ c → c < 65535 → blink on off c l ≡ (0, l)
unfolding blink
blink_again on off c l h k m = let e : (c + 1) % 2 ^ 16 ≡ c + 1 = omega arith in rw e (ground arith)

flash_twice_on : (c : ℕ) (l : Bool) → c < 1300 → flash_twice c l ≡ (c + 1, bright updating (c + 1))
unfolding flash_twice
flash_twice_on c l h = let e : (c + 1) % 2 ^ 16 ≡ c + 1 = omega arith in rw e (ground arith)

flash_twice_again : (c : ℕ) (l : Bool) → 1300 ≤ c → c < 65535 → flash_twice c l ≡ (0, l)
unfolding flash_twice
flash_twice_again c l h k = let e : (c + 1) % 2 ^ 16 ≡ c + 1 = omega arith in rw e (ground arith)

pub look_next_on :
    (g : Signal) (c : ℕ) (l : Bool) → c + 1 < period g → look_next g c l ≡ (c + 1, bright g (c + 1))
look_next_on updating c l h = flash_twice_on c l (omega arith)
look_next_on sending c l h = blink_on 200 1200 c l (omega arith) (omega arith) (omega arith)
look_next_on ota c l h = blink_on 100 200 c l (omega arith) (omega arith) (omega arith)
look_next_on searching c l h = blink_on 500 1000 c l (omega arith) (omega arith) (omega arith)
look_next_on linked c l h = absurd (omega arith)
look_next_on failed c l h = blink_on 1000 2000 c l (omega arith) (omega arith) (omega arith)

-- At the end of the period the light is as at its start.
abbrev pub kept : Signal → Bool → Bool
kept linked l = true
kept _ l = l

pub look_next_again :
    (g : Signal) (c : ℕ) (l : Bool) → period g ≤ c + 1 → c < 65535 → look_next g c l ≡ (0, kept g l)
look_next_again updating c l h k = flash_twice_again c l (omega arith) k
look_next_again sending c l h k = blink_again 200 1200 c l (omega arith) (omega arith) k
look_next_again ota c l h k = blink_again 100 200 c l (omega arith) (omega arith) k
look_next_again searching c l h k = blink_again 500 1000 c l (omega arith) (omega arith) k
look_next_again linked c l h k = refl
look_next_again failed c l h k = blink_again 1000 2000 c l (omega arith) (omega arith) k

pub bright_end : (g : Signal) (c : ℕ) → c + 1 ≡ period g → kept g (bright g c) ≡ bright g 0
bright_end updating c h = let e : c ≡ 1300 = omega arith in rw e refl
bright_end sending c h = let e : c ≡ 1200 = omega arith in rw e refl
bright_end ota c h = let e : c ≡ 200 = omega arith in rw e refl
bright_end searching c h = let e : c ≡ 1000 = omega arith in rw e refl
bright_end linked c h = refl
bright_end failed c h = let e : c ≡ 2000 = omega arith in rw e refl

-- The next time of the period.
pub period_next :
    (g : Signal) (n : ℕ)
    → ((n % period g + 1 < period g) × (suc n % period g ≡ n % period g + 1))
      ⊎ ((n % period g + 1 ≡ period g) × (suc n % period g ≡ 0))
period_next updating n = ground arith
period_next sending n = ground arith
period_next ota n = ground arith
period_next searching n = ground arith
period_next linked n = ground arith
period_next failed n = ground arith
