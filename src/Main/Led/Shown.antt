-- ===== src/Main/Led/Shown.antt =====
-- The light of src/main.c shows its signals, whatever the conditions were before.
use aelebdwif01_dongle.Prelude.{
  List, [], ◌∷◌, ℕ, suc, ◌+◌, ◌%◌, ◌≡◌, ◌≤◌, ◌<◌, inl, inr, ap, ◌∙◌, Bool, arith, lt_or_le,
  if_holds,
}
use aelebdwif01_dongle.UnitComm.{ComState, initialize, communicating, connected, com_error}
use aelebdwif01_dongle.Main.Led.{
  Conditions, Led, is_sending, show_com_state, show, led_timer_callback,
}
use aelebdwif01_dongle.Main.Led.Signals.{
  Signal, updating, sending, ota, searching, linked, failed, signal_of, period, bright, choose,
  counter_of, led_after, look_next, look_next_on, look_next_again,
}
use aelebdwif01_dongle.Main.Led.Runs.{
  look, run, period_le, run_plus, run_zero, run-period, look-led_after,
}

choose_lt : (g : Signal) (c c1 : ℕ) → c ≤ 2000 → c1 ≤ 2000 → choose g c c1 < 65535
choose_lt updating c c1 h k = omega arith
choose_lt sending c c1 h k = omega arith
choose_lt ota c c1 h k = omega arith
choose_lt searching c c1 h k = omega arith
choose_lt linked c c1 h k = omega arith
choose_lt failed c c1 h k = omega arith

-- Over any conditions the counters stay small.
IsSmall : Led → Type 0
IsSmall s = (s.counter_led ≤ 2000) × (s.counter_led1 ≤ 2000)

look_next_le : (g : Signal) (c : ℕ) (l : Bool) → c ≤ 2000 → (look_next g c l).0 ≤ 2000
look_next_le g c l h =
    let b = period_le g in
    elim (lt_or_le (c + 1) (period g)) [
      | inl m ↦ let e = ap (λ (r : ℕ × Bool). r.0) (look_next_on g c l m) in omega (arith, e, m, b)
      | inr m ↦
          let e = ap (λ (r : ℕ × Bool). r.0) (look_next_again g c l m (omega arith)) in
          omega (arith, e)
    ]

show_com_state-IsSmall : (k : ComState) (s : Led) → IsSmall s → IsSmall (show_com_state k s)
unfolding show_com_state IsSmall
show_com_state-IsSmall initialize s h = (look_next_le searching s.counter_led s.wifi_led1 h.0, h.1)
show_com_state-IsSmall communicating s h =
    (look_next_le searching s.counter_led s.wifi_led1 h.0, h.1)
show_com_state-IsSmall connected s h = (omega arith, h.1)
show_com_state-IsSmall com_error s h = (look_next_le failed s.counter_led s.wifi_led1 h.0, h.1)

led_timer_callback-IsSmall :
    (q : Conditions) (s : Led) → IsSmall s → IsSmall (led_timer_callback q s)
unfolding led_timer_callback show IsSmall
led_timer_callback-IsSmall q s h =
    if_holds IsSmall q.unit_update_task_flag _ _
      (λ _. (look_next_le updating s.counter_led s.wifi_led1 h.0, h.1))
      (λ _.
        if_holds IsSmall (is_sending q.current_state) _ _
          (λ _. (look_next_le sending s.counter_led s.wifi_led1 h.0, h.1))
          (λ _.
            if_holds IsSmall q.ota_in_progress _ _
              (λ _. (h.0, look_next_le ota s.counter_led1 s.wifi_led1 h.1))
              (λ _. show_com_state-IsSmall q.com_state _ h)))

-- The calls under conditions that change.
unfoldable pub led_over : List Conditions → Led → Led
led_over [] s = s
led_over (q ∷ qs) s = led_over qs (led_timer_callback q s)

led_over-IsSmall : (qs : List Conditions) (s : Led) → IsSmall s → IsSmall (led_over qs s)
unfolding led_over
led_over-IsSmall [] s h = h
led_over-IsSmall (q ∷ qs) s h =
    led_over-IsSmall qs (led_timer_callback q s) (led_timer_callback-IsSmall q s h)

none_yet : (s : Led) → s.counter_led ≡ 0 → s.counter_led1 ≡ 0 → IsSmall s
unfolding IsSmall
none_yet s h k = (omega (arith, h), omega (arith, k))

shows_from :
    (q : Conditions) (s : Led)
    → IsSmall s
    → (k : ℕ) × (k ≤ period (signal_of q))
      × ((n : ℕ)
          → (led_after q (k + suc n) s).wifi_led1
            ≡ bright (signal_of q) (suc n % period (signal_of q)))
unfolding look IsSmall
shows_from q s h =
    let g = signal_of q in
    let (k, l, z) =
      run_zero g (counter_of g s) s.wifi_led1 (choose_lt g s.counter_led s.counter_led1 h.0 h.1) in
    (
      k,
      l,
      λ n.
          ap (λ r. r.1)
            (look-led_after q (k + suc n) s
              ∙ run_plus g k (suc n) (look g s)
              ∙ ap (λ c. run g (suc n) (c, (run g k (look g s)).1)) z
              ∙ run-period g n (run g k (look g s)).1),
    )

-- Whatever the conditions were since the start: from when they last, the light shows their signal
-- within one period, and then again and again with that period.
pub led_shows_signal :
    (q : Conditions) (qs : List Conditions) (s : Led)
    → s.counter_led ≡ 0
    → s.counter_led1 ≡ 0
    → (k : ℕ) × (k ≤ period (signal_of q))
      × ((n : ℕ)
          → (led_after q (k + suc n) (led_over qs s)).wifi_led1
            ≡ bright (signal_of q) (suc n % period (signal_of q)))
led_shows_signal q qs s h h1 =
    shows_from q (led_over qs s) (led_over-IsSmall qs s (none_yet s h h1))
