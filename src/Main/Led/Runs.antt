-- ===== src/Main/Led/Runs.antt =====
-- The light of src/main.c over calls under the same conditions: the counter and the level.
use aelebdwif01_dongle.Prelude.{
  ℕ, zero, suc, ◌+◌, ◌-◌, ◌%◌, ◌^◌, ◌≡◌, ◌≤◌, ◌<◌, inl, inr, refl, sym, ap, ◌∙◌, Bool, true, false,
  arith, lt_or_le,
}
use aelebdwif01_dongle.UnitComm.{
  ComState, initialize, communicating, connected, com_error, ConnectState,
}
use aelebdwif01_dongle.Main.Led.{
  Conditions, Led, blink, flash_twice, is_sending, show_com_state, show, led_timer_callback,
}
use aelebdwif01_dongle.Main.Led.Signals.{
  Signal, updating, sending, ota, searching, linked, failed, signal_of, period, bright, counter_of,
  led_after, look_next, look_next_on, look_next_again, bright_end, period_next,
}

either {ℓ} : {A : Type ℓ} (b : Bool) → (b ≡ true → A) → (b ≡ false → A) → A
either true f g = f refl
either false f g = g refl

-- The counter and the level after a call.
unfoldable pub look : Signal → Led → ℕ × Bool
look g s = (counter_of g s, s.wifi_led1)

shown :
    (u : Bool) (c : ConnectState) (o : Bool) (k : ComState) (s : Led)
    → let q : Conditions = record {
      unit_update_task_flag = u;
      current_state = c;
      ota_in_progress = o;
      com_state = k;
    } in
      look (signal_of q) (show q s)
      ≡ look_next (signal_of q) (counter_of (signal_of q) s) s.wifi_led1
unfolding show show_com_state look
shown true c o k s = refl
shown false c true k s = either (is_sending c) (λ e. rw e refl) (λ e. rw e refl)
shown false c false initialize s = either (is_sending c) (λ e. rw e refl) (λ e. rw e refl)
shown false c false communicating s = either (is_sending c) (λ e. rw e refl) (λ e. rw e refl)
shown false c false connected s = either (is_sending c) (λ e. rw e refl) (λ e. rw e refl)
shown false c false com_error s = either (is_sending c) (λ e. rw e refl) (λ e. rw e refl)

ticked :
    (q : Conditions) (s : Led)
    → look (signal_of q) (led_timer_callback q s)
      ≡ look_next (signal_of q) (counter_of (signal_of q) s) s.wifi_led1
unfolding led_timer_callback look
ticked q s = shown q.unit_update_task_flag q.current_state q.ota_in_progress q.com_state (record s {
  millis_tick = (s.millis_tick + 1) % 2 ^ 32;
  unit_update_counter = (s.unit_update_counter + 1) % 2 ^ 32;
})

-- The counter and the level after calls.
unfoldable pub run : Signal → ℕ → ℕ × Bool → ℕ × Bool
run g zero r = r
run g (suc n) r = run g n (look_next g r.0 r.1)

pub look-led_after :
    (q : Conditions) (n : ℕ) (s : Led)
    → look (signal_of q) (led_after q n s) ≡ run (signal_of q) n (look (signal_of q) s)
unfolding led_after run look
look-led_after q zero s = refl
look-led_after q (suc n) s =
    look-led_after q n (led_timer_callback q s) ∙ ap (λ r. run (signal_of q) n r) (ticked q s)

-- From a counter of zero the period passes again and again.
run_last :
    (g : Signal) (n : ℕ) (r : ℕ × Bool) → run g (suc n) r ≡ look_next g (run g n r).0 (run g n r).1
unfolding run
run_last g zero r = refl
run_last g (suc n) r = run_last g n (look_next g r.0 r.1)

first_run : (g : Signal) (l : Bool) → look_next g 0 l ≡ (1 % period g, bright g (1 % period g))
unfolding blink flash_twice
first_run updating l = refl
first_run sending l = refl
first_run ota l = refl
first_run searching l = refl
first_run linked l = refl
first_run failed l = refl

period_ge : (g : Signal) → 1 ≤ period g
period_ge updating = omega arith
period_ge sending = omega arith
period_ge ota = omega arith
period_ge searching = omega arith
period_ge linked = omega arith
period_ge failed = omega arith

pub period_le : (g : Signal) → period g ≤ 2001
period_le updating = omega arith
period_le sending = omega arith
period_le ota = omega arith
period_le searching = omega arith
period_le linked = omega arith
period_le failed = omega arith

run_next :
    (g : Signal) (n : ℕ)
    → look_next g (n % period g) (bright g (n % period g))
      ≡ (suc n % period g, bright g (suc n % period g))
run_next g n = elim (period_next g n) [
  | inl h ↦ look_next_on g (n % period g) _ h.0 ∙ ap (λ t. (t, bright g t)) (sym h.1)
  | inr h ↦
      let b = period_le g in
      let e = h.0 in
      look_next_again g (n % period g) _ (omega arith) (omega (arith, b, e))
      ∙ ap (λ l. (0, l)) (bright_end g (n % period g) h.0)
      ∙ ap (λ t. (t, bright g t)) (sym h.1)
]

pub run-period :
    (g : Signal) (n : ℕ) (l : Bool)
    → run g (suc n) (0, l) ≡ (suc n % period g, bright g (suc n % period g))
unfolding run
run-period g zero l = first_run g l
run-period g (suc n) l =
    run_last g (suc n) (0, l)
    ∙ ap (λ (r : ℕ × Bool). look_next g r.0 r.1) (run-period g n l)
    ∙ run_next g (suc n)

run_up : (g : Signal) (j c : ℕ) (l : Bool) → c + j < period g → (run g j (c, l)).0 ≡ c + j
unfolding run
run_up g zero c l h = omega arith
run_up g (suc j) c l h =
    let e = run_up g j (c + 1) (bright g (c + 1)) (omega arith) in
    ap (λ r. (run g j r).0) (look_next_on g c l (omega arith)) ∙ e ∙ omega arith

pub run_plus : (g : Signal) (j n : ℕ) (r : ℕ × Bool) → run g (j + n) r ≡ run g n (run g j r)
unfolding run
run_plus g zero n r = let e : 0 + n ≡ n = omega arith in ap (λ m. run g m r) e
run_plus g (suc j) n r =
    let e : suc j + n ≡ suc (j + n) = omega arith in
    ap (λ m. run g m r) e ∙ run_plus g j n (look_next g r.0 r.1)

-- The counter comes to zero within a period.
pub run_zero :
    (g : Signal) (c : ℕ) (l : Bool)
    → c < 65535
    → (k : ℕ) × (k ≤ period g) × ((run g k (c, l)).0 ≡ 0)
unfolding run
run_zero g c l h = elim (lt_or_le (c + 1) (period g)) [
  | inl m ↦
      let j = period g - c - 1 in
      let u = run_up g j c l (omega arith) in
      let r = run g j (c, l) in
      let b = period_le g in
      (
        suc j,
        omega arith,
        ap (λ t. t.0) (run_last g j (c, l))
            ∙ ap (λ t. t.0)
                (look_next_again g r.0 r.1 (omega (arith, u, m)) (omega (arith, u, m, b))),
      )
  | inr m ↦ (1, period_ge g, ap (λ t. t.0) (look_next_again g c l m h))
]
