-- ===== src/Main/Boot.antt =====
-- `ota_boot_task` of src/main.c: the wait for the connection before the one look for an update.
use aelebdwif01_dongle.Prelude.{
  ℕ, zero, suc, ◌+◌, ◌-◌, ◌*◌, ◌%◌, ◌^◌, ◌≡◌, ◌≤◌, ◌<◌, ◌⊎◌, inl, inr, refl, ap, ◌∙◌, Bool, true,
  false, not, ◌&&◌, Option, none, some, arith, ltb, if◌then◌else◌, ◌>>=◌, Bool-cases, lt_or_le,
  le→ltb, lt→ltb,
}

-- What surrounds the task: the n-th reading of `Wifi_Connected_Flag`, and what `xTaskGetTickCount`
-- returns behind it; `pdMS_TO_TICKS`; whether the task can be created.
pub record BootEnv : Type 0 where
  pub wifi_connected : ℕ → Bool
  pub tick_count : ℕ → ℕ
  pub ms_to_ticks : ℕ → ℕ
  pub created : Bool

-- The loop, from the n-th reading on, with fuel for some delays: the number of the reading behind it.
unfoldable pub wait_for_wifi : ℕ → BootEnv → ℕ → ℕ → Option ℕ
wait_for_wifi zero env start n = none
wait_for_wifi (suc fuel) env start n =
    let rest = wait_for_wifi fuel env start (suc n) in
    if not (env.wifi_connected n)
      && ltb ((env.tick_count n + 2 ^ 32 - start) % 2 ^ 32) (env.ms_to_ticks 90000)
    then rest
    else some (suc n)

-- What is left to do: the flag is read again.
unfoldable pub check_created : BootEnv → ℕ → Bool
check_created env n = env.wifi_connected n && env.created

-- `ota_boot_task`: whether `check_update_task` is started.
unfoldable pub ota_boot_task : ℕ → BootEnv → ℕ → Option Bool
unfolding wait_for_wifi check_created
ota_boot_task fuel env start = wait_for_wifi fuel env start 0 >>= λ n. some (check_created env n)

-- The ticks that passed from the start to a reading of the clock.
abbrev pub passed : BootEnv → ℕ → ℕ → ℕ
passed env start n = (env.tick_count n + 2 ^ 32 - start) % 2 ^ 32

-- Where the loop ends: the reading that ends it, with what it found, and nothing found before.
abbrev pub Ends : BootEnv → ℕ → ℕ → ℕ → Type 0
Ends env start n m =
    ((env.wifi_connected m ≡ true) ⊎ (env.ms_to_ticks 90000 ≤ passed env start m))
    × ((k : ℕ) → n ≤ k → k < m → env.wifi_connected k ≡ false)

earlier :
    {w : ℕ → Bool} (m n : ℕ)
    → w n ≡ false
    → ((k : ℕ) → suc n ≤ k → k < m → w k ≡ false)
    → (k : ℕ) → n ≤ k
    → k < m
    → w k ≡ false
earlier {w = w} m n e h k a b = elim (lt_or_le n k) [
  | inl l ↦ h k (omega arith) b
  | inr l ↦ let same : k ≡ n = omega arith in ap w same ∙ e
]

guarded {ℓ} : {A : Type ℓ} (b c : Bool) (x y : A) → c ≡ false → (if not b && c then x else y) ≡ y
guarded true c x y e = refl
guarded false c x y e = ap (λ d. if d then x else y) e

module _ (env : BootEnv) (start step : ℕ)
    (delays : (n : ℕ)
      → passed env start n < env.ms_to_ticks 90000
      → passed env start n + step ≤ passed env start (suc n)) where
  stops :
      (fuel n : ℕ)
      → (env.wifi_connected n ≡ true) ⊎ (env.ms_to_ticks 90000 ≤ passed env start n)
      → wait_for_wifi (suc fuel) env start n ≡ some (suc n)
  unfolding wait_for_wifi
  stops fuel n (inl e) =
      ap
        (λ b.
          if not b && ltb (passed env start n) (env.ms_to_ticks 90000)
          then wait_for_wifi fuel env start (suc n)
          else some (suc n))
        e
  stops fuel n (inr l) =
      guarded (env.wifi_connected n) (ltb (passed env start n) (env.ms_to_ticks 90000)) _ _
        (le→ltb l)

  goes_on :
      (fuel n : ℕ)
      → env.wifi_connected n ≡ false
      → passed env start n < env.ms_to_ticks 90000
      → wait_for_wifi (suc fuel) env start n ≡ wait_for_wifi fuel env start (suc n)
  unfolding wait_for_wifi
  goes_on fuel n e h =
      ap
        (λ b.
          if not b && ltb (passed env start n) (env.ms_to_ticks 90000)
          then wait_for_wifi fuel env start (suc n)
          else some (suc n))
        e
      ∙ ap (λ c. if c then wait_for_wifi fuel env start (suc n) else some (suc n)) (lt→ltb h)

  from_reading :
      (fuel n : ℕ)
      → env.ms_to_ticks 90000 ≤ passed env start n + fuel * step
      → (m : ℕ) × (m ≤ n + fuel)
        × (wait_for_wifi (suc fuel) env start n ≡ some (suc m))
        × Ends env start n m
  from_reading zero n h = elim (lt_or_le (passed env start n) (env.ms_to_ticks 90000)) [
    | inr l ↦ (n, omega arith, stops zero n (inr l), (inr l, λ k a b. absurd (omega arith)))
    | inl l ↦ let z : 0 * step ≡ 0 = omega arith in absurd (omega (arith, z, h, l))
  ]
  from_reading (suc fuel) n h = elim (Bool-cases (env.wifi_connected n)) [
    | inl e ↦ (n, omega arith, stops (suc fuel) n (inl e), (inl e, λ k a b. absurd (omega arith)))
    | inr e ↦ elim (lt_or_le (passed env start n) (env.ms_to_ticks 90000)) [
      | inr l ↦ (n, omega arith, stops (suc fuel) n (inr l), (inr l, λ k a b. absurd (omega arith)))
      | inl l ↦
          let d = delays n l in
          let m : suc fuel * step ≡ step + fuel * step = omega arith in
          let r = from_reading fuel (suc n) (omega (arith, d, m, h)) in
          (r.0, omega (arith, r.1), goes_on (suc fuel) n e l ∙ r.2, (r.3.0, earlier r.0 n e r.3.1))
    ]
  ]

  -- If the delays take their time, and 360 of them the whole wait, the task ends after at most 361
  -- readings of the flag: at the first one that finds a connection, or when the time is over. It then
  -- starts the look for an update if the flag, read again, is set.
  pub ota_boot_task_lem :
      env.ms_to_ticks 90000 ≤ 360 * step
      → (m : ℕ) × (m ≤ 360)
        × (ota_boot_task 361 env start ≡ some (check_created env (suc m)))
        × Ends env start 0 m
  unfolding ota_boot_task
  ota_boot_task_lem h =
      let r = from_reading 360 0 (omega arith) in
      (r.0, omega (arith, r.1), ap (λ o. o >>= λ n. some (check_created env n)) r.2, r.3)
