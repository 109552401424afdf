-- ===== src/UnitComm/Stall.antt =====
-- A request whose reply is lost, in `case WBM_Connected` of src/unit_comm.c: each polling period
-- restarts the timeout, even when it sends nothing.
use aelebdwif01_dongle.Prelude.{
  ℕ, zero, suc, ◌+◌, ◌≤◌, ◌≡◌, ◌⊎◌, inl, inr, refl, ap, ◌∙◌, List, true, false, Bool, Option, some,
  arith, leb, ◌==◌, ◌>>=◌, Bool-cases,
}
use aelebdwif01_dongle.UnitComm.{
  Comm, Env, Effect, ComState, connected, expired, sub32, millis, timeout_milliseconds,
  polling_debug_data_milliseconds,
}
use aelebdwif01_dongle.UnitComm.Connected.{
  check_unit_update, clamp_last_received, poll_debug, poll_base, check_link, receive_reply,
  connected_step, restart_base_timers, restart_debug_timers, poll_due, polling_base_milliseconds,
  lose_link,
}
use aelebdwif01_dongle.Serial.Requests.{send_request_polling_base, send_request_data_debug}
use aelebdwif01_dongle.UnitComm.Schedule.{serve_requests}
use aelebdwif01_dongle.UnitComm.Task.{task_case, task_round, task_rounds}
use aelebdwif01_dongle.UnitComm.Stalled.{
  IsSteady, IsStalled, if_running, if_polled, base_period, read_empty, expired-IsStalled,
  clamp-IsStalled, restart_debug-IsStalled, restart_base-IsStalled, expired_early, not_expired,
}

module _ (env : Env) (steady : IsSteady env) (calls : List Effect) where
  poll_due-IsStalled :
      (request : Comm → List ℕ → Option (List ℕ)) (restart : Env → Comm → Comm) (e : Bool × Comm)
      → ((s : Comm) → IsStalled env calls s → IsStalled env calls (restart env s))
      → IsStalled env calls e.1
      → (t : Comm) × (poll_due request restart env e ≡ some t)
        × IsStalled env calls t
        × (((e.0 ≡ false) × (t ≡ e.1)) ⊎ (t ≡ restart env e.1))
  unfolding poll_due
  poll_due-IsStalled request restart (true, s) keeps h =
      (restart env s, rw h.is_outstanding refl, keeps s h, inr refl)
  poll_due-IsStalled request restart (false, s) keeps h = (s, refl, h, inl (refl, refl))

  poll_debug-IsStalled :
      (s : Comm)
      → IsStalled env calls s
      → (t : Comm) × (poll_debug env s ≡ some t) × IsStalled env calls t
  unfolding poll_debug
  poll_debug-IsStalled s h =
      let (t, e, k, how) =
        poll_due-IsStalled (λ t. send_request_data_debug) restart_debug_timers
          (expired env polling_debug_data_milliseconds s.global.polling_debug_timer s)
          (restart_debug-IsStalled env steady calls)
          (expired-IsStalled env steady calls polling_debug_data_milliseconds
            s.global.polling_debug_timer s h) in
      (t, if_running _ _ s.global.running_mode h.is_running ∙ e, k)

  expired-base :
      (limit start : ℕ) (s : Comm)
      → (expired env limit start s).1.global.polling_base_timer ≡ s.global.polling_base_timer
  unfolding expired
  expired-base limit start s = elim (Bool-cases (leb limit (sub32 (millis env s) start))) [
    | inl b ↦ rw b refl
    | inr b ↦ rw b refl
  ]

  recent_restart :
      (t u : Comm) → t ≡ restart_base_timers env u → env.clock t.reads ≤ t.global_timeout + 3000
  recent_restart t u e = rw e (omega (arith, steady (suc u.reads)))

  recent_kept :
      (t u : Comm) (start : ℕ)
      → t ≡ u
      → u.global.polling_base_timer ≡ start
      → env.clock u.reads ≤ start + 1000 + 2000
      → IsStalled env calls u
      → env.clock t.reads ≤ t.global_timeout + 3000
  recent_kept t u start e b h k = rw e (omega (arith, k.ordered))

  poll_base-IsStalled :
      (s : Comm)
      → IsStalled env calls s
      → (t : Comm) × (poll_base env s ≡ some t)
        × IsStalled env calls t
        × (env.clock t.reads ≤ t.global_timeout + 3000)
  unfolding poll_base
  poll_base-IsStalled s h =
      let period : ℕ = polling_base_milliseconds s.global.running_mode in
      let e : Bool × Comm = expired env period s.global.polling_base_timer s in
      let (t, eq, k, how) =
        poll_due-IsStalled (λ t. send_request_polling_base t.board) restart_base_timers e
          (restart_base-IsStalled env steady calls)
          (expired-IsStalled env steady calls period s.global.polling_base_timer s h) in
      (
        t,
        if_polled _ _ s.global.running_mode h.is_running ∙ eq,
        k,
        elim how [
          | inl (b, same) ↦
              recent_kept t e.1 s.global.polling_base_timer same
                (expired-base period s.global.polling_base_timer s)
                (omega (
                  arith,
                  base_period s.global.running_mode h.is_running,
                  expired_early env steady calls period s.global.polling_base_timer s
                      (omega (arith, h.ordered, h.past)) b,
                ))
                (expired-IsStalled env steady calls period s.global.polling_base_timer s h)
          | inr same ↦ recent_restart t e.1 same
        ],
      )

  check_link-IsStalled :
      (s : Comm)
      → IsStalled env calls s
      → env.clock s.reads ≤ s.global_timeout + 3000
      → IsStalled env calls (check_link env s)
  unfolding check_link
  check_link-IsStalled s h recent =
      let e : Bool × Comm = expired env timeout_milliseconds s.global_timeout s in
      keep e
        (not_expired env steady calls timeout_milliseconds s.global_timeout s h.past
          (omega (arith, recent)))
        (expired-IsStalled env steady calls timeout_milliseconds s.global_timeout s h)
    where
      keep :
          (e : Bool × Comm)
          → e.0 ≡ false
          → IsStalled env calls e.1
          → IsStalled env calls (lose_link e)
      keep (true, t) b k = absurd (ground arith)
      keep (false, t) b k = k

  receive-IsStalled :
      (s : Comm)
      → IsStalled env calls s
      → (t : Comm) × (receive_reply env s ≡ some t) × IsStalled env calls t
  unfolding receive_reply
  receive-IsStalled s h = (s, rw (read_empty s.serial h.no_bytes h.no_message) refl, h)

  serve-IsStalled : (s : Comm) → IsStalled env calls s → serve_requests env s ≡ some s
  unfolding serve_requests
  serve-IsStalled s h = elim (Bool-cases (s.request_index == 0)) [
    | inl b ↦ rw b refl
    | inr b ↦ rw (b, h.is_outstanding) refl
  ]

  connected-IsStalled :
      (s : Comm)
      → IsStalled env calls s
      → (t : Comm) × (connected_step env s ≡ some t) × IsStalled env calls t
  unfolding connected_step
  connected-IsStalled s h =
      let (t1, e1, k1) =
        poll_debug-IsStalled (clamp_last_received env (check_unit_update s))
          (clamp-IsStalled env steady calls s h) in
      let (t2, e2, k2, recent) = poll_base-IsStalled t1 k1 in
      let (t3, e3, k3) =
        receive-IsStalled (check_link env t2) (check_link-IsStalled t2 k2 recent) in
      (
        t3,
        ap
              (λ m. m >>= λ t1.
                (poll_base env t1 >>= λ t2.
                (receive_reply env (check_link env t2) >>= λ t3. serve_requests env t3)))
              e1
            ∙ ap
                (λ m. m >>= λ t2.
                  (receive_reply env (check_link env t2) >>= λ t3. serve_requests env t3))
                e2
            ∙ ap (λ m. m >>= λ t3. serve_requests env t3) e3
            ∙ serve-IsStalled t3 k3,
        k3,
      )

  round-IsStalled :
      (s : Comm)
      → IsStalled env calls s
      → (t : Comm) × (task_round env s ≡ some t) × IsStalled env calls t
  unfolding task_round task_case
  round-IsStalled s h =
      let (t, e, k) = connected-IsStalled s h in
      (t, in_connected s.com_state h.is_connected s ∙ e, k)
    where
      in_connected :
          (c : ComState) → c ≡ connected → (s : Comm) → task_case c env s ≡ connected_step env s
      in_connected c e s = rw e refl

-- A request whose reply does not come stalls the link for good: while the unit runs, with the clock
-- steady, no update due and no byte received, any number of rounds of the connected task goes by without a request, a report or any
-- other call, and the task stays connected and keeps waiting. The timeout never ends the wait.
pub stalls_for_good :
    (env : Env) (n : ℕ) (s : Comm)
    → IsSteady env
    → IsStalled env s.trace s
    → (t : Comm) × (task_rounds n env s ≡ some t) × IsStalled env s.trace t
unfolding task_rounds
stalls_for_good env n s steady h = rounds n s h
  where
    rounds :
        (n : ℕ) (u : Comm)
        → IsStalled env s.trace u
        → (t : Comm) × (task_rounds n env u ≡ some t) × IsStalled env s.trace t
    rounds zero u k = (u, refl, k)
    rounds (suc n) u k =
        let (t1, e1, k1) = round-IsStalled env steady s.trace u k in
        let (t, e, k2) = rounds n t1 k1 in
        (t, ap (λ m. m >>= λ t1. task_rounds n env t1) e1 ∙ e, k2)
