-- ===== src/UnitComm/Stalled.antt =====
-- The state in which `case WBM_Connected` of src/unit_comm.c waits for a reply, and what keeps it: the
-- clock, the timers and the timeout.
use aelebdwif01_dongle.Prelude.{
  ℕ, suc, ◌+◌, ◌^◌, ◌≤◌, ◌<◌, ◌≡◌, inl, inr, refl, List, true, false, Option, arith, ltb, leb,
  if◌then◌else◌, Bool-cases, le→ltb, lt→ltb, lt→leb,
}
use aelebdwif01_dongle.Serial.{Serial, buffer_rx_empty}
use aelebdwif01_dongle.Serial.Receive.{read_message}
use aelebdwif01_dongle.UnitComm.{
  Comm, Env, Effect, RunningMode, running, connected, expired, sub32, millis, tick,
}
use aelebdwif01_dongle.UnitComm.Connected.{
  check_unit_update, clamp_last_received, restart_base_timers, restart_debug_timers, is_running,
  is_polled, polling_base_milliseconds,
}

-- The clock goes forward, by at most a second between two readings, and does not wrap.
abbrev pub IsSteady : Env → Type 0
IsSteady env =
    (n : ℕ)
    → (env.clock n ≤ env.clock (suc n))
      × (env.clock (suc n) ≤ env.clock n + 1000)
      × (env.clock n < 2 ^ 32)

-- Connected and running, with a request outstanding, no byte received, and the calls so far.
pub record IsStalled (env : Env) (calls : List Effect) (s : Comm) : Type 0 where
  pub is_connected : s.com_state ≡ connected
  pub is_running : s.global.running_mode ≡ running
  pub is_outstanding : s.eeprom_data_received ≡ true
  pub no_bytes : s.serial.uart.rx_available ≡ 0
  pub no_message : s.serial.rx_buf_tail ≡ 0
  pub no_update : s.unit_update_counter < 86400000
  pub same_calls : s.trace ≡ calls
  pub ordered : s.global.polling_base_timer ≤ s.global_timeout
  pub past : s.global_timeout ≤ env.clock s.reads

pub if_running :
    (x y : Option Comm) (m : RunningMode) → m ≡ running → (if is_running m then x else y) ≡ x
if_running x y m e = rw e refl

pub if_polled :
    (x y : Option Comm) (m : RunningMode) → m ≡ running → (if is_polled m then x else y) ≡ x
if_polled x y m e = rw e refl

pub base_period : (m : RunningMode) → m ≡ running → polling_base_milliseconds m ≡ 1000
base_period m e = rw e refl

pub read_empty :
    (s : Serial)
    → s.uart.rx_available ≡ 0
    → s.rx_buf_tail ≡ 0
    → read_message s ≡ (buffer_rx_empty, s)
unfolding read_message
read_empty s a t = rw (a, t) refl

module _ (env : Env) (steady : IsSteady env) (calls : List Effect) where
  -- Two readings later.
  pub later : (n : ℕ) → env.clock n ≤ env.clock (suc n)
  later n = (steady n).0

  pub tick-IsStalled : (s : Comm) → IsStalled env calls s → IsStalled env calls (tick s)
  tick-IsStalled s h = record {
    is_connected = h.is_connected;
    is_running = h.is_running;
    is_outstanding = h.is_outstanding;
    no_bytes = h.no_bytes;
    no_message = h.no_message;
    no_update = h.no_update;
    same_calls = h.same_calls;
    ordered = h.ordered;
    past = omega (arith, h.past, later s.reads);
  }

  pub expired-IsStalled :
      (limit start : ℕ) (s : Comm)
      → IsStalled env calls s
      → IsStalled env calls (expired env limit start s).1
  unfolding expired
  expired-IsStalled limit start s h = elim (Bool-cases (leb limit (sub32 (millis env s) start))) [
    | inl b ↦ rw b (tick-IsStalled s h)
    | inr b ↦ rw b (tick-IsStalled (tick s) (tick-IsStalled s h))
  ]

  pub clamp-IsStalled :
      (s : Comm)
      → IsStalled env calls s
      → IsStalled env calls (clamp_last_received env (check_unit_update s))
  unfolding clamp_last_received check_unit_update
  clamp-IsStalled s h =
      rw (lt→ltb h.no_update) (elim (Bool-cases (ltb (millis env s) s.global.last_received_timer)) [
        | inl b ↦ rw b (record {
          is_connected = h.is_connected;
          is_running = h.is_running;
          is_outstanding = h.is_outstanding;
          no_bytes = h.no_bytes;
          no_message = h.no_message;
          no_update = h.no_update;
          same_calls = h.same_calls;
          ordered = h.ordered;
          past = omega (arith, h.past, later s.reads, later (suc s.reads));
        })
        | inr b ↦ rw b (tick-IsStalled s h)
      ])

  pub restart_debug-IsStalled :
      (s : Comm) → IsStalled env calls s → IsStalled env calls (restart_debug_timers env s)
  restart_debug-IsStalled s h = record {
    is_connected = h.is_connected;
    is_running = h.is_running;
    is_outstanding = h.is_outstanding;
    no_bytes = h.no_bytes;
    no_message = h.no_message;
    no_update = h.no_update;
    same_calls = h.same_calls;
    ordered = later (suc s.reads);
    past = later (suc (suc s.reads));
  }

  pub restart_base-IsStalled :
      (s : Comm) → IsStalled env calls s → IsStalled env calls (restart_base_timers env s)
  restart_base-IsStalled s h = record {
    is_connected = h.is_connected;
    is_running = h.is_running;
    is_outstanding = h.is_outstanding;
    no_bytes = h.no_bytes;
    no_message = h.no_message;
    no_update = h.no_update;
    same_calls = h.same_calls;
    ordered = later s.reads;
    past = later (suc s.reads);
  }

  pub expired_early :
      (limit start : ℕ) (s : Comm)
      → start ≤ env.clock s.reads
      → (expired env limit start s).0 ≡ false
      → env.clock (expired env limit start s).1.reads ≤ start + limit + 2000
  unfolding expired
  expired_early limit start s h e = elim (Bool-cases (leb limit (sub32 (millis env s) start))) [
    | inl b ↦ absurd (ground (arith, b))
    | inr b ↦
        let lt : sub32 (millis env s) start < limit = ground (arith, b) in
        rw b (omega (arith, lt, steady s.reads, steady (suc s.reads)))
  ]

  pub not_expired :
      (limit start : ℕ) (s : Comm)
      → start ≤ env.clock s.reads
      → env.clock s.reads < start + limit
      → (expired env limit start s).0 ≡ false
  unfolding expired
  not_expired limit start s h e =
      let lt : sub32 (millis env s) start < limit = omega (arith, steady s.reads) in
      rw (lt→leb lt) (le→ltb (omega (arith, later s.reads)))
