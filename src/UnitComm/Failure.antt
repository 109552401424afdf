-- ===== src/UnitComm/Failure.antt =====
-- What follows a lost link.
use aelebdwif01_dongle.Prelude.{
  ℕ, zero, suc, ◌≡◌, refl, sym, ap, ◌∙◌, List, [], ◌∷◌, ◌++◌, true, false, Option, some, arith,
  ◌>>=◌,
}
use mathlib.Core.List.{append_assoc}
use aelebdwif01_dongle.UnitComm.{
  Comm, Env, Effect, com_error, runtime_ready, gpio_ready, emit, expired, timeout_milliseconds,
  ConnectState, read_eeprom_info, read_eeprom_configuration, read_eeprom_setting_par,
  read_eeprom_set_temp, read_eeprom_day_prog, read_eeprom_hw_setting, polling_base,
}
use aelebdwif01_dongle.UnitComm.Connect.{connect_to_unit, await}
use aelebdwif01_dongle.UnitComm.Task.{task_round, task_rounds}

-- The calls of n rounds in the error state, the latest first.
abbrev pub error_calls : ℕ → List Effect
error_calls zero = []
error_calls (suc n) = error_calls n ++ (gpio_ready false ∷ runtime_ready false ∷ [])

abbrev reported : Comm → Comm
reported s = emit (gpio_ready false) (emit (runtime_ready false) s)

task_error : (env : Env) (s : Comm) → s.com_state ≡ com_error → task_round env s ≡ some (reported s)
unfolding task_round
task_error env s e = ground arith

-- The error state is final: any number of rounds only reports it, and no request is sent, no
-- message is read and nothing else changes.
error_is_final :
    (n : ℕ) (env : Env) (s : Comm)
    → s.com_state ≡ com_error
    → task_rounds n env s ≡ some (record s { trace = error_calls n ++ s.trace })
unfolding task_rounds
error_is_final zero env s e = refl
error_is_final (suc n) env s e =
    ap (λ m. m >>= λ t. task_rounds n env t) (task_error env s e)
    ∙ error_is_final n env (reported s) e
    ∙ ap (λ l. some (record s { trace = l }))
        (sym (append_assoc (error_calls n) (gpio_ready false ∷ runtime_ready false ∷ []) s.trace))

-- The states of the connection that wait for a message.
abbrev pub IsWaiting : ConnectState → Type 0
IsWaiting read_eeprom_info = Unit
IsWaiting read_eeprom_configuration = Unit
IsWaiting read_eeprom_setting_par = Unit
IsWaiting read_eeprom_set_temp = Unit
IsWaiting read_eeprom_day_prog = Unit
IsWaiting read_eeprom_hw_setting = Unit
IsWaiting polling_base = Unit
IsWaiting _ = ⊥

await_late :
    (next : Comm → Option Comm) (env : Env) (s : Comm)
    → (expired env timeout_milliseconds s.global_timeout s).0 ≡ true
    → await next env s
      ≡ some (record (expired env timeout_milliseconds s.global_timeout s).1 {
        com_state = com_error;
        retries_counter = 0;
      })
unfolding await
await_late next env s h = rw h

-- While the connection waits for a section or for the first polling data, a timeout ends it: the
-- task goes to the error state, whatever has arrived.
waiting_times_out :
    (env : Env) (s : Comm)
    → IsWaiting s.current_state
    → (expired env timeout_milliseconds s.global_timeout s).0 ≡ true
    → connect_to_unit env s
      ≡ some (record (expired env timeout_milliseconds s.global_timeout s).1 {
        com_state = com_error;
        retries_counter = 0;
      })
unfolding connect_to_unit
waiting_times_out env s w h = ground (arith, await_late (λ t. some t) env s h)
