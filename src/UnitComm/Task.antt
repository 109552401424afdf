-- ===== src/UnitComm/Task.antt =====
-- The loop of `Unit_event_task` in src/unit_comm.c.
use aelebdwif01_dongle.Prelude.{ℕ, zero, suc, true, false, Option, some, ◌>>=◌}
use aelebdwif01_dongle.UnitComm.{
  Comm, Env, ComState, initialize, communicating, connected, com_error, init, runtime_ready,
  gpio_ready, emit,
}
use aelebdwif01_dongle.UnitComm.Connect.{connect_to_unit}
use aelebdwif01_dongle.UnitComm.Connected.{connected_step}

unfoldable pub start_communication : Comm → Comm
start_communication s =
    emit (gpio_ready true)
      (record (emit (runtime_ready false) s) { com_state = communicating; current_state = init })

unfoldable pub report_error : Comm → Comm
report_error s = emit (gpio_ready false) (emit (runtime_ready false) s)

-- The branches of the `switch`.
unfoldable pub task_case : ComState → Env → Comm → Option Comm
unfolding start_communication report_error
task_case initialize env s = some (start_communication s)
task_case communicating env s = connect_to_unit env s
task_case connected env s = connected_step env s
task_case com_error env s = some (report_error s)

-- One round of the loop.
unfoldable pub task_round : Env → Comm → Option Comm
unfolding task_case
task_round env s = task_case s.com_state env s

-- n rounds, with nothing between them.
unfoldable pub task_rounds : ℕ → Env → Comm → Option Comm
task_rounds zero env s = some s
task_rounds (suc n) env s = task_round env s >>= λ t. task_rounds n env t
