-- ===== src/UnitComm/Schedule.antt =====
-- The pending requests of src/unit_comm.c: the bits of `Read_Eeprom_Request_Index`, and the ladder
-- that serves the first of them that is set.
use aelebdwif01_dongle.Prelude.{ℕ, List, [], ◌∷◌, true, Option, some, ◌==◌, if◌then◌else◌, ◌>>=◌}
use aelebdwif01_dongle.Prelude.Bits.{test_bit, clear_bit}
use aelebdwif01_dongle.Eeprom.{Section, info, setting_par, set_temp, day_prog, hw_setting}
use aelebdwif01_dongle.Serial.Requests.{send_request_read_eeprom1, send_request_write_eeprom1}
use aelebdwif01_dongle.UnitComm.{Comm, Env, send}

-- What a bit asks for. The buttons' requests are commented out: they send nothing.
pub data Request : Type 0 where
  read_section write_section : Section → Request
  button : Request

-- The rungs of the ladder, in order. There is none for bit 10.
abbrev pub ladder : List (ℕ × Request)
ladder =
    (0, read_section info)
    ∷ (1, read_section setting_par)
    ∷ (2, read_section set_temp)
    ∷ (3, read_section day_prog)
    ∷ (4, button)
    ∷ (5, button)
    ∷ (6, button)
    ∷ (7, button)
    ∷ (8, button)
    ∷ (9, button)
    ∷ (11, write_section info)
    ∷ (12, write_section setting_par)
    ∷ (13, write_section set_temp)
    ∷ (14, write_section day_prog)
    ∷ (15, write_section hw_setting)
    ∷ []

unfoldable pub perform : Request → Env → Comm → Option Comm
perform (read_section sec) env s = send (λ g. send_request_read_eeprom1 g sec) env s
perform (write_section sec) env s = send (λ g. send_request_write_eeprom1 s.eeprom g sec) env s
perform button env s = some s

-- The first rung whose bit is set.
unfoldable pub first_pending : List (ℕ × Request) → ℕ → Option (ℕ × Request)
first_pending [] index = Option.none
first_pending ((k, r) ∷ rungs) index =
    let rest = first_pending rungs index in if test_bit k index then some (k, r) else rest

abbrev pub serve_rung : Option (ℕ × Request) → Env → Comm → Option Comm
serve_rung Option.none env s = some s
serve_rung (some (k, r)) env s = perform r env s >>= λ t.
    some (record t { eeprom_data_received = true; request_index = clear_bit k t.request_index })

-- The end of `case WBM_Connected`.
unfoldable pub serve_requests : Env → Comm → Option Comm
unfolding perform first_pending
serve_requests env s =
    if s.request_index == 0
    then some s
    else if s.eeprom_data_received
    then some s
    else serve_rung (first_pending ladder s.request_index) env s
