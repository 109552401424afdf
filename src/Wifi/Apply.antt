-- ===== src/Wifi/Apply.antt =====
-- The rest of the Wi-Fi manager of src/mqtt_app.c: a request is applied, in rounds of the task.
pub mod Outcome
pub mod Branches
pub mod Rounds
pub mod Restart
pub mod Tests
use aelebdwif01_dongle.Prelude.{
  ℕ, zero, suc, ◌+◌, ◌-◌, ◌*◌, ◌%◌, ◌^◌, List, [], ◌∷◌, Bool, true, false, Option, none, some, not,
  ◌&&◌, ltb, ◌==◌, if◌then◌else◌,
}
use aelebdwif01_dongle.Wifi.{
  EspErr, esp_ok, is_ok, check, strlcpy, max_ssid_length, max_password_length,
}
use aelebdwif01_dongle.Wifi.Connect.{Net, ConnectEnv, StopEnv, wifi_connect, wifi_disconnect}
use aelebdwif01_dongle.Wifi.Storage.{
  Nvs, NvsEnv, Credentials, wifi_ssid, wifi_pass, nvs_write_string,
}
use aelebdwif01_dongle.Wifi.Queue.{QueueApi}
use aelebdwif01_dongle.Wifi.Manager.{
  Manager, ManagerState, idle, applying, connected, failed, Request, drain,
}

abbrev pub wifi_max_retry : ℕ
wifi_max_retry = 3

abbrev pub wifi_retry_base_ms : ℕ
wifi_retry_base_ms = 500

abbrev pub wifi_apply_cooldown_ms : ℕ
wifi_apply_cooldown_ms = 800

-- Equality of C strings, `strcmp(a, b) == 0`.
abbrev pub strcmp_zero : List ℕ → List ℕ → Bool
strcmp_zero [] [] = true
strcmp_zero [] (y ∷ ys) = false
strcmp_zero (x ∷ xs) [] = false
strcmp_zero (x ∷ xs) (y ∷ ys) = (x == y) && strcmp_zero xs ys

-- The clocks of one application, the answers of the storage, and the circumstances of each attempt.
pub record ApplyEnv : Type 0 where
  pub now : ℕ
  pub ms_to_ticks : ℕ → ℕ
  pub write_ssid : NvsEnv
  pub write_pass : NvsEnv
  pub attempts : ℕ → ConnectEnv
  pub disconnecting : StopEnv
  pub tick_after : ℕ → ℕ

-- The copies of a request's strings in `WIFI_SSID` and `WIFI_PASSWORD`.
abbrev pub credentials_of : Request → Credentials
credentials_of r = record {
  ssid = strlcpy (max_ssid_length + 1) r.ssid;
  password = strlcpy (max_password_length + 1) r.password;
}

module _ {Queue : Type 0} where
  -- The start of `apply_wifi_request`: is the station connected with these credentials?
  abbrev pub unchanged : Request → Manager Queue → Bool
  unchanged r m =
      m.net.wifi_connected_flag
      && (strcmp_zero m.credentials.ssid r.ssid && strcmp_zero m.credentials.password r.password)

  -- The wait for the end of the cooldown.
  abbrev pub cool_down : ApplyEnv → Manager Queue → Manager Queue
  cool_down env m =
      let passed = (env.now + 2 ^ 32 - m.last_apply_tick) % 2 ^ 32 in
      let cooldown = env.ms_to_ticks wifi_apply_cooldown_ms in
      record m { waits = if ltb passed cooldown then (cooldown - passed) ∷ m.waits else m.waits }

  -- The failed attempt of a number: the next number, the state, and the wait before another one.
  abbrev pub note_failure : ApplyEnv → ℕ → ℕ → Manager Queue → Manager Queue
  note_failure env zero retry m = record m { manager_state = failed }
  note_failure env (suc more) retry m = record m {
    manager_state = failed;
    waits = env.ms_to_ticks (wifi_retry_base_ms * (retry + 1)) ∷ m.waits;
  }

  -- One attempt.
  unfoldable pub attempt : ApplyEnv → ℕ → Manager Queue → EspErr × Manager Queue
  attempt env retry m =
      let r = wifi_connect (env.attempts retry) m.credentials.ssid m.credentials.password m.net in
      (r.0, record m { net = r.1; connects = m.connects + 1 })

  abbrev pub applied : ApplyEnv → ℕ → Manager Queue → Manager Queue
  applied env retry m = record m {
    manager_state = connected;
    last_apply_tick = env.tick_after retry;
  }

  -- The loop over the attempts, from a number on, of which `more` can follow this one.
  unfoldable pub connect_loop : ApplyEnv → ℕ → ℕ → Manager Queue → EspErr × Manager Queue
  unfolding attempt
  connect_loop env zero retry m =
      let r = attempt env retry m in
      if is_ok r.0 then (esp_ok, applied env retry r.1) else (r.0, note_failure env zero retry r.1)
  connect_loop env (suc more) retry m =
      let r = attempt env retry m in
      let rest = connect_loop env more (retry + 1) (note_failure env (suc more) retry r.1) in
      if is_ok r.0 then (esp_ok, applied env retry r.1) else rest

  -- The new credentials, and the connection with them.
  unfoldable pub reconnect : ApplyEnv → Request → Manager Queue → EspErr × Manager Queue
  unfolding connect_loop
  reconnect env r m = connect_loop env (wifi_max_retry - 1) zero (record m {
    credentials = credentials_of r;
    manager_state = applying;
    net = (wifi_disconnect env.disconnecting m.net).1;
  })

  -- The storage of both strings, and the connection behind it.
  unfoldable pub store_and_reconnect : ApplyEnv → Request → Manager Queue → EspErr × Manager Queue
  unfolding check
  store_and_reconnect env r m =
      let ssid_written = nvs_write_string env.write_ssid wifi_ssid r.ssid m.nvs in
      let pass_written = nvs_write_string env.write_pass wifi_pass r.password ssid_written.1 in
      let m2 = record m { nvs = ssid_written.1 } in
      let m3 = record m { nvs = pass_written.1 } in
      check ssid_written.0 m2 (check pass_written.0 m3 (reconnect env r m3))

  -- `apply_wifi_request`
  unfoldable pub apply_wifi_request : ApplyEnv → Request → Manager Queue → EspErr × Manager Queue
  apply_wifi_request env r m =
      if unchanged r m
      then (esp_ok, record m { manager_state = connected })
      else (if r.persist_to_nvs
          then store_and_reconnect env r (cool_down env m)
          else reconnect env r (cool_down env m))

  -- The end of a round of `mqtt_task`: the request is applied, and the client may be started.
  abbrev pub start_client : EspErr × Manager Queue → Manager Queue
  start_client (e, m) =
      if is_ok e && not m.is_mqtt_ready then record m { mqtt_starts = m.mqtt_starts + 1 } else m

  abbrev pub apply_drained :
      ApplyEnv → Manager Queue → Option (Request × Queue) → Option (Manager Queue)
  apply_drained env m none = none
  apply_drained env m (some d) =
      some (start_client (apply_wifi_request env d.0 (record m { req_queue = some d.1 })))

  abbrev pub handle_received :
      ℕ
      → QueueApi Queue Request
      → ApplyEnv
      → Manager Queue
      → Option Request × Queue
      → Option (Manager Queue)
  handle_received fuel api env m (none, q) = some (record m { req_queue = some q })
  handle_received fuel api env m (some r, q) = apply_drained env m (drain fuel api r q)

  -- A round of `mqtt_task`, with fuel for the queue.
  unfoldable pub task_round :
      ℕ → QueueApi Queue Request → ApplyEnv → Queue → Manager Queue → Option (Manager Queue)
  task_round fuel api env q m = handle_received fuel api env m (api.receive q)
