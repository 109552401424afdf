-- ===== src/Main/Update.antt =====
-- The update of the dongle's own firmware in src/main.c: the wait for the connection, the text that the
-- server sends, and what it leads to. The server, the parser of the text and the upgrade are
-- arguments.
pub mod Joined
pub mod Text
use aelebdwif01_dongle.Prelude.{
  ℕ, zero, suc, ◌+◌, ◌%◌, ◌^◌, ◌-◌, List, [], ◌∷◌, Bool, true, false, not, ◌&&◌, Option, none, some,
  length, set, codes, c_string, memcpy, ltb, ◌==◌, if◌then◌else◌, ◌>>=◌,
}
use aelebdwif01_dongle.Wifi.Apply.{strcmp_zero}

abbrev pub max_http_output_buffer : ℕ
max_http_output_buffer = 1024

abbrev pub current_version : List ℕ
current_version = codes "1.0.1"

-- The variables that the update uses. `asked` lists the addresses of which an upgrade was asked for,
-- the latest first, and `update_tasks` counts the tasks created for the unit's firmware.
pub record Update : Type 0 where
  pub ota_in_progress : Bool
  pub counter_led1 : ℕ
  pub json_response : Option (List ℕ)
  pub total_len : ℕ
  pub unit_partition_state : Bool
  pub unit_update_task_flag : Bool
  pub bootloader_state_flag : Bool
  pub update_tasks : ℕ
  pub asked : List (List ℕ)
  pub restarted : Bool

-- The parsed text: the items of the two names, where they are strings.
pub record Reply : Type 0 where
  pub version : Option (List ℕ)
  pub url : Option (List ℕ)

-- The libraries: `cJSON_Parse` with the look at the two items, and `esp_https_ota`.
pub record UpdateEnv : Type 0 where
  pub parse : List ℕ → Option Reply
  pub esp_https_ota : List ℕ → Bool

-- The events of the request; with data, whether the response is chunked, and what `malloc` returns.
pub data HttpEvent : Type 0 where
  data_event : Bool → Option (List ℕ) → List ℕ → HttpEvent
  http_disconnected other_event : HttpEvent

-- The data goes behind the data before, and a NUL behind it.
unfoldable pub append_data : List ℕ → Option (List ℕ) → ℕ → Update → Option Update
append_data bytes none len s = some (record s { json_response = none; total_len = len })
append_data bytes (some b) len s = memcpy b len bytes 0 (length bytes) >>= λ b1.
    (if ltb (len + length bytes) (length b1)
      then some (record s {
        json_response = some (set b1 (len + length bytes) 0);
        total_len = len + length bytes;
      })
      else none)

unfoldable pub data_arrived : Option (List ℕ) → List ℕ → Option (List ℕ) → Update → Option Update
unfolding append_data
data_arrived heap bytes none s = append_data bytes heap 0 s
data_arrived heap bytes (some b) s = append_data bytes (some b) s.total_len s

-- `_http_event_handler`
unfoldable pub http_event_handler : HttpEvent → Update → Option Update
unfolding data_arrived
http_event_handler (data_event chunked heap bytes) s =
    let arrived = data_arrived heap bytes s.json_response s in if chunked then some s else arrived
http_event_handler http_disconnected s = some (
    if s.unit_partition_state && (not s.unit_update_task_flag && not s.bootloader_state_flag)
    then record s { update_tasks = s.update_tasks + 1 }
    else s)
http_event_handler other_event s = some s

-- `esp_http_client_perform`: the events it causes, in order.
unfoldable pub http_perform : List HttpEvent → Update → Option Update
http_perform [] s = some s
http_perform (e ∷ es) s = http_event_handler e s >>= http_perform es

abbrev pub free_response : Update → Update
free_response s = record s { json_response = none }

-- The upgrade. A restart does not return.
unfoldable pub upgrade : UpdateEnv → List ℕ → Update → Update
upgrade env url s =
    let s1 = record s { ota_in_progress = true; counter_led1 = 0; asked = url ∷ s.asked } in
    if env.esp_https_ota url
    then record s1 { ota_in_progress = false; restarted = true }
    else free_response (record s1 { ota_in_progress = false })

unfoldable pub compare_version : UpdateEnv → Option (List ℕ) → Option (List ℕ) → Update → Update
unfolding upgrade
compare_version env (some v) (some url) s =
    if strcmp_zero current_version v
    then free_response (record s { ota_in_progress = false })
    else upgrade env url s
compare_version env _ _ s = free_response (record s { ota_in_progress = false })

unfoldable pub read_reply : UpdateEnv → Option Reply → Update → Update
unfolding compare_version
read_reply env none s = free_response s
read_reply env (some r) s = compare_version env r.version r.url s

unfoldable pub read_response : UpdateEnv → Option (List ℕ) → Update → Update
unfolding read_reply
read_response env none s = record s { ota_in_progress = false }
read_response env (some b) s = read_reply env (env.parse (c_string b)) s

-- `check_update_task`: the events of the request, and whether it succeeded.
unfoldable pub check_update_task : UpdateEnv → List HttpEvent → Bool → Update → Option Update
unfolding http_perform read_response
check_update_task env events succeeded s = http_perform events s >>= λ t. some (
    if succeeded then read_response env t.json_response t else record t { ota_in_progress = false })
