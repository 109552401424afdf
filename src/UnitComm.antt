-- ===== src/UnitComm.antt =====
-- The unit task of src/unit_comm.c: its state, and what it asks of the rest of the firmware.
pub mod Parse
pub mod Boot
pub mod Connect
pub mod Schedule
pub mod Connected
pub mod Task
pub mod Failure
pub mod Alarms
pub mod Answers
pub mod Drain
pub mod Stalled
pub mod Stall
pub mod Firmware
pub mod Mirror
pub mod Counters
pub mod Tests
pub mod Weights
use aelebdwif01_dongle.Prelude.{
  ℕ, suc, ◌+◌, ◌-◌, ◌%◌, ◌^◌, List, [], ◌∷◌, Bool, true, false, Option, none, some, ℤ, ltb, leb,
  c_string, drop, codes, if◌then◌else◌, ◌>>=◌,
}
use aelebdwif01_dongle.Eeprom.{offset_of}
use aelebdwif01_dongle.Serial.{Serial}
use aelebdwif01_dongle.Serial.Requests.{Board}

-- `_WBM_Com_State`
pub data ComState : Type 0 where
  initialize communicating connected com_error : ComState

-- `CLKTSConnectState`
pub data ConnectState : Type 0 where
  init link_connecting try_serial_link try_rfm_link link_connected read_eeprom_info
        read_eeprom_configuration read_eeprom_setting_par read_eeprom_set_temp read_eeprom_day_prog
        read_eeprom_hw_setting polling_base connect_done bootloader_state bootloader_state1
        bootloader_state_end :
      ConnectState

-- `CLKTSRunningMode`
pub data RunningMode : Type 0 where
  initializing power_off running scanning fire_alarm : RunningMode

-- `CLKTSData`, the fields that the polling message fills. Temperatures are in tenths of a degree.
pub record PollingData : Type 0 where
  pub measure_temp : List ℤ
  pub measure_co2_max : ℕ
  pub measure_rh_max : ℕ
  pub measure_voc_max : ℕ
  pub measure_temp_awp : ℤ
  pub status_unit : ℕ
  pub status_weekly : ℕ
  pub events : List ℕ
  pub cnt_update_info : ℕ
  pub cnt_update_setting_par : ℕ
  pub cnt_update_set_temp : ℕ
  pub cnt_update_day_prog : ℕ
  pub input_measure1 : ℕ
  pub input_measure2 : ℕ
  pub increase_speed_rh_co2 : ℕ

-- `CLKTSDebugData`
pub record DebugData : Type 0 where
  pub preheater_status : ℕ
  pub heater_status : ℕ
  pub cooler_status : ℕ
  pub dsc_status : ℕ
  pub measures_pressure_caps : ℕ
  pub measures_pressure_capr : ℕ
  pub measure_airflow_caps : ℕ
  pub measure_airflow_capr : ℕ
  pub caps_link_level : ℕ
  pub capr_link_level : ℕ
  pub caps_status : ℕ
  pub capr_status : ℕ

-- `CLKTSGlobal`, the fields that the task uses. The timers are uint32_t.
pub record Global : Type 0 where
  pub in_alarm : Bool
  pub filter_in_alarm : Bool
  pub running_mode : RunningMode
  pub polling_base_timer : ℕ
  pub polling_debug_timer : ℕ
  pub last_received_timer : ℕ

-- The globals of the firmware transfer. `file` is /spiffs/firmware.bin, `handle` the position of
-- the open file `f`.
pub record Transfer : Type 0 where
  pub file : Option (List ℕ)
  pub handle : Option ℕ
  pub filesize : ℕ
  pub file_start : ℕ
  pub bytes_transfered : ℕ

-- The last part of an MQTT topic.
pub data Suffix : Type 0 where
  esp_eeprom esp_polling esp_debug : Suffix

-- The characteristics that the task sets.
pub data Attribute : Type 0 where
  eeprom_data polling_data debug_data : Attribute

-- The calls that leave the task.
pub data Effect : Type 0 where
  uart_write : List ℕ → Effect
  uart_9600 : Effect
  gpio_ready : Bool → Effect
  runtime_ready : Bool → Effect
  publish : Suffix → List ℕ → List ℕ → Effect
  set_attr_value : Attribute → List ℕ → Effect
  subscribe_app_topics : List ℕ → Effect
  create_unit_update_task : Effect

-- The globals. `eeprom` is `gRDEeprom`, `request_index` is `Read_Eeprom_Request_Index`, and
-- `address_set` says that `address` points to the serial string of the image. `reads` counts the
-- readings of the clock; `trace` holds the calls made, the latest first.
pub record Comm : Type 0 where
  pub serial : Serial
  pub board : Board
  pub com_state : ComState
  pub current_state : ConnectState
  pub found_com_link : Bool
  pub retries_counter : ℕ
  pub global_timeout : ℕ
  pub eeprom : List ℕ
  pub polling : PollingData
  pub debug : DebugData
  pub global : Global
  pub boot : Transfer
  pub request_index : ℕ
  pub eeprom_data_received : Bool
  pub address_set : Bool
  pub is_mqtt_ready : Bool
  pub unit_update_counter : ℕ
  pub unit_partition_state : Bool
  pub unit_update_task_flag : Bool
  pub bootloader_state_flag : Bool
  pub reads : ℕ
  pub trace : List Effect

-- What surrounds the task: the n-th reading of `Millis()`, what the stack holds where the n-th
-- reading would be made, and whether `fseek` works.
pub record Env : Type 0 where
  pub clock : ℕ → ℕ
  pub stack : ℕ → List ℕ
  pub fseek_works : Bool

abbrev pub timeout_milliseconds : ℕ
timeout_milliseconds = 15000

abbrev pub polling_base_power_on_milliseconds : ℕ
polling_base_power_on_milliseconds = 1000

abbrev pub polling_base_power_off_milliseconds : ℕ
polling_base_power_off_milliseconds = 5000

abbrev pub polling_debug_data_milliseconds : ℕ
polling_debug_data_milliseconds = 4000

-- uint32_t subtraction
abbrev pub sub32 : ℕ → ℕ → ℕ
sub32 a b = (a + 2 ^ 32 - b) % 2 ^ 32

-- `Millis()`
abbrev pub millis : Env → Comm → ℕ
millis env s = env.clock s.reads

abbrev pub tick : Comm → Comm
tick s = record s { reads = suc s.reads }

-- `((Millis() - start) >= limit) || (Millis() < start)`: the second reading is made only if the
-- first part fails.
unfoldable pub expired : Env → ℕ → ℕ → Comm → Bool × Comm
expired env limit start s =
    if leb limit (sub32 (millis env s) start)
    then (true, tick s)
    else (ltb (millis env (tick s)) start, tick (tick s))

abbrev pub emit : Effect → Comm → Comm
emit e s = record s { trace = e ∷ s.trace }

pub emit_write : List ℕ → Comm → Comm
emit_write [] s = s
emit_write (b ∷ bs) s = emit (uart_write (b ∷ bs)) s

-- A request goes out; `none` is an access out of bounds on the way.
unfoldable pub send : (List ℕ → Option (List ℕ)) → Env → Comm → Option Comm
unfolding emit_write
send request env s = request (env.stack s.reads) >>= λ w. some (emit_write w s)

-- `offsetof( S_EEPROM, SerialString )`
unfoldable pub serial_string_at : ℕ
unfolding offset_of
serial_string_at = offset_of "SerialString"

-- The text that `address` points to: the image's serial string runs on to its first NUL.
unfoldable pub address : Comm → List ℕ
unfolding serial_string_at
address s = if s.address_set then c_string (drop serial_string_at s.eeprom) else codes "a0001"
