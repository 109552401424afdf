-- ===== src/UnitComm/Connected.antt =====
-- `case WBM_Connected` of the unit task in src/unit_comm.c, part by part.
use aelebdwif01_dongle.Prelude.{
  ℕ, ◌-◌, List, Bool, true, false, not, ◌&&◌, Option, none, some, get_or, slice, zeros, ltb, leb,
  ◌==◌, if◌then◌else◌, ◌>>=◌,
}
use aelebdwif01_dongle.Serial.{
  command_polling_base, command_data_debug, command_read_eeprom, command_write_eeprom,
  ihm1_pos_crc_lo, ihm1_type_comand, ihm1_start_data, rx_buffer_size,
}
use aelebdwif01_dongle.Serial.Receive.{read_message, is_message, is_error}
use aelebdwif01_dongle.Serial.Requests.{send_request_polling_base, send_request_data_debug}
use aelebdwif01_dongle.UnitComm.{
  Comm, Env, RunningMode, power_off, running, com_error, publish, Suffix, esp_eeprom, esp_polling,
  esp_debug, Attribute, set_attr_value, eeprom_data, polling_data, debug_data,
  create_unit_update_task, timeout_milliseconds, polling_base_power_on_milliseconds,
  polling_base_power_off_milliseconds, polling_debug_data_milliseconds, millis, tick, expired, emit,
  send, address,
}
use aelebdwif01_dongle.UnitComm.Parse.{
  polling_base_data_parse, debug_of, read_eeprom_data_parse, write_eeprom_data_parse,
}
use aelebdwif01_dongle.UnitComm.Schedule.{serve_requests}

-- The daily look for new firmware.
unfoldable pub check_unit_update : Comm → Comm
check_unit_update s =
    if ltb s.unit_update_counter 86400000
    then s
    else let s1 = record s { unit_update_counter = 0 } in
      if s.unit_partition_state && (not s.unit_update_task_flag && not s.bootloader_state_flag)
      then emit create_unit_update_task s1
      else s1

unfoldable pub clamp_last_received : Env → Comm → Comm
clamp_last_received env s =
    if ltb (millis env s) s.global.last_received_timer
    then (let s1 = tick s in
        tick (record s1 { global = record s1.global { last_received_timer = millis env s1 } }))
    else tick s

-- A request is sent only if none is outstanding.
unfoldable pub request_once : (List ℕ → Option (List ℕ)) → Env → Comm → Option Comm
request_once request env s =
    if s.eeprom_data_received
    then some s
    else send request env s >>= λ t. some (record t { eeprom_data_received = true })

-- Three readings of the clock, for the two polling timers and the timeout.
abbrev pub restart_debug_timers : Env → Comm → Comm
restart_debug_timers env s =
    let s1 = tick (record s { global = record s.global { polling_debug_timer = millis env s } }) in
    let s2 =
      tick (record s1 { global = record s1.global { polling_base_timer = millis env s1 } }) in
    tick (record s2 { global_timeout = millis env s2 })

abbrev pub restart_base_timers : Env → Comm → Comm
restart_base_timers env s =
    let s1 = tick (record s { global = record s.global { polling_base_timer = millis env s } }) in
    tick (record s1 { global_timeout = millis env s1 })

abbrev pub is_running : RunningMode → Bool
is_running running = true
is_running _ = false

abbrev pub is_polled : RunningMode → Bool
is_polled power_off = true
is_polled running = true
is_polled _ = false

abbrev pub polling_base_milliseconds : RunningMode → ℕ
polling_base_milliseconds power_off = polling_base_power_off_milliseconds
polling_base_milliseconds _ = polling_base_power_on_milliseconds

-- What follows the test of a polling timer: `due` and the state behind the test.
unfoldable pub poll_due :
    (Comm → List ℕ → Option (List ℕ)) → (Env → Comm → Comm) → Env → Bool × Comm → Option Comm
unfolding request_once
poll_due request restart env (due, s) =
    if due then (request_once (request s) env s >>= λ t. some (restart env t)) else some s

unfoldable pub poll_debug : Env → Comm → Option Comm
unfolding poll_due expired
poll_debug env s =
    if is_running s.global.running_mode
    then poll_due (λ t. send_request_data_debug) restart_debug_timers env
        (expired env polling_debug_data_milliseconds s.global.polling_debug_timer s)
    else some s

unfoldable pub poll_base : Env → Comm → Option Comm
unfolding poll_due expired
poll_base env s =
    if is_polled s.global.running_mode
    then poll_due (λ t. send_request_polling_base t.board) restart_base_timers env
        (expired env (polling_base_milliseconds s.global.running_mode) s.global.polling_base_timer
          s)
    else some s

-- What follows the test of the timeout.
abbrev pub lose_link : Bool × Comm → Comm
lose_link (true, s) = record s {
  com_state = com_error;
  retries_counter = 0;
  eeprom_data_received = false;
  request_index = 0;
}
lose_link (false, s) = s

unfoldable pub check_link : Env → Comm → Comm
unfolding expired
check_link env s = lose_link (expired env timeout_milliseconds s.global_timeout s)

-- The data bytes of a message. Their number is computed from its length byte: `none` where it is
-- negative, or where they lie outside of the buffer.
unfoldable pub message_data : List ℕ → Option (List ℕ)
message_data buff =
    let k = get_or buff ihm1_pos_crc_lo 0 in
    if leb ihm1_start_data k && leb k rx_buffer_size
    then some (slice buff ihm1_start_data (k - ihm1_start_data))
    else none

abbrev pub announce_data : Suffix → Attribute → List ℕ → Comm → Comm
announce_data suffix attribute bytes s =
    emit (set_attr_value attribute bytes)
      (if s.is_mqtt_ready then emit (publish suffix (address s) bytes) s else s)

abbrev pub replied : Comm → Comm
replied s = record s { eeprom_data_received = false }

unfoldable pub on_polling : Env → Comm → Option Comm
unfolding message_data
on_polling env s = message_data s.serial.buff_ser1 >>= λ bytes.
    (let s1 = announce_data esp_polling polling_data bytes s in
      some (replied (polling_base_data_parse env s1.serial.buff_ser1 s1)))

unfoldable pub on_debug : Comm → Option Comm
unfolding message_data
on_debug s = message_data s.serial.buff_ser1 >>= λ bytes.
    (let s1 = announce_data esp_debug debug_data bytes s in
      some (replied (record s1 { debug = debug_of s1.serial.buff_ser1 })))

unfoldable pub on_read_eeprom : Comm → Option Comm
on_read_eeprom s = read_eeprom_data_parse s.serial.buff_ser1 s >>= λ t.
    some (replied (announce_data esp_eeprom eeprom_data t.eeprom t))

-- The message's command decides; any other command changes nothing.
unfoldable pub on_message : Env → Comm → Option Comm
unfolding on_polling on_debug on_read_eeprom
on_message env s =
    let c = get_or s.serial.buff_ser1 ihm1_type_comand 0 in
    if c == command_polling_base
    then on_polling env s
    else if c == command_data_debug
    then on_debug s
    else if c == command_read_eeprom
    then on_read_eeprom s
    else if c == command_write_eeprom
    then some (replied (write_eeprom_data_parse s.serial.buff_ser1 s))
    else some s

unfoldable pub receive_reply : Env → Comm → Option Comm
receive_reply env s =
    let (r, ser) = read_message s.serial in
    if is_message r
    then (let s1 = record s { serial = ser } in
        on_message env (tick (record s1 { global_timeout = millis env s1 })))
    else some (
        if is_error r
        then record s {
          serial = record ser { buff_ser1 = zeros rx_buffer_size };
          eeprom_data_received = false;
        }
        else record s { serial = ser })

-- The whole case.
unfoldable pub connected_step : Env → Comm → Option Comm
connected_step env s = poll_debug env (clamp_last_received env (check_unit_update s)) >>= λ t1.
    (poll_base env t1 >>= λ t2.
    (receive_reply env (check_link env t2) >>= λ t3. serve_requests env t3))
