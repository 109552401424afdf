-- ===== src/UnitComm/Connect.antt =====
-- `Connect_To_Unit` of src/unit_comm.c: the link is tried, the sections of the EEPROM are read, and
-- the unit is polled once.
use aelebdwif01_dongle.Prelude.{
  ℕ, ◌+◌, ◌%◌, ◌^◌, Bool, true, not, ◌&&◌, Option, some, get_or, memcpy, ltb, ◌==◌, if◌then◌else◌,
  ◌>>=◌,
}
use aelebdwif01_dongle.Eeprom.{
  Section, info, configuration, setting_par, set_temp, day_prog, hw_setting, offset_of,
}
use aelebdwif01_dongle.Serial.Receive.{read_message, is_message}
use aelebdwif01_dongle.Serial.Requests.{send_request_polling_base, send_request_read_eeprom1}
use aelebdwif01_dongle.UnitComm.{
  Comm, Env, ConnectState, init, link_connecting, try_serial_link, try_rfm_link, link_connected,
  read_eeprom_info, read_eeprom_configuration, read_eeprom_setting_par, read_eeprom_set_temp,
  read_eeprom_day_prog, read_eeprom_hw_setting, polling_base, connect_done, bootloader_state,
  bootloader_state1, bootloader_state_end, communicating, connected, com_error, power_off, running,
  uart_9600, runtime_ready, publish, esp_eeprom, set_attr_value, eeprom_data, subscribe_app_topics,
  timeout_milliseconds, millis, tick, expired, emit, send, address,
}
use aelebdwif01_dongle.UnitComm.Parse.{polling_base_data_parse}
use aelebdwif01_dongle.UnitComm.Boot.{bootloader_start, bootloader_transfer}

-- A call of `Com_SendRequest_PollingBase` or `Com_SendRequest_ReadEeprom1`.
abbrev pub request_polling : Env → Comm → Option Comm
request_polling env s = send (send_request_polling_base s.board) env s

abbrev pub request_section : Section → Env → Comm → Option Comm
request_section sec env s = send (λ g. send_request_read_eeprom1 g sec) env s

-- `globalTimeoutMilliseconds = Millis ();`
abbrev pub restart_timeout : Env → Comm → Comm
restart_timeout env s = tick (record s { global_timeout = millis env s })

-- `val_ret = Read_Message();`
abbrev pub poll : Comm → Bool × Comm
poll s = let (r, ser) = read_message s.serial in (is_message r, record s { serial = ser })

unfoldable pub connect_init : Env → Comm → Comm
connect_init env s = record (restart_timeout env s) {
  current_state = link_connecting;
  retries_counter = 0;
}

unfoldable pub connect_link : Env → Comm → Option Comm
connect_link env s =
    (if ltb s.retries_counter 2 && not s.found_com_link
      then (request_polling env s >>= λ t.
          some
            (restart_timeout env (record t { retries_counter = (t.retries_counter + 1) % 2 ^ 8 })))
      else some s)
    >>= λ t. some (record t { current_state = try_serial_link })

-- The timeout of `CLKTSConnectState_TrySerialLink`: after two requests the link starts again at
-- 9600 baud.
unfoldable pub retry_link : Env → Comm → Comm
retry_link env s =
    if s.retries_counter == 2
    then emit uart_9600
        (record s { retries_counter = 0; current_state = init; com_state = communicating })
    else record (restart_timeout env s) { current_state = link_connecting }

unfoldable pub connect_try : Env → Comm → Comm
unfolding retry_link
connect_try env s =
    let (late, s1) = expired env timeout_milliseconds s.global_timeout s in
    if late
    then retry_link env s1
    else let (message, s2) = poll s1 in
      let s3 = if message then record s2 { current_state = link_connected } else s2 in
      if s3.serial.bootloader_mode then record s3 { current_state = bootloader_state } else s3

unfoldable pub connect_found : Env → Comm → Option Comm
connect_found env s = request_section info env (record s { found_com_link = true }) >>= λ t.
    some (restart_timeout env (record t { current_state = read_eeprom_info }))

-- What the waiting states share: the timeout, the poll, and what follows a message.
unfoldable pub await : (Comm → Option Comm) → Env → Comm → Option Comm
unfolding expired
await next env s =
    let (late, s1) = expired env timeout_milliseconds s.global_timeout s in
    if late
    then some (record s1 { com_state = com_error; retries_counter = 0 })
    else let (message, s2) = poll s1 in if message then next s2 else some s2

-- The bytes of a section go into the image at the section's place, as many as the message says,
-- and the next request goes out.
unfoldable pub store_section :
    ℕ → (Env → Comm → Option Comm) → ConnectState → Env → Comm → Option Comm
store_section offset request next env s =
    memcpy s.eeprom offset s.serial.buff_ser1 6 (get_or s.serial.buff_ser1 5 0) >>= λ e.
    (request env (record s { eeprom = e }) >>= λ t.
    some (restart_timeout env (record t { current_state = next })))

unfoldable pub set_power_on_at : ℕ
unfolding offset_of
set_power_on_at = offset_of "Set_Power_ON"

-- `case CLKTSConnectState_Connected`
unfoldable pub connect_finish : Env → Comm → Option Comm
connect_finish env s =
    let mode = if get_or s.eeprom set_power_on_at 0 == 0 then power_off else running in
    let g1 = record s.global { running_mode = mode; last_received_timer = millis env s } in
    let s1 = tick (record s { global = g1 }) in
    let t = millis env s1 in
    let g2 = record s1.global { polling_base_timer = t; polling_debug_timer = t } in
    let s2 = emit (runtime_ready true) (tick (record s1 { global = g2; com_state = connected })) in
    let s3 = polling_base_data_parse env s2.serial.buff_ser1 s2 in
    let s4 = record (emit (set_attr_value eeprom_data s3.eeprom) s3) { address_set = true } in
    let s5 = emit (subscribe_app_topics (address s4)) s4 in
    some (if s5.is_mqtt_ready then emit (publish esp_eeprom (address s5) s5.eeprom) s5 else s5)

-- The branches of the `switch`.
unfoldable pub connect_case : ConnectState → Env → Comm → Option Comm
unfolding connect_init connect_link connect_try connect_found connect_finish await store_section
connect_case init env s = some (connect_init env s)
connect_case link_connecting env s = connect_link env s
connect_case try_serial_link env s = some (connect_try env s)
connect_case try_rfm_link env s = some s
connect_case link_connected env s = connect_found env s
connect_case read_eeprom_info env s =
    await
      (store_section (offset_of "AddrUnit") (request_section configuration)
        read_eeprom_configuration env)
      env s
connect_case read_eeprom_configuration env s =
    await
      (store_section (offset_of "numMotors") (request_section setting_par) read_eeprom_setting_par
        env)
      env s
connect_case read_eeprom_setting_par env s =
    await
      (store_section (offset_of "Set_Power_ON") (request_section set_temp) read_eeprom_set_temp env)
      env s
connect_case read_eeprom_set_temp env s =
    await
      (store_section (offset_of "Bypass_minTempExt") (request_section day_prog) read_eeprom_day_prog
        env)
      env s
connect_case read_eeprom_day_prog env s =
    await
      (store_section (offset_of "sDayProg") (request_section hw_setting) read_eeprom_hw_setting env)
      env s
connect_case read_eeprom_hw_setting env s =
    await (store_section (offset_of "numMotors") request_polling polling_base env) env s
connect_case polling_base env s =
    await (λ t. some (restart_timeout env (record t { current_state = connect_done }))) env s
connect_case connect_done env s = connect_finish env s
connect_case bootloader_state env s = some (bootloader_start env s)
connect_case bootloader_state1 env s = some (bootloader_transfer s)
connect_case bootloader_state_end env s = some s

unfoldable pub connect_to_unit : Env → Comm → Option Comm
unfolding connect_case
connect_to_unit env s = connect_case s.current_state env s
