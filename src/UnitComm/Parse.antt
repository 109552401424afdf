-- ===== src/UnitComm/Parse.antt =====
-- The parsers of src/unit_comm.c: polling, debug, and the replies to EEPROM reads and writes.
use aelebdwif01_dongle.Prelude.{
  ℕ, suc, ◌+◌, ◌-◌, ◌*◌, List, [], ◌∷◌, Bool, true, false, Option, some, ℤ, get_or, set, slice,
  memcpy, signed16, ltb, leb, ◌==◌, if◌then◌else◌, ◌>>=◌,
}
use aelebdwif01_dongle.Prelude.Bits.{test_bit, set_bit}
use aelebdwif01_dongle.Eeprom.{offset_of}
use aelebdwif01_dongle.UnitComm.{Comm, Env, Global, PollingData, DebugData, millis, tick}

-- `MAKEWORD`
abbrev pub make_word : List ℕ → ℕ → ℕ → ℕ
make_word buffer hi lo = get_or buffer hi 0 * 256 + get_or buffer lo 0

-- `MAKESHORT`
abbrev pub make_short : List ℕ → ℕ → ℕ → ℤ
make_short buffer hi lo = signed16 (make_word buffer hi lo)

-- The part of `WBM_Polling_Base_Data_Parse` that fills `gKTSData`, by the indices of
-- `index_message_resp_polling_base`.
unfoldable pub polling_of : List ℕ → PollingData
polling_of rx = record {
  measure_temp =
      make_short rx 5 4 ∷ make_short rx 7 6 ∷ make_short rx 9 8 ∷ make_short rx 11 10 ∷ [];
  measure_co2_max = make_word rx 17 16;
  measure_rh_max = get_or rx 15 0;
  measure_voc_max = make_word rx 19 18;
  measure_temp_awp = make_short rx 43 42;
  status_unit = make_word rx 21 20;
  status_weekly = get_or rx 22 0;
  events = slice rx 23 13;
  cnt_update_info = get_or rx 38 0;
  cnt_update_setting_par = get_or rx 39 0;
  cnt_update_set_temp = get_or rx 40 0;
  cnt_update_day_prog = get_or rx 41 0;
  input_measure1 = get_or rx 12 0;
  input_measure2 = get_or rx 13 0;
  increase_speed_rh_co2 = get_or rx 37 0;
}

-- The body of the loop over the events, at event number i.
unfoldable pub alarm_step : ℕ → ℕ → Global → Global
alarm_step i e g =
    if e == 0
    then g
    else if i == 10
    then record g {
      filter_in_alarm = test_bit 5 e;
      in_alarm = if e == 0x20 then g.in_alarm else true;
    }
    else record g { in_alarm = true }

-- The loop, from event number i on.
unfoldable pub alarm_loop : ℕ → List ℕ → Global → Global
unfolding alarm_step
alarm_loop i [] g = g
alarm_loop i (e ∷ es) g = alarm_loop (suc i) es (alarm_step i e g)

-- `offsetof( S_EEPROM, cntUpdate_* )`
unfoldable pub cnt_update_info_at : ℕ
unfolding offset_of
cnt_update_info_at = offset_of "cntUpdate_info"

unfoldable pub cnt_update_setting_par_at : ℕ
unfolding offset_of
cnt_update_setting_par_at = offset_of "cntUpdate_SettingPar"

unfoldable pub cnt_update_set_temp_at : ℕ
unfolding offset_of
cnt_update_set_temp_at = offset_of "cntUpdate_SetTemp"

unfoldable pub cnt_update_day_prog_at : ℕ
unfolding offset_of
cnt_update_day_prog_at = offset_of "cntUpdate_dayProg"

-- `if (received != stored) Read_Eeprom_Request_Index |= 1 << k;`
abbrev pub note_change : ℕ → ℕ → ℕ → ℕ → ℕ
note_change k received stored index = if received == stored then index else set_bit k index

-- The comparisons of the update counters at the end of `WBM_Polling_Base_Data_Parse`.
unfoldable pub compare_counters : PollingData → List ℕ → ℕ → ℕ
compare_counters p eeprom index =
    note_change 3 p.cnt_update_day_prog (get_or eeprom cnt_update_day_prog_at 0) (
      note_change 2 p.cnt_update_set_temp (get_or eeprom cnt_update_set_temp_at 0) (
        note_change 1 p.cnt_update_setting_par (get_or eeprom cnt_update_setting_par_at 0)
          (note_change 0 p.cnt_update_info (get_or eeprom cnt_update_info_at 0) index)))

-- `WBM_Polling_Base_Data_Parse`
unfoldable pub polling_base_data_parse : Env → List ℕ → Comm → Comm
unfolding polling_of alarm_loop compare_counters
polling_base_data_parse env rx s =
    let p = polling_of rx in
    let g = alarm_loop 0 p.events (record s.global { in_alarm = false; filter_in_alarm = false }) in
    tick (record s {
      polling = p;
      global = record g { last_received_timer = millis env s };
      request_index = compare_counters p s.eeprom s.request_index;
    })

-- `WBM_Debug_Data_Parse`, by the indices of `index_message_resp_data_debug`.
unfoldable pub debug_of : List ℕ → DebugData
debug_of rx = record {
  preheater_status = get_or rx 29 0;
  heater_status = get_or rx 30 0;
  cooler_status = get_or rx 31 0;
  dsc_status = get_or rx 51 0;
  measures_pressure_caps = make_word rx 53 52;
  measures_pressure_capr = make_word rx 55 54;
  measure_airflow_caps = make_word rx 57 56;
  measure_airflow_capr = make_word rx 59 58;
  caps_link_level = get_or rx 61 0;
  capr_link_level = get_or rx 60 0;
  caps_status = get_or rx 62 0;
  capr_status = get_or rx 63 0;
}

-- `WBM_Read_Eeprom_Data_Parse`: the address and the number of bytes come from the message.
unfoldable pub read_eeprom_data_parse : List ℕ → Comm → Option Comm
read_eeprom_data_parse rx s =
    memcpy s.eeprom (get_or rx 4 0) rx 6 (get_or rx 5 0) >>= λ e. some (record s { eeprom = e })

-- `MAX(received, stored) - MIN(received, stored) >= 1`
abbrev pub differ : ℕ → ℕ → Bool
differ received stored = leb 1 (
    (if ltb stored received then received else stored)
    - (if ltb received stored then received else stored))

-- One update counter in the reply to a write: a difference asks for the section to be read again,
-- and the counter is taken over.
abbrev pub take_counter : ℕ → ℕ → ℕ → Comm → Comm
take_counter k received at s = record s {
  request_index =
      if differ received (get_or s.eeprom at 0) then set_bit k s.request_index else s.request_index;
  eeprom = set s.eeprom at received;
}

-- `WBM_Write_Eeprom_Data_Parse`; the result byte is only logged.
unfoldable pub write_eeprom_data_parse : List ℕ → Comm → Comm
write_eeprom_data_parse rx s = take_counter 3 (get_or rx 10 0) cnt_update_day_prog_at (
    take_counter 2 (get_or rx 9 0) cnt_update_set_temp_at (
      take_counter 1 (get_or rx 8 0) cnt_update_setting_par_at
        (take_counter 0 (get_or rx 7 0) cnt_update_info_at s)))
