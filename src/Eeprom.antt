-- ===== src/Eeprom.antt =====
-- The layout of the unit's EEPROM image and its sections: `S_EEPROM` of
-- include/eeprom_data_struct.h and the section macros of include/protocol_serial.h. The struct is
-- packed, so that a member's offset is the sum of the sizes before it.
pub mod Sections
mod Tests
use Prim.Native.String.{String}
use text.Mathlib.Text.{◌==◌ as str_eq}
use aelebdwif01_dongle.Prelude.{ℕ, ◌+◌, ◌-◌, ◌*◌, List, [], ◌∷◌, if◌then◌else◌}

-- `SDAYPROG`
abbrev pub sizeof_day_prog : ℕ
sizeof_day_prog = 1 + 4 + 4 + 1 + 1 + 1

-- The members of `S_EEPROM` in order, with their sizes in bytes.
abbrev pub members : List (String × ℕ)
members =
    ("AddrUnit", 1)
    ∷ ("Type_func", 1)
    ∷ ("HW_Vers", 4)
    ∷ ("SW_Vers", 5)
    ∷ ("SerialString", 18)
    ∷ ("SW_Vers_ModBus", 2)
    ∷ ("SignTEST", 2)
    ∷ ("CodeErrTest", 1)
    ∷ ("hour_runnig", 4)
    ∷ ("time_lastCloggedFilters", 4)
    ∷ ("AccessoyHW", 4)
    ∷ ("Enab_Fuction", 2)
    ∷ ("msk_Enab_Fuction", 2)
    ∷ ("Dsc_Sdcard_Update_Delay", 1)
    ∷ ("Pir_Update_Delay", 1)
    ∷ ("calibra_cap1", 2)
    ∷ ("size1_free", 4)
    ∷ ("cntUpdate_info", 1)
    ∷ ("numMotors", 1)
    ∷ ("numPulseMotors", 1)
    ∷ ("typeMotors", 1)
    ∷ ("chWireless", 1)
    ∷ ("depotMotors", 1)
    ∷ ("numNTC", 1)
    ∷ ("Posiz_NTC", 1)
    ∷ ("RotazioneBypass", 1)
    ∷ ("Set_StepMotors_CAP1", 8)
    ∷ ("size2_free", 1)
    ∷ ("Set_Power_ON", 1)
    ∷ ("Config_Bypass", 1)
    ∷ ("Set_Input", 2)
    ∷ ("Set_Output", 2)
    ∷ ("sel_idxStepMotors", 1)
    ∷ ("Set_StepMotorsCFS_CAF", 8)
    ∷ ("Set_StepMotors_CAP", 8)
    ∷ ("Set_Imbalance", 2)
    ∷ ("Set_TimeBoost", 1)
    ∷ ("SetPoint_CO2", 2)
    ∷ ("SetPoint_RH", 1)
    ∷ ("SetPoint_VOC", 2)
    ∷ ("gg_manut_Filter", 2)
    ∷ ("service_password", 5)
    ∷ ("user_password", 5)
    ∷ ("calibra_cap", 2)
    ∷ ("manual_reset", 1)
    ∷ ("DPP_Calibrationvalue", 1)
    ∷ ("Set_MBF_fresh", 1)
    ∷ ("Set_MBF_return", 1)
    ∷ ("SetPoint_Airflow_CO2", 1)
    ∷ ("cntUpdate_SettingPar", 1)
    ∷ ("Calibr", 6)
    ∷ ("Bypass_minTempExt", 2)
    ∷ ("SetPointTemp", 4)
    ∷ ("idxSetPointT", 1)
    ∷ ("hister_AWP_Temp_Hot", 2)
    ∷ ("hister_AWP_Temp_Cold", 2)
    ∷ ("hister_Temp_Hot", 2)
    ∷ ("hister_Temp_Cold", 2)
    ∷ ("Ref_T_setting", 1)
    ∷ ("DeltaTemp_Supply", 1)
    ∷ ("Set_EHD_mod", 1)
    ∷ ("Set_BPD_mod", 1)
    ∷ ("cntUpdate_SetTemp", 1)
    ∷ ("sDayProg", 7 * sizeof_day_prog)
    ∷ ("cntUpdate_dayProg", 1)
    ∷ ("version_eeprom", 1)
    ∷ ("check_eeprom", 2)
    ∷ []

offset_from : ℕ → List (String × ℕ) → String → ℕ
offset_from n [] name = n
offset_from n ((m, size) ∷ ms) name =
    let rest = offset_from (n + size) ms name in if str_eq m name then n else rest

-- `offsetof(S_EEPROM, name)`
unfoldable pub offset_of : String → ℕ
unfolding offset_from
offset_of name = offset_from 0 members name

size_among : List (String × ℕ) → String → ℕ
size_among [] name = 0
size_among ((m, size) ∷ ms) name = if str_eq m name then size else size_among ms name

-- `sizeof(gRDEeprom.name)`
unfoldable pub size_of : String → ℕ
unfolding size_among
size_of name = size_among members name

total_size : List (String × ℕ) → ℕ
total_size [] = 0
total_size ((m, size) ∷ ms) = size + total_size ms

-- `sizeof(S_EEPROM)`
unfoldable pub sizeof_eeprom : ℕ
unfolding total_size
sizeof_eeprom = total_size members

-- `EEepromSection`
pub data Section : Type 0 where
  info configuration setting_par set_temp day_prog hw_setting : Section

abbrev pub first_member : Section → String
first_member info = "AddrUnit"
first_member configuration = "numMotors"
first_member setting_par = "Set_Power_ON"
first_member set_temp = "Bypass_minTempExt"
first_member day_prog = "sDayProg"
first_member hw_setting = "numMotors"

abbrev pub last_member : Section → String
last_member info = "cntUpdate_info"
last_member configuration = "size2_free"
last_member setting_par = "cntUpdate_SettingPar"
last_member set_temp = "cntUpdate_SetTemp"
last_member day_prog = "cntUpdate_dayProg"
last_member hw_setting = "size2_free"

-- `Eeprom_<section>_StartAddress`
unfoldable pub start_address : Section → ℕ
unfolding offset_of
start_address s = offset_of (first_member s)

-- `Eeprom_<section>_EndAddress`
unfoldable pub end_address : Section → ℕ
unfolding offset_of size_of
end_address s = offset_of (last_member s) + size_of (last_member s) - 1

-- `Eeprom_<section>_Count`
unfoldable pub count : Section → ℕ
unfolding start_address end_address
count s = end_address s - start_address s + 1
