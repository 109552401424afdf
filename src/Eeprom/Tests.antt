-- ===== src/Eeprom/Tests.antt =====
-- Offsets that the comments of include/eeprom_data_struct.h name, and the sections at an example.
use aelebdwif01_dongle.Prelude.{◌≡◌, refl, arith}
use aelebdwif01_dongle.Eeprom.{offset_of, info, configuration}
use aelebdwif01_dongle.Eeprom.Sections.{InSection, sections_disjoint, start_address_lem, count_lem}

commented_offsets :
    (offset_of "SerialString" ≡ 11)
    × (offset_of "Enab_Fuction" ≡ 46)
    × (offset_of "Dsc_Sdcard_Update_Delay" ≡ 50)
unfolding offset_of
commented_offsets = (refl, refl, refl)

-- The comment there says 75.
set_power_on_offset : offset_of "Set_Power_ON" ≡ 76
unfolding offset_of
set_power_on_offset = refl

byte_60 : InSection configuration 60
byte_60 = rw (start_address_lem configuration, count_lem configuration) (omega arith)

sections_disjoint_example : ¬ InSection info 60
sections_disjoint_example =
    sections_disjoint configuration info 60
      (rw (start_address_lem configuration, start_address_lem info) (omega arith)) byte_60
