-- ===== src/Eeprom/Sections.antt =====
-- Where the sections lie in the image, and what they leave out.
use aelebdwif01_dongle.Prelude.{ℕ, ◌+◌, ◌≤◌, ◌<◌, ◌≡◌, ◌≢◌, refl, arith}
use aelebdwif01_dongle.Eeprom.{
  Section, info, configuration, setting_par, set_temp, day_prog, hw_setting, start_address, count,
  sizeof_eeprom,
}

pub sizeof_eeprom_lem : sizeof_eeprom ≡ 241
unfolding sizeof_eeprom
sizeof_eeprom_lem = refl

abbrev pub start_table : Section → ℕ
start_table info = 0
start_table configuration = 59
start_table setting_par = 76
start_table set_temp = 133
start_table day_prog = 153
start_table hw_setting = 59

abbrev pub count_table : Section → ℕ
count_table info = 59
count_table configuration = 17
count_table setting_par = 51
count_table set_temp = 20
count_table day_prog = 85
count_table hw_setting = 17

pub start_address_lem : (s : Section) → start_address s ≡ start_table s
unfolding start_address
start_address_lem info = refl
start_address_lem configuration = refl
start_address_lem setting_par = refl
start_address_lem set_temp = refl
start_address_lem day_prog = refl
start_address_lem hw_setting = refl

pub count_lem : (s : Section) → count s ≡ count_table s
unfolding count
count_lem info = refl
count_lem configuration = refl
count_lem setting_par = refl
count_lem set_temp = refl
count_lem day_prog = refl
count_lem hw_setting = refl

-- Byte i of the image belongs to section s.
abbrev pub InSection : Section → ℕ → Type 0
InSection s i = (start_address s ≤ i) × (i < start_address s + count s)

abbrev pub InTable : Section → ℕ → Type 0
InTable s i = (start_table s ≤ i) × (i < start_table s + count_table s)

-- Every section lies inside the image, and its bytes fit into one message: with 6 bytes before
-- them and 2 behind them it has at most 127 bytes.
pub section_fits : (s : Section) → (start_address s + count s ≤ sizeof_eeprom) × (count s + 8 ≤ 127)
section_fits s = rw (start_address_lem s, count_lem s, sizeof_eeprom_lem) (fits s)
  where
    fits : (s : Section) → (start_table s + count_table s ≤ 241) × (count_table s + 8 ≤ 127)
    fits info = omega arith
    fits _ = omega arith

-- Two sections that start at different addresses share no byte.
pub sections_disjoint :
    (s t : Section) (i : ℕ) → start_address s ≢ start_address t → InSection s i → ¬ InSection t i
sections_disjoint s t i ne hs ht =
    apart s t i (λ e. ne (rw (start_address_lem s, start_address_lem t) e))
      (rw (start_address_lem s, count_lem s) at hs) (rw (start_address_lem t, count_lem t) at ht)
  where
    apart : (s t : Section) (i : ℕ) → start_table s ≢ start_table t → InTable s i → InTable t i → ⊥
    apart info t i ne hs ht = ground arith
    apart _ t i ne hs ht = ground arith
