-- ===== src/Ble/Attributes.antt =====
-- The table of attributes of src/ble.c, `gatt_db`, by the indices of include/ble.h: a service, and for
-- each characteristic its declaration, its value and its configuration.
use aelebdwif01_dongle.Prelude.{
  ◌==◌, if◌then◌else◌, sym, ap, ◌∙◌, refl, ◌≡◌, ℕ, ◌+◌, ◌*◌, ◌≤◌, ◌<◌, arith,
}

-- The characteristics, in the order of the indices.
pub data Characteristic : Type 0 where
  eeprom_data debug_data polling wifi_ssid wifi_password connect_to_cloud prov_status ota_url
        update_firmware device_id :
      Characteristic

-- `IDX_SVC`, `IDX_CHAR_*`, `IDX_CHAR_VAL_*` and `IDX_CHAR_*_CFG`
pub data Index : Type 0 where
  svc : Index
  char char_val char_cfg : Characteristic → Index

abbrev pub rank : Characteristic → ℕ
rank eeprom_data = 0
rank debug_data = 1
rank polling = 2
rank wifi_ssid = 3
rank wifi_password = 4
rank connect_to_cloud = 5
rank prov_status = 6
rank ota_url = 7
rank update_firmware = 8
rank device_id = 9

-- The value of an index.
unfoldable pub position : Index → ℕ
position svc = 0
position (char c) = 3 * rank c + 1
position (char_val c) = 3 * rank c + 2
position (char_cfg c) = 3 * rank c + 3

-- `HRS_IDX_NB`
abbrev pub hrs_idx_nb : ℕ
hrs_idx_nb = 31

pub data Uuid : Type 0 where
  primary_service character_declaration character_client_config : Uuid
  uuid16 : ℕ → Uuid

-- `GATTS_CHAR_UUID_*`
abbrev pub uuid_of : Characteristic → ℕ
uuid_of eeprom_data = 0xFF01
uuid_of debug_data = 0xFF02
uuid_of polling = 0xFF03
uuid_of wifi_ssid = 0xFF05
uuid_of wifi_password = 0xFF06
uuid_of connect_to_cloud = 0xFF07
uuid_of ota_url = 0xFF08
uuid_of update_firmware = 0xFF09
uuid_of device_id = 0xFF0A
uuid_of prov_status = 0xFF0B

-- `ESP_GATT_PERM_*`, as the table combines them.
pub data Perm : Type 0 where
  perm_read perm_read_write perm_encrypted : Perm

-- `esp_gatts_attr_db_t`, without the pointers to the first values.
pub record GattAttr : Type 0 where
  pub uuid : Uuid
  pub perm : Perm
  pub max_length : ℕ
  pub attr_length : ℕ

-- `sizeof(WIFI_SSID)`, `sizeof(WIFI_PASSWORD)` and `sizeof(char_value)`
abbrev pub value_length : Characteristic → ℕ
value_length wifi_ssid = 32 + 1
value_length wifi_password = 64 + 1
value_length prov_status = 1
value_length _ = 4

abbrev pub value_perm : Characteristic → Perm
value_perm wifi_ssid = perm_encrypted
value_perm wifi_password = perm_encrypted
value_perm prov_status = perm_read
value_perm _ = perm_read_write

-- With `ESP_BLE_CHAR_VAL_LEN_MAX` of the ESP-IDF.
abbrev pub value_max : ℕ → Characteristic → ℕ
value_max char_val_len_max prov_status = 1
value_max char_val_len_max _ = char_val_len_max

-- `gatt_db`
unfoldable pub gatt_db : ℕ → Index → GattAttr
gatt_db char_val_len_max svc = record {
  uuid = primary_service;
  perm = perm_read;
  max_length = 2;
  attr_length = 2;
}
gatt_db char_val_len_max (char c) = record {
  uuid = character_declaration;
  perm = perm_read;
  max_length = 1;
  attr_length = 1;
}
gatt_db char_val_len_max (char_val c) = record {
  uuid = uuid16 (uuid_of c);
  perm = value_perm c;
  max_length = value_max char_val_len_max c;
  attr_length = value_length c;
}
gatt_db char_val_len_max (char_cfg c) = record {
  uuid = character_client_config;
  perm = perm_read_write;
  max_length = 2;
  attr_length = 2;
}

rank_le : (c : Characteristic) → rank c ≤ 9
rank_le eeprom_data = omega arith
rank_le debug_data = omega arith
rank_le polling = omega arith
rank_le wifi_ssid = omega arith
rank_le wifi_password = omega arith
rank_le connect_to_cloud = omega arith
rank_le prov_status = omega arith
rank_le ota_url = omega arith
rank_le update_firmware = omega arith
rank_le device_id = omega arith

-- The indices fit into the table of handles.
pub position_lt : (i : Index) → position i < hrs_idx_nb
unfolding position
position_lt svc = omega arith
position_lt (char c) = let h = rank_le c in omega (arith, h)
position_lt (char_val c) = let h = rank_le c in omega (arith, h)
position_lt (char_cfg c) = let h = rank_le c in omega (arith, h)

value_fits : (n : ℕ) (c : Characteristic) → 65 ≤ n → value_length c ≤ value_max n c
value_fits n eeprom_data h = omega arith
value_fits n debug_data h = omega arith
value_fits n polling h = omega arith
value_fits n wifi_ssid h = omega arith
value_fits n wifi_password h = omega arith
value_fits n connect_to_cloud h = omega arith
value_fits n prov_status h = omega arith
value_fits n ota_url h = omega arith
value_fits n update_firmware h = omega arith
value_fits n device_id h = omega arith

-- If a value may have at least 65 bytes, every attribute's first value fits into it.
attribute_fits : (n : ℕ) (i : Index) → 65 ≤ n → (gatt_db n i).attr_length ≤ (gatt_db n i).max_length
unfolding gatt_db
attribute_fits n svc h = omega arith
attribute_fits n (char c) h = omega arith
attribute_fits n (char_val c) h = value_fits n c h
attribute_fits n (char_cfg c) h = omega arith

-- No two indices have the same position.
unrank : ℕ → Characteristic
unrank n =
    if n == 0
    then eeprom_data
    else if n == 1
    then debug_data
    else if n == 2
    then polling
    else if n == 3
    then wifi_ssid
    else if n == 4
    then wifi_password
    else if n == 5
    then connect_to_cloud
    else if n == 6
    then prov_status
    else if n == 7
    then ota_url
    else if n == 8
    then update_firmware
    else device_id

unrank-rank : (c : Characteristic) → unrank (rank c) ≡ c
unfolding unrank
unrank-rank eeprom_data = refl
unrank-rank debug_data = refl
unrank-rank polling = refl
unrank-rank wifi_ssid = refl
unrank-rank wifi_password = refl
unrank-rank connect_to_cloud = refl
unrank-rank prov_status = refl
unrank-rank ota_url = refl
unrank-rank update_firmware = refl
unrank-rank device_id = refl

rank-injective : (c d : Characteristic) → rank c ≡ rank d → c ≡ d
rank-injective c d e = sym (unrank-rank c) ∙ ap (λ n. unrank n) e ∙ unrank-rank d

pub position-injective : (i j : Index) → position i ≡ position j → i ≡ j
unfolding position
position-injective svc svc e = refl
position-injective svc (char d) e = absurd (omega arith)
position-injective svc (char_val d) e = absurd (omega arith)
position-injective svc (char_cfg d) e = absurd (omega arith)
position-injective (char c) svc e = absurd (omega arith)
position-injective (char c) (char d) e = ap (λ c. char c) (rank-injective c d (omega arith))
position-injective (char c) (char_val d) e = absurd (omega arith)
position-injective (char c) (char_cfg d) e = absurd (omega arith)
position-injective (char_val c) svc e = absurd (omega arith)
position-injective (char_val c) (char d) e = absurd (omega arith)
position-injective (char_val c) (char_val d) e =
    ap (λ c. char_val c) (rank-injective c d (omega arith))
position-injective (char_val c) (char_cfg d) e = absurd (omega arith)
position-injective (char_cfg c) svc e = absurd (omega arith)
position-injective (char_cfg c) (char d) e = absurd (omega arith)
position-injective (char_cfg c) (char_val d) e = absurd (omega arith)
position-injective (char_cfg c) (char_cfg d) e =
    ap (λ c. char_cfg c) (rank-injective c d (omega arith))
