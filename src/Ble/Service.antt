-- ===== src/Ble/Service.antt =====
-- The start of the service of src/ble.c: the name and the advertising, the table of attributes, and the
-- values until the unit answers.
pub mod Advertising
pub mod Handles
use aelebdwif01_dongle.Prelude.{
  ℕ, zero, suc, ◌+◌, ◌/◌, ◌%◌, ◌^◌, List, [], ◌∷◌, ◌++◌, Bool, true, false, Option, none, some,
  hex_byte, take, length, zeros, codes, get_or, ltb, ◌==◌, ◌&&◌, ◌||◌, if◌then◌else◌,
}
use aelebdwif01_dongle.Prelude.Bits.{set_bit, clear_bit}
use aelebdwif01_dongle.Eeprom.{sizeof_eeprom}
use aelebdwif01_dongle.Ble.Provision.{Provision, EventEnv, ble_set_runtime_ready}
use aelebdwif01_dongle.Ble.Provision.Events.{disconnected_event}
use aelebdwif01_dongle.Ble.Attributes.{
  Index, svc, char_val, eeprom_data, polling, debug_data, position, hrs_idx_nb,
}

-- The variables of the service, and the calls made: the name set, the tables created, the services
-- started, the times that advertising was started, and the values set for handles.
pub record Service : Type 0 where
  pub adv_config_done : ℕ
  pub ble_handle_table : List ℕ
  pub gatts_if : ℕ
  pub eeprom : List ℕ
  pub names : List (List ℕ)
  pub tables : ℕ
  pub started : List ℕ
  pub advertised : ℕ
  pub values : List (ℕ × List ℕ)

abbrev pub colon_hex : List ℕ → List ℕ
colon_hex [] = []
colon_hex (b ∷ []) = hex_byte b
colon_hex (b ∷ c ∷ cs) = hex_byte b ++ (codes ":" ++ colon_hex (c ∷ cs))

-- The two calls of `snprintf` for the name, into arrays of 19 and 30 characters.
unfoldable pub device_name : List ℕ → List ℕ
device_name mac = take 29 (codes "AVENSYS" ++ take 18 (codes "_" ++ colon_hex mac))

-- `ESP_GATTS_REG_EVT` of `gatts_profile_event_handler`
unfoldable pub registered : List ℕ → Service → Service
unfolding device_name
registered mac s = record s {
  names = device_name mac ∷ s.names;
  adv_config_done = set_bit 1 (set_bit 0 s.adv_config_done);
  tables = s.tables + 1;
}

unfoldable pub start_if_done : Service → Service
start_if_done s = if s.adv_config_done == 0 then record s { advertised = s.advertised + 1 } else s

-- The events of `gap_event_handler` that change something; the others are logged, or answered to the
-- ESP-IDF.
pub data GapEvent : Type 0 where
  adv_data_set scan_rsp_data_set other_gap_event : GapEvent

-- `gap_event_handler`
unfoldable pub gap_event_handler : GapEvent → Service → Service
unfolding start_if_done
gap_event_handler adv_data_set s =
    start_if_done (record s { adv_config_done = clear_bit 0 s.adv_config_done })
gap_event_handler scan_rsp_data_set s =
    start_if_done (record s { adv_config_done = clear_bit 1 s.adv_config_done })
gap_event_handler other_gap_event s = s

-- `ESP_GATTS_DISCONNECT_EVT`: the provisioning is set back, and the device advertises again.
unfoldable pub app_disconnected :
    {Queue : Type 0} → EventEnv Queue → Service × Provision Queue → Service × Provision Queue
unfolding disconnected_event
app_disconnected env (s, p) = (record s { advertised = s.advertised + 1 }, disconnected_event env p)

abbrev pub handle_of : Index → Service → ℕ
handle_of i s = get_or s.ble_handle_table (position i) 0

-- `ble_init_runtime_placeholders`; the sizes of the two structs of the measures are the compiler's.
unfoldable pub ble_init_runtime_placeholders : ℕ → ℕ → Service → Service
ble_init_runtime_placeholders sizeof_data sizeof_debug_data s = record s {
  eeprom = zeros sizeof_eeprom;
  values =
      (handle_of (char_val debug_data) s, zeros sizeof_debug_data)
      ∷ (handle_of (char_val polling) s, zeros sizeof_data)
      ∷ (handle_of (char_val eeprom_data) s, zeros sizeof_eeprom)
      ∷ s.values;
}

-- What a complete table leads to, but for the provisioning's part in `ble_set_runtime_ready`.
unfoldable pub serve_table : ℕ → ℕ → List ℕ → Service → Service
unfolding ble_init_runtime_placeholders
serve_table sizeof_data sizeof_debug_data handles s =
    ble_init_runtime_placeholders sizeof_data sizeof_debug_data (record s {
      ble_handle_table = handles;
      started = get_or handles (position svc) 0 ∷ s.started;
    })

-- `ESP_GATTS_CREAT_ATTR_TAB_EVT`, with the status and the handles of the event.
unfoldable pub table_created :
    {Queue : Type 0}
    → EventEnv Queue
    → ℕ
    → ℕ
    → Bool
    → List ℕ
    → Service × Provision Queue
    → Service × Provision Queue
unfolding serve_table ble_set_runtime_ready
table_created env sizeof_data sizeof_debug_data ok handles (s, p) =
    if ok && (length handles == hrs_idx_nb)
    then (serve_table sizeof_data sizeof_debug_data handles s, ble_set_runtime_ready env false p)
    else (s, p)

-- `gatts_event_handler`, with `ESP_GATT_IF_NONE`: whether the profile's handler is called. With a
-- registration comes its status.
unfoldable pub gatts_event_handler : ℕ → Option Bool → ℕ → Service → Bool × Service
gatts_event_handler if_none (some false) gatts_if s = (false, s)
gatts_event_handler if_none (some true) gatts_if s = (true, record s { gatts_if = gatts_if })
gatts_event_handler if_none none gatts_if s = ((gatts_if == if_none) || (gatts_if == s.gatts_if), s)
