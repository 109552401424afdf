-- ===== src/Ble.antt =====
-- The prepared writes of src/ble.c, by which the app sends a whole EEPROM image: the chunks are
-- collected in a buffer, and their execution stores the image and asks for its sections to be
-- written to the unit.
pub mod Image
pub mod Provision
pub mod Attributes
pub mod Service
mod Tests
use aelebdwif01_dongle.Prelude.{
  ℕ, ◌+◌, List, Bool, true, false, Option, none, some, length, memcpy, ltb, if◌then◌else◌, ◌>>=◌,
}
use aelebdwif01_dongle.Prelude.Bits.{set_bit}
use aelebdwif01_dongle.Eeprom.{sizeof_eeprom}

abbrev pub prepare_buf_max_size : ℕ
prepare_buf_max_size = 1024

-- `prepare_type_env_t`
pub record PrepareEnv : Type 0 where
  pub prepare_buf : Option (List ℕ)
  pub prepare_len : ℕ

-- `esp_gatt_status_t`, the values that the response carries.
pub data Status : Type 0 where
  gatt_ok no_resources invalid_offset invalid_attr_len : Status

-- The checks before a chunk is stored. `heap` is what `malloc` returns: NULL, or memory with any
-- contents. The offset and the length are compared with the size only if there is a buffer.
unfoldable pub check_chunk : Option (List ℕ) → ℕ → ℕ → Option (List ℕ) → ℕ → Status × PrepareEnv
check_chunk none offset len none n = (no_resources, record { prepare_buf = none; prepare_len = 0 })
check_chunk (some h) offset len none n = (gatt_ok, record { prepare_buf = some h; prepare_len = 0 })
check_chunk heap offset len (some b) n =
    let p : PrepareEnv = record { prepare_buf = some b; prepare_len = n } in
    if ltb prepare_buf_max_size offset
    then (invalid_offset, p)
    else if ltb prepare_buf_max_size (offset + len)
    then (invalid_attr_len, p)
    else (gatt_ok, p)

-- The copy into the buffer.
unfoldable pub store_chunk : ℕ → List ℕ → Option (List ℕ) → ℕ → Option PrepareEnv
store_chunk offset value none n = none
store_chunk offset value (some b) n = memcpy b offset value 0 (length value) >>= λ b'.
    some (record { prepare_buf = some b'; prepare_len = n + length value })

unfoldable pub store_if_ok : ℕ → List ℕ → Status × PrepareEnv → Option (Status × PrepareEnv)
unfolding store_chunk
store_if_ok offset value (gatt_ok, p) =
    store_chunk offset value p.prepare_buf p.prepare_len >>= λ p'. some (gatt_ok, p')
store_if_ok offset value (status, p) = some (status, p)

-- `prepare_write_event_env`: the status that the response carries, and the buffer. It is `none`
-- for a write outside of the buffer.
unfoldable pub prepare_write :
    Option (List ℕ) → ℕ → List ℕ → PrepareEnv → Option (Status × PrepareEnv)
unfolding check_chunk store_if_ok
prepare_write heap offset value p =
    store_if_ok offset value (check_chunk heap offset (length value) p.prepare_buf p.prepare_len)

-- `Read_Eeprom_Request_Index |= 0x800;` and so on, to 0x8000.
unfoldable pub request_writes : ℕ → ℕ
request_writes index = set_bit 15 (set_bit 14 (set_bit 13 (set_bit 12 (set_bit 11 index))))

abbrev pub closed : PrepareEnv
closed = record { prepare_buf = none; prepare_len = 0 }

unfoldable pub exec_copy : Bool → Option (List ℕ) → List ℕ → ℕ → Option (List ℕ × ℕ × PrepareEnv)
unfolding sizeof_eeprom
exec_copy true (some b) image index =
    memcpy image 0 b 0 sizeof_eeprom >>= λ e. some (e, request_writes index, closed)
exec_copy _ _ image index = some (image, index, closed)

-- `exec_write_event_env`, with the flag that tells execution from cancellation: the image, the
-- index of requests, and the buffer. All of the image is copied, whatever was written.
unfoldable pub exec_write : Bool → PrepareEnv → List ℕ → ℕ → Option (List ℕ × ℕ × PrepareEnv)
unfolding exec_copy
exec_write flag p image index = exec_copy flag p.prepare_buf image index
