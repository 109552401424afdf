-- ===== src/Serial/Requests.antt =====
-- The `Com_SendRequest_*` functions of src/WBM_Serial.c. Each builds its message in an array on the
-- stack that nothing initialises: its contents are the argument `tx_buffer`. The result is what
-- goes to `Uart_Write`, or `none` for an access out of bounds.
use aelebdwif01_dongle.Prelude.{
  ℕ, suc, ◌+◌, List, [], ◌∷◌, Option, some, slice, memcpy, set, leb, ◌>>=◌, if◌then◌else◌,
}
use aelebdwif01_dongle.Eeprom.{
  Section, info, configuration, setting_par, set_temp, day_prog, hw_setting, start_address, count,
  sizeof_eeprom,
}
use aelebdwif01_dongle.Serial.{
  command_data_debug, command_polling_base, command_read_eeprom, command_write_eeprom,
  ihm1_pos_crc_lo, ihm1_type_comand, ihm1_start_data,
}
use aelebdwif01_dongle.Serial.Send.{write_message}

-- `Serial_Number`, `Serial_Number_Size` and `error` of src/main.c.
pub record Board : Type 0 where
  pub serial_number : List ℕ
  pub serial_number_size : ℕ
  pub error : ℕ

-- `IRQR_CRC_LO` and `IRQD_CRC_LO`
abbrev pub irqr_crc_lo : ℕ
irqr_crc_lo = ihm1_start_data + 2

abbrev pub irqd_crc_lo : ℕ
irqd_crc_lo = ihm1_start_data + 2

abbrev pub irqr_addr_byte_start_eep : ℕ
irqr_addr_byte_start_eep = ihm1_start_data

abbrev pub irqr_addr_num_byte_eep : ℕ
irqr_addr_num_byte_eep = ihm1_start_data + 1

abbrev pub irqw_start_data_eeprom : ℕ
irqw_start_data_eeprom = ihm1_start_data + 2

-- `txBuffer[i] = *Pointer; Pointer++;` from index i on.
unfoldable pub copy_serial : List ℕ → ℕ → List ℕ → List ℕ
copy_serial tx i [] = tx
copy_serial tx i (b ∷ bs) = copy_serial (set tx i b) (suc i) bs

unfoldable pub send_request_polling_base : Board → List ℕ → Option (List ℕ)
unfolding copy_serial write_message
send_request_polling_base b tx_buffer =
    let t1 = set tx_buffer ihm1_pos_crc_lo (b.serial_number_size + ihm1_start_data + 1) in
    let t2 = set t1 ihm1_type_comand command_polling_base in
    let t3 = set t2 ihm1_start_data b.error in
    let t4 = copy_serial t3 (ihm1_start_data + 1) (slice b.serial_number 0 b.serial_number_size) in
    write_message t4

unfoldable pub send_request_read_eeprom : List ℕ → ℕ → ℕ → Option (List ℕ)
unfolding write_message
send_request_read_eeprom tx_buffer address num =
    let t1 = set tx_buffer ihm1_pos_crc_lo irqr_crc_lo in
    let t2 = set t1 ihm1_type_comand command_read_eeprom in
    let t3 = set t2 irqr_addr_byte_start_eep address in
    write_message (set t3 irqr_addr_num_byte_eep num)

unfoldable pub send_request_read_eeprom1 : List ℕ → Section → Option (List ℕ)
unfolding send_request_read_eeprom
send_request_read_eeprom1 tx_buffer s =
    send_request_read_eeprom tx_buffer (start_address s) (count s)

unfoldable pub send_request_data_debug : List ℕ → Option (List ℕ)
unfolding write_message
send_request_data_debug tx_buffer =
    write_message
      (set (set tx_buffer ihm1_pos_crc_lo irqd_crc_lo) ihm1_type_comand command_data_debug)

-- `some []` where the range lies outside of the image: nothing is sent.
unfoldable pub send_request_write_eeprom : List ℕ → List ℕ → ℕ → ℕ → Option (List ℕ)
unfolding memcpy write_message
send_request_write_eeprom eeprom tx_buffer address num =
    if leb (address + num) sizeof_eeprom
    then (let t1 = set tx_buffer ihm1_pos_crc_lo (irqr_crc_lo + num) in
        let t2 = set t1 ihm1_type_comand command_write_eeprom in
        let t3 = set t2 irqr_addr_byte_start_eep address in
        let t4 = set t3 irqr_addr_num_byte_eep num in
        memcpy t4 irqw_start_data_eeprom eeprom address num >>= λ t5. write_message t5)
    else some []

-- There is no case for the configuration: it is refused, and nothing is sent.
unfoldable pub send_request_write_eeprom1 : List ℕ → List ℕ → Section → Option (List ℕ)
unfolding send_request_write_eeprom
send_request_write_eeprom1 eeprom tx_buffer configuration = some []
send_request_write_eeprom1 eeprom tx_buffer info =
    send_request_write_eeprom eeprom tx_buffer (start_address info) (count info)
send_request_write_eeprom1 eeprom tx_buffer setting_par =
    send_request_write_eeprom eeprom tx_buffer (start_address setting_par) (count setting_par)
send_request_write_eeprom1 eeprom tx_buffer set_temp =
    send_request_write_eeprom eeprom tx_buffer (start_address set_temp) (count set_temp)
send_request_write_eeprom1 eeprom tx_buffer day_prog =
    send_request_write_eeprom eeprom tx_buffer (start_address day_prog) (count day_prog)
send_request_write_eeprom1 eeprom tx_buffer hw_setting =
    send_request_write_eeprom eeprom tx_buffer (start_address hw_setting) (count hw_setting)
