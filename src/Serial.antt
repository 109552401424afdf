-- ===== src/Serial.antt =====
-- The serial protocol of src/WBM_Serial.c and include/protocol_serial.h: its constants, the state
-- of the receiver, and the children that send and receive messages.
pub mod Checksum
pub mod Receive
pub mod Send
pub mod Requests
pub mod Messages
pub mod Transfer
pub mod Integrity
pub mod Corruption
pub mod Limits
mod Tests
use aelebdwif01_dongle.Prelude.{ℕ, ◌+◌, List, Bool, Option, ℤ, pos, negsuc}
use aelebdwif01_dongle.Uart.{Uart}

-- The results of `Read_Message` that are no message.
abbrev pub run_download : ℤ
run_download = pos 1

abbrev pub buffer_rx_empty : ℤ
buffer_rx_empty = pos 0

abbrev pub error_head_message : ℤ
error_head_message = negsuc 0

abbrev pub error_len_message : ℤ
error_len_message = negsuc 1

abbrev pub error_cksum_16 : ℤ
error_cksum_16 = negsuc 2

abbrev pub proto_start_msg_0 : ℕ
proto_start_msg_0 = b's'

abbrev pub proto_start_msg_1 : ℕ
proto_start_msg_1 = b'm'

abbrev pub command_data_debug : ℕ
command_data_debug = b'D'

abbrev pub command_polling_base : ℕ
command_polling_base = b'P'

abbrev pub command_read_eeprom : ℕ
command_read_eeprom = b'R'

abbrev pub command_write_eeprom : ℕ
command_write_eeprom = b'W'

-- `index_Head_Message_Ser1`
abbrev pub ihm1_start_msg_0 : ℕ
ihm1_start_msg_0 = 0

abbrev pub ihm1_start_msg_1 : ℕ
ihm1_start_msg_1 = 1

abbrev pub ihm1_pos_crc_lo : ℕ
ihm1_pos_crc_lo = 2

abbrev pub ihm1_type_comand : ℕ
ihm1_type_comand = 3

abbrev pub ihm1_start_data : ℕ
ihm1_start_data = 4

-- `MAX_SERIAL_BUFFER_LENGHT` and `RX_BUFFER_SIZE`
abbrev pub rx_buffer_size : ℕ
rx_buffer_size = 128

-- The globals of the receiver. `rx_ptr` is `s_rx_ptr`: an offset into the receive cache, or NULL.
pub record Serial : Type 0 where
  pub uart : Uart
  pub rx_ptr : Option ℕ
  pub rx_buf_tail : ℕ
  pub buff_ser1 : List ℕ
  pub numbytes_received : ℕ
  pub bootloader_mode : Bool
  pub ack_received : Bool
