-- ===== src/Serial/Tests.antt =====
-- The serial protocol at examples.
use aelebdwif01_dongle.Prelude.{
  ℕ, ◌≡◌, refl, List, [], ◌∷◌, true, false, none, some, ℤ, pos, arith, get_or, zeros, slice, strstr,
  length, codes, replicate, length-zeros, length-replicate,
}
use aelebdwif01_dongle.Eeprom.{set_temp, sizeof_eeprom}
use aelebdwif01_dongle.Eeprom.Sections.{sizeof_eeprom_lem}
use aelebdwif01_dongle.Serial.{Serial, run_download, error_head_message}
use aelebdwif01_dongle.Serial.Checksum.{calc_cksum_16}
use aelebdwif01_dongle.Serial.Receive.{is_error}
use aelebdwif01_dongle.Serial.Send.{frame}
use aelebdwif01_dongle.Serial.Requests.{Board, send_request_write_eeprom1}
use aelebdwif01_dongle.Serial.Messages.{write_section-frame, write_section_message}
use aelebdwif01_dongle.Serial.Transfer.{receive, padded}
use aelebdwif01_dongle.Serial.Integrity.{receive-frame}
use aelebdwif01_dongle.Serial.Corruption.{changed, receive-changed}
use aelebdwif01_dongle.Serial.Limits.{receive-overlong}

abbrev idle : Serial
idle = record {
  uart = record { rx_available = 0; rx_cache = zeros 128 };
  rx_ptr = none;
  rx_buf_tail = 0;
  buff_ser1 = zeros 128;
  numbytes_received = 0;
  bootloader_mode = false;
  ack_received = false;
}

abbrev stack : List ℕ
stack = replicate 128 165

-- The request for four bytes from address 59.
read_request_bytes : frame 82 (59 ∷ 4 ∷ []) ≡ (115 ∷ 109 ∷ 6 ∷ 82 ∷ 59 ∷ 4 ∷ 136 ∷ 254 ∷ [])
unfolding calc_cksum_16
read_request_bytes = refl

receive-frame_example :
    (s' : Serial) × (receive idle (frame 82 (59 ∷ 4 ∷ [])) ≡ some (run_download, pos 8, s'))
    × (slice s'.buff_ser1 0 8 ≡ frame 82 (59 ∷ 4 ∷ []))
receive-frame_example = receive-frame idle 82 (59 ∷ 4 ∷ []) refl (omega arith)

byte_of_frame : get_or (frame 82 (59 ∷ 4 ∷ [])) 5 0 ≡ 4
byte_of_frame = refl

no_banner : strstr (padded (changed 82 (59 ∷ 4 ∷ []) 5 7)) "Bootloader" ≡ false
unfolding padded strstr zeros calc_cksum_16
no_banner = refl

no_ack : strstr (padded (changed 82 (59 ∷ 4 ∷ []) 5 7)) "ACK" ≡ false
unfolding padded strstr zeros calc_cksum_16
no_ack = refl

receive-changed_example :
    (r : ℤ) × (s' : Serial) × (receive idle (changed 82 (59 ∷ 4 ∷ []) 5 7)
      ≡ some (run_download, r, s'))
    × (is_error r ≡ true)
receive-changed_example =
    receive-changed idle 82 (59 ∷ 4 ∷ []) 5 7 refl (omega arith) (omega arith) (omega arith)
      (omega arith) (omega (arith, byte_of_frame)) no_banner no_ack

has_ack : strstr (padded (codes "ACK")) "ACK" ≡ true
unfolding padded strstr zeros
has_ack = refl

receive-overlong_example :
    (s' : Serial) × (receive idle (zeros 130) ≡ some (run_download, error_head_message, s'))
    × (s'.numbytes_received ≡ 0)
receive-overlong_example =
    receive-overlong idle (zeros 130) refl (omega (arith, length-zeros 130))
      (omega (arith, length-zeros 130))

length-stack : length stack ≡ 128
length-stack = length-replicate {A = ℕ} 128 165

abbrev board : Board
board = record { serial_number = codes "A1B2"; serial_number_size = 4; error = 0 }

length-image : length (zeros 241) ≡ sizeof_eeprom
length-image = rw sizeof_eeprom_lem (length-zeros 241)

write_section-frame_example :
    send_request_write_eeprom1 (zeros 241) stack set_temp
    ≡ some (write_section_message (zeros 241) set_temp)
write_section-frame_example =
    write_section-frame (zeros 241) stack set_temp length-stack length-image
