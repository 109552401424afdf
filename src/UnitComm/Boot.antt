-- ===== src/UnitComm/Boot.antt =====
-- The boot loader states of `Connect_To_Unit` in src/unit_comm.c: the stored firmware goes to the
-- unit in blocks of 16 bytes, each byte as two characters. /spiffs/firmware.bin is the list of its
-- bytes.
use aelebdwif01_dongle.Prelude.{
  ℕ, zero, suc, ◌+◌, ◌-◌, ◌*◌, ◌/◌, ◌%◌, ◌^◌, List, [], ◌∷◌, ◌++◌, true, false, Option, none, some,
  get_or, take, drop, slice, replicate, length, ltb, ◌==◌, if◌then◌else◌,
}
use aelebdwif01_dongle.Serial.Receive.{read_message}
use aelebdwif01_dongle.UnitComm.{
  Comm, Env, Transfer, bootloader_state1, bootloader_state_end, uart_write, gpio_ready, emit,
}

-- `((value >> 4 * k) & 0xF) + 48`
abbrev pub digit : ℕ → ℕ → ℕ
digit k value = value / 16 ^ k % 16 + 48

-- The six digits of the file's size and the eight of its first word.
abbrev pub size_digits : ℕ → List ℕ
size_digits n = digit 5 n ∷ digit 4 n ∷ digit 3 n ∷ digit 2 n ∷ digit 1 n ∷ digit 0 n ∷ []

abbrev pub word_digits : ℕ → List ℕ
word_digits n =
    digit 7 n
    ∷ digit 6 n
    ∷ digit 5 n
    ∷ digit 4 n
    ∷ digit 3 n
    ∷ digit 2 n
    ∷ digit 1 n
    ∷ digit 0 n
    ∷ []

-- `fread(&File_Start, 1, 4, f)`, little endian.
abbrev pub first_word : List ℕ → ℕ
first_word file =
    get_or file 0 0 + get_or file 1 0 * 2 ^ 8 + get_or file 2 0 * 2 ^ 16 + get_or file 3 0 * 2 ^ 24

-- The two characters of a byte.
abbrev pub byte_digits : ℕ → List ℕ
byte_digits b = digit 1 b ∷ digit 0 b ∷ []

-- The loop over the words of `Temp_Buffer`: a word's four bytes go in reverse.
unfoldable pub encode_words : ℕ → List ℕ → List ℕ
encode_words zero bytes = []
encode_words (suc n) bytes =
    byte_digits (get_or bytes 3 0)
    ++ (byte_digits (get_or bytes 2 0)
        ++ (byte_digits (get_or bytes 1 0)
            ++ (byte_digits (get_or bytes 0 0) ++ encode_words n (drop 4 bytes))))

-- `Send_Buffer` after the loop, cut off at the length that is sent: the rest of it is zeros.
unfoldable pub send_buffer : ℕ → List ℕ → ℕ → List ℕ
unfolding encode_words
send_buffer words temp n = take n (encode_words words temp ++ replicate 100 0)

zero_header : List ℕ
zero_header = replicate 14 48

-- `Bootloader_State` with the file open and sized.
unfoldable pub announce : List ℕ → Comm → Comm
announce file s =
    let b = record s.boot {
      handle = some 0;
      filesize = length file;
      file_start = first_word file;
    } in
    emit (uart_write (size_digits (length file) ++ word_digits (first_word file)))
      (record s { boot = b; current_state = bootloader_state1 })

-- The branches that find no file, or cannot size it.
unfoldable pub refuse : Option (List ℕ) → Comm → Comm
unfolding zero_header
refuse file s = emit (uart_write zero_header) (record s {
  boot = record s.boot { file = file; handle = none; filesize = 0 };
  current_state = bootloader_state_end;
})

unfoldable pub open_firmware : Env → Option (List ℕ) → Comm → Comm
unfolding announce refuse
open_firmware env none s = refuse none s
open_firmware env (some file) s = if env.fseek_works then announce file s else refuse (some file) s

-- `case Bootloader_State`
unfoldable pub bootloader_start : Env → Comm → Comm
unfolding open_firmware
bootloader_start env s =
    if s.unit_update_task_flag
    then s
    else open_firmware env s.boot.file (record s { bootloader_state_flag = true })

-- `fread(Temp_Buffer, 1, n, f)` at the position reached.
abbrev pub next_bytes : Transfer → ℕ → List ℕ
next_bytes b n = elim b.file [
  | none ↦ []
  | some file ↦ elim b.handle [ none ↦ [] | some p ↦ slice file p n ]
]

abbrev pub advance : Option ℕ → ℕ → Option ℕ
advance none n = none
advance (some p) n = some (p + n)

-- One acknowledged block: 16 bytes while more than 16 are left, then the rest. The difference is
-- never negative: a block is counted only if more than its bytes were left.
unfoldable pub send_block : Comm → Comm
unfolding send_buffer
send_block s =
    let b = s.boot in
    let left = b.filesize - b.bytes_transfered in
    if ltb 16 left
    then emit (uart_write (send_buffer 4 (next_bytes b 16) 32)) (record s {
      boot = record b { handle = advance b.handle 16; bytes_transfered = b.bytes_transfered + 16 };
    })
    else if left == 0
    then s
    else emit (gpio_ready false) (
        emit (uart_write (send_buffer (left / 4) (next_bytes b left) (left * 2)))
          (record s { boot = record b { handle = none }; current_state = bootloader_state_end }))

-- `case Bootloader_State1`
unfoldable pub bootloader_transfer : Comm → Comm
unfolding send_block
bootloader_transfer s =
    let (_, ser) = read_message s.serial in
    if ser.ack_received
    then send_block (record s { serial = record ser { ack_received = false } })
    else record s { serial = ser }
