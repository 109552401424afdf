-- ===== src/Serial/Messages.antt =====
-- What the requests put on the wire: `frame`, the layout that the protocol's tables give, and
-- which of its bytes come from the uninitialised buffer.
use aelebdwif01_dongle.Prelude.{
  ℕ, suc, ◌+◌, ◌-◌, ◌%◌, ◌≤◌, ◌≡◌, refl, sym, ap, ◌∙◌, List, [], ◌∷◌, ◌++◌, some, arith, length,
  set, take, drop, blit, slice, length-append, length-drop, length-slice, length-set, get_or,
  blit-set, blit-nil, blit_start,
}
use aelebdwif01_dongle.Eeprom.{Section, configuration, start_address, count, sizeof_eeprom}
use aelebdwif01_dongle.Eeprom.Sections.{section_fits}
use aelebdwif01_dongle.Serial.{
  command_data_debug, command_polling_base, command_read_eeprom, command_write_eeprom,
}
use aelebdwif01_dongle.Serial.Checksum.{calc_cksum_16, calc_cksum_16-append}
use aelebdwif01_dongle.Serial.Send.{write_message, body, frame, low_byte, high_byte}
use aelebdwif01_dongle.Serial.Requests.{
  Board, copy_serial, send_request_polling_base, send_request_read_eeprom, send_request_data_debug,
  send_request_write_eeprom, send_request_write_eeprom1,
}

-- Two bytes stored behind the first bytes of a buffer, and the buffer cut off behind them.
store_behind :
    (xs : List ℕ) (a b : ℕ) (rest : List ℕ) (lo hi : ℕ)
    → take
        (suc (suc (length xs)))
        (set (set (xs ++ (a ∷ b ∷ rest)) (length xs) lo) (suc (length xs)) hi)
      ≡ xs ++ (lo ∷ hi ∷ [])
store_behind [] a b rest lo hi = refl
store_behind (x ∷ xs) a b rest lo hi = ap (λ t. x ∷ t) (store_behind xs a b rest lo hi)

store_at :
    (xs : List ℕ) (a b : ℕ) (rest : List ℕ) (lo hi i j len : ℕ)
    → i ≡ length xs
    → j ≡ suc (length xs)
    → len ≡ suc (suc (length xs))
    → take len (set (set (xs ++ (a ∷ b ∷ rest)) i lo) j hi) ≡ xs ++ (lo ∷ hi ∷ [])
store_at xs a b rest lo hi i j len p q r = rw (p, q, r) (store_behind xs a b rest lo hi)

-- `Write_Message` completes a buffer that holds the command and the payload to the message.
write_message_lem :
    (comand : ℕ) (payload : List ℕ) (g0 g1 a b : ℕ) (rest : List ℕ)
    → length payload ≤ 121
    → write_message (g0 ∷ g1 ∷ (4 + length payload) ∷ comand ∷ payload ++ (a ∷ b ∷ rest))
      ≡ some (frame comand payload)
unfolding write_message
write_message_lem comand payload g0 g1 a b rest h = ground (
  arith,
  length-append payload (a ∷ b ∷ rest),
  calc_cksum_16-append (body comand payload) (a ∷ b ∷ rest) (4 + length payload) (omega arith),
  store_at (body comand payload) a b rest
      (low_byte (calc_cksum_16 (body comand payload) (4 + length payload)))
      (high_byte (calc_cksum_16 (body comand payload) (4 + length payload))) (4 + length payload)
      (4 + length payload + 1) ((4 + length payload + 2) % 128) (omega arith) (omega arith)
      (omega arith),
)

-- The same over any buffer into which the length, the command and the payload were copied.
write_blit :
    (g : List ℕ) (comand : ℕ) (payload : List ℕ)
    → length g ≡ 128
    → length payload ≤ 121
    → write_message (blit g 2 ((4 + length payload) ∷ comand ∷ payload))
      ≡ some (frame comand payload)
write_blit [] comand payload hg h = absurd (omega arith)
write_blit (g0 ∷ []) comand payload hg h = absurd (omega arith)
write_blit (g0 ∷ g1 ∷ r) comand payload hg h =
    let src : List ℕ = (4 + length payload) ∷ comand ∷ payload in
    rw (blit_start r src (omega arith))
      (go (drop (length src) r) (omega (arith, length-drop (length src) r)))
  where
    go :
        (t : List ℕ)
        → length t ≡ length r - length ((4 + length payload) ∷ comand ∷ payload)
        → write_message (g0 ∷ g1 ∷ (4 + length payload) ∷ comand ∷ payload ++ t)
          ≡ some (frame comand payload)
    go [] e = absurd (omega arith)
    go (a ∷ []) e = absurd (omega arith)
    go (a ∷ b ∷ rest) e = write_message_lem comand payload g0 g1 a b rest h

copy_serial-eq-blit : (tx : List ℕ) (i : ℕ) (bs : List ℕ) → copy_serial tx i bs ≡ blit tx i bs
unfolding copy_serial
copy_serial-eq-blit tx i [] = sym (blit-nil tx i)
copy_serial-eq-blit tx i (b ∷ bs) = copy_serial-eq-blit (set tx i b) (suc i) bs ∙ blit-set tx i b bs

-- One more byte set behind a copied run: the shape of the assignments `txBuffer[i] = b`.
set_as_blit : (g : List ℕ) (i b : ℕ) → set g i b ≡ blit g i (b ∷ [])
set_as_blit g i b = sym (blit-nil (set g i b) (suc i)) ∙ blit-set g i b []

-- A read request is the message 'R' with the address and the number of bytes, whatever the stack
-- held.
pub read_request-frame :
    (g : List ℕ) (address num : ℕ)
    → length g ≡ 128
    → send_request_read_eeprom g address num ≡ some (frame command_read_eeprom (address ∷ num ∷ []))
unfolding send_request_read_eeprom
read_request-frame g address num hg = rw (
  ← write_blit g command_read_eeprom (address ∷ num ∷ []) hg (omega arith),
  ← blit-set g 2 6 (command_read_eeprom ∷ address ∷ num ∷ []),
  ← blit-set (set g 2 6) 3 command_read_eeprom (address ∷ num ∷ []),
  ← blit-set (set (set g 2 6) 3 command_read_eeprom) 4 address (num ∷ []),
  ← set_as_blit (set (set (set g 2 6) 3 command_read_eeprom) 4 address) 5 num,
)

-- The polling request is the message 'P' with the error byte and the board's serial number.
polling_request-frame :
    (b : Board) (g : List ℕ)
    → length g ≡ 128
    → b.serial_number_size ≤ length b.serial_number
    → b.serial_number_size ≤ 120
    → send_request_polling_base b g
      ≡ some (frame command_polling_base (b.error ∷ slice b.serial_number 0 b.serial_number_size))
unfolding send_request_polling_base
polling_request-frame b g hg hs hm =
    let sn : List ℕ = slice b.serial_number 0 b.serial_number_size in
    let n : length sn ≡ b.serial_number_size =
      length-slice b.serial_number 0 b.serial_number_size (omega arith) in
    let k : b.serial_number_size + 4 + 1 ≡ 4 + length (b.error ∷ sn) = omega (arith, n) in
    rw (
      k,
      ← write_blit g command_polling_base (b.error ∷ sn) hg (omega (arith, n)),
      copy_serial-eq-blit,
      ← blit-set g 2 (4 + length (b.error ∷ sn)) (command_polling_base ∷ b.error ∷ sn),
      ← blit-set (set g 2 (4 + length (b.error ∷ sn))) 3 command_polling_base (b.error ∷ sn),
      ← blit-set (set (set g 2 (4 + length (b.error ∷ sn))) 3 command_polling_base) 4 b.error sn,
    )

-- A write request inside the image is the message 'W' with the address, the number of bytes and
-- those bytes of the image.
write_request-frame :
    (eeprom g : List ℕ) (address num : ℕ)
    → length g ≡ 128
    → length eeprom ≡ sizeof_eeprom
    → address + num ≤ sizeof_eeprom
    → num ≤ 119
    → send_request_write_eeprom eeprom g address num
      ≡ some (frame command_write_eeprom (address ∷ num ∷ slice eeprom address num))
unfolding send_request_write_eeprom
write_request-frame eeprom g address num hg he hr hn =
    let bytes : List ℕ = slice eeprom address num in
    let n : length bytes ≡ num = length-slice eeprom address num (omega arith) in
    let k : 6 + num ≡ 4 + length (address ∷ num ∷ bytes) = omega (arith, n) in
    let t : List ℕ = set (set (set (set g 2 (6 + num)) 3 command_write_eeprom) 4 address) 5 num in
    let same : blit t 6 bytes
        ≡ blit g 2
            ((4 + length (address ∷ num ∷ bytes)) ∷ command_write_eeprom ∷ address ∷ num ∷ bytes) =
      rw (
        ← k,
        ← blit-set g 2 (6 + num) (command_write_eeprom ∷ address ∷ num ∷ bytes),
        ← blit-set (set g 2 (6 + num)) 3 command_write_eeprom (address ∷ num ∷ bytes),
        ← blit-set (set (set g 2 (6 + num)) 3 command_write_eeprom) 4 address (num ∷ bytes),
        ← blit-set (set (set (set g 2 (6 + num)) 3 command_write_eeprom) 4 address) 5 num bytes,
      ) in
    ground (
      arith,
      same,
      length-set (set (set (set g 2 (6 + num)) 3 command_write_eeprom) 4 address) 5 num,
      length-set (set (set g 2 (6 + num)) 3 command_write_eeprom) 4 address,
      length-set (set g 2 (6 + num)) 3 command_write_eeprom,
      length-set g 2 (6 + num),
      write_blit g command_write_eeprom (address ∷ num ∷ bytes) hg (omega (arith, n)),
    )

-- The message that writes a section, with its bytes of the image; none for the configuration.
abbrev pub write_section_message : List ℕ → Section → List ℕ
write_section_message eeprom configuration = []
write_section_message eeprom s =
    frame command_write_eeprom
      (start_address s ∷ count s ∷ slice eeprom (start_address s) (count s))

-- Every section but the configuration is written whole, in one message; for the configuration
-- nothing is sent.
pub write_section-frame :
    (eeprom g : List ℕ) (s : Section)
    → length g ≡ 128
    → length eeprom ≡ sizeof_eeprom
    → send_request_write_eeprom1 eeprom g s ≡ some (write_section_message eeprom s)
unfolding send_request_write_eeprom1
write_section-frame eeprom g configuration hg he = refl
write_section-frame eeprom g s hg he =
    write_request-frame eeprom g _ _ hg he (section_fits s).0 (omega (arith, section_fits s))

-- Of the debug request only the command is determined: its two data bytes are those that the
-- uninitialised buffer held.
debug_request-frame :
    (g : List ℕ)
    → length g ≡ 128
    → send_request_data_debug g ≡ some (frame command_data_debug (get_or g 4 0 ∷ get_or g 5 0 ∷ []))
unfolding send_request_data_debug
debug_request-frame [] hg = absurd (omega arith)
debug_request-frame (g0 ∷ []) hg = absurd (omega arith)
debug_request-frame (g0 ∷ g1 ∷ []) hg = absurd (omega arith)
debug_request-frame (g0 ∷ g1 ∷ g2 ∷ []) hg = absurd (omega arith)
debug_request-frame (g0 ∷ g1 ∷ g2 ∷ g3 ∷ []) hg = absurd (omega arith)
debug_request-frame (g0 ∷ g1 ∷ g2 ∷ g3 ∷ g4 ∷ []) hg = absurd (omega arith)
debug_request-frame (g0 ∷ g1 ∷ g2 ∷ g3 ∷ g4 ∷ g5 ∷ []) hg = absurd (omega arith)
debug_request-frame (g0 ∷ g1 ∷ g2 ∷ g3 ∷ g4 ∷ g5 ∷ g6 ∷ []) hg = absurd (omega arith)
debug_request-frame (g0 ∷ g1 ∷ g2 ∷ g3 ∷ g4 ∷ g5 ∷ g6 ∷ g7 ∷ r) hg =
    write_message_lem command_data_debug (g4 ∷ g5 ∷ []) g0 g1 g6 g7 r (omega arith)
