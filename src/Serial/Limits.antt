-- ===== src/Serial/Limits.antt =====
-- What the receiver does with data that is not one whole message: banners and ACKs, overlong data,
-- and data that comes in pieces.
use aelebdwif01_dongle.Prelude.{
  ℕ, ◌≤◌, ◌<◌, ◌≡◌, ◌⊎◌, refl, List, true, some, pos, arith, length, zeros, blit, slice,
  memcpy_inside, le→ltb, strstr, length-zeros, ◌>>=◌,
}
use aelebdwif01_dongle.Uart.{Uart, rx_data, copy_len, uart_event, rx_claim}
use aelebdwif01_dongle.Serial.{Serial, run_download, error_head_message}
use aelebdwif01_dongle.Serial.Receive.{
  serial_available, download, check_message, classify, download_message, fetch_message,
  read_message,
}
use aelebdwif01_dongle.Serial.Transfer.{
  receive, receive_lem, on_uart, arrived, padded, uart_event_data,
}

accepted :
    (s : Serial) (w : List ℕ)
    → (strstr (padded w) "Bootloader" ≡ true) ⊎ (strstr (padded w) "ACK" ≡ true)
    → (classify (arrived s w) (length w)).0 ≡ pos (length w)
unfolding classify
accepted s w h = ground arith

-- With no download pending, data of 1 to 127 bytes with "ACK" in it before the first NUL is accepted as a message of its length, whatever its
-- header, its length byte and its checksum are; so is data with "Bootloader" in it.
receive-unchecked :
    (s : Serial) (w : List ℕ)
    → s.rx_buf_tail ≡ 0
    → 0 < length w
    → length w ≤ 127
    → (strstr (padded w) "Bootloader" ≡ true) ⊎ (strstr (padded w) "ACK" ≡ true)
    → (s' : Serial) × (receive s w ≡ some (run_download, pos (length w), s'))
receive-unchecked s w t p le h =
    ((classify (arrived s w) (length w)).1, rw (receive_lem s w t p le, accepted s w h))

-- Data of at most 127 bytes that arrives before the last, of at most 127 bytes, was claimed replaces
-- it: of a message in two data events the
-- receiver sees the second part alone, exactly as if nothing had come before.
data_replaced :
    (s : Serial) (first second : List ℕ)
    → length first ≤ 127
    → length second ≤ 127
    → (on_uart s (rx_data first) >>= λ s'. on_uart s' (rx_data second)) ≡ on_uart s (rx_data second)
unfolding on_uart
data_replaced s first second h k = rw (
  uart_event_data s.uart first h,
  uart_event_data s.uart second k,
  uart_event_data (record { rx_available = length first; rx_cache = padded first }) second k,
)

-- The cache filled with the start of overlong data.
abbrev full_cache : List ℕ → List ℕ
full_cache w = blit (zeros 128) 0 (slice w 0 128)

uart_event_overlong :
    (u : Uart) (w : List ℕ)
    → 128 ≤ length w
    → length w ≤ 1024
    → uart_event u (rx_data w) ≡ some (record { rx_available = 128; rx_cache = full_cache w })
unfolding uart_event
uart_event_overlong u w lo hi =
    let c : copy_len w ≡ 128 = ground arith in
    rw (
      le→ltb hi,
      c,
      memcpy_inside (zeros 128) 0 w 0 128 (omega (arith, length-zeros 128)) (omega arith),
    )

-- The receiver between the polls and after them.
abbrev full : Serial → List ℕ → Serial
full s cache = record s {
  uart = record { rx_available = 0; rx_cache = cache };
  rx_ptr = some 0;
  rx_buf_tail = 128;
}

abbrev emptied : Serial → List ℕ → Serial
emptied s cache = record s {
  uart = record { rx_available = 0; rx_cache = cache };
  rx_ptr = some 0;
  rx_buf_tail = 0;
  buff_ser1 = zeros 128;
  numbytes_received = 0;
}

read_full :
    (s : Serial) (cache : List ℕ)
    → s.rx_buf_tail ≡ 0
    → read_message (record s { uart = record { rx_available = 128; rx_cache = cache } })
      ≡ (run_download, full s cache)
unfolding read_message serial_available rx_claim
read_full s cache t = ground arith

classify-zeros : (s : Serial) → s.buff_ser1 ≡ zeros 128 → classify s 0 ≡ (error_head_message, s)
unfolding classify check_message strstr zeros
classify-zeros s e = rw (e, classify)

fetch_full :
    (s : Serial) (cache : List ℕ)
    → fetch_message (full s cache) ≡ (error_head_message, emptied s cache)
unfolding fetch_message download_message download
fetch_full s cache = classify-zeros (emptied s cache) refl

read_again :
    (s : Serial) (cache : List ℕ)
    → read_message (full s cache) ≡ (error_head_message, emptied s cache)
unfolding read_message serial_available rx_claim
read_again s cache = fetch_full s cache

-- With no download pending, data of 128 to 1024 bytes fills the cache, and its length is then taken modulo 128: nothing is
-- downloaded, and the second poll reports a wrong head.
pub receive-overlong :
    (s : Serial) (w : List ℕ)
    → s.rx_buf_tail ≡ 0
    → 128 ≤ length w
    → length w ≤ 1024
    → (s' : Serial) × (receive s w ≡ some (run_download, error_head_message, s'))
      × (s'.numbytes_received ≡ 0)
unfolding receive on_uart
receive-overlong s w t lo hi = (
  emptied s (full_cache w),
  rw (
    uart_event_overlong s.uart w lo hi,
    read_full s (full_cache w) t,
    read_again s (full_cache w),
  ),
  refl,
)
