-- ===== src/Serial/Transfer.antt =====
-- A message on its way through the receive cache: a data event, and the polls of `Read_Message`.
use aelebdwif01_dongle.Prelude.{
  ℕ, zero, suc, ◌+◌, ◌≤◌, ◌<◌, ◌≡◌, refl, ◌∙◌, List, Option, some, ℤ, arith, length, get_or, set,
  zeros, blit, slice, ◌>>=◌, blit-set, blit-nil, slice_step, memcpy, take_all, length-blit,
  slice-blit, length-zeros,
}
use aelebdwif01_dongle.Uart.{Uart, UartEvent, rx_data, uart_event, rx_claim}
use aelebdwif01_dongle.Serial.{Serial, run_download, rx_buffer_size}
use aelebdwif01_dongle.Serial.Receive.{
  serial_available, serial_read, download, classify, download_message, fetch_message, read_message,
}

-- The download reads the n bytes at the pointer, and moves the pointer past them.
pub download_lem :
    (n i p : ℕ) (s : Serial)
    → s.rx_ptr ≡ some p
    → p + n ≤ length s.uart.rx_cache
    → download n i s ≡ record s {
      rx_ptr = some (p + n);
      buff_ser1 = blit s.buff_ser1 i (slice s.uart.rx_cache p n);
    }
unfolding download serial_read
download_lem zero i p s e h = ground (arith, blit-nil s.buff_ser1 i)
download_lem (suc n) i p s e h = ground (
  arith,
  slice_step s.uart.rx_cache p n (omega arith),
  blit-set s.buff_ser1 i (get_or s.uart.rx_cache p 0) (slice s.uart.rx_cache (suc p) n),
  download_lem n (suc i) (suc p)
      (record s {
        rx_ptr = some (suc p);
        buff_ser1 = set s.buff_ser1 i (get_or s.uart.rx_cache p 0);
      })
      refl (omega arith),
)

-- A round of the driver's task, seen from the receiver.
unfoldable pub on_uart : Serial → UartEvent → Option Serial
on_uart s e = uart_event s.uart e >>= λ u. some (record s { uart = u })

-- A data event, and two polls behind it with no event between them.
unfoldable pub receive : Serial → List ℕ → Option (ℤ × ℤ × Serial)
receive s w = on_uart s (rx_data w) >>= λ s1.
    let (first, s2) = read_message s1 in
    let (second, s3) = read_message s2 in some (first, second, s3)

-- The bytes at the start of a cleared buffer.
unfoldable pub padded : List ℕ → List ℕ
padded w = blit (zeros rx_buffer_size) 0 w

-- The receiver with the message w downloaded.
abbrev pub arrived : Serial → List ℕ → Serial
arrived s w = record s {
  uart = record { rx_available = 0; rx_cache = padded w };
  rx_ptr = some (length w);
  rx_buf_tail = 0;
  buff_ser1 = padded w;
  numbytes_received = length w;
}

pub length-padded : (w : List ℕ) → length (padded w) ≡ 128
unfolding padded
length-padded w = length-blit (zeros 128) 0 w ∙ length-zeros 128

pub padded_lem : (w : List ℕ) → padded w ≡ blit (zeros rx_buffer_size) 0 w
unfolding padded
padded_lem w = refl

pub slice-padded : (w : List ℕ) → length w ≤ 127 → slice (padded w) 0 (length w) ≡ w
unfolding padded
slice-padded w h = slice-blit (zeros 128) 0 w (omega (arith, length-zeros 128))

pub uart_event_data :
    (u : Uart) (w : List ℕ)
    → length w ≤ 127
    → uart_event u (rx_data w) ≡ some (record { rx_available = length w; rx_cache = padded w })
unfolding uart_event memcpy padded
uart_event_data u w h = ground (arith, take_all (length w) w (omega arith), length-zeros 128)

-- The state between the two polls.
abbrev noted : Serial → List ℕ → Serial
noted s w = record s {
  uart = record { rx_available = 0; rx_cache = padded w };
  rx_ptr = some 0;
  rx_buf_tail = length w;
}

read_first :
    (s : Serial) (w : List ℕ)
    → s.rx_buf_tail ≡ 0
    → 0 < length w
    → length w ≤ 127
    → read_message (record s { uart = record { rx_available = length w; rx_cache = padded w } })
      ≡ (run_download, noted s w)
unfolding read_message serial_available rx_claim
read_first s w t p h = ground arith

download_noted :
    (s : Serial) (w : List ℕ) → length w ≤ 127 → download_message (noted s w) ≡ arrived s w
unfolding download_message
download_noted s w h = ground (
  arith,
  slice-padded w h,
  padded_lem w,
  download_lem (length w) 0 0
      (record (noted s w) { rx_buf_tail = 0; buff_ser1 = zeros rx_buffer_size }) refl
      (omega (arith, length-padded w)),
)

read_second :
    (s : Serial) (w : List ℕ)
    → 0 < length w
    → length w ≤ 127
    → read_message (noted s w) ≡ classify (arrived s w) (length w)
unfolding read_message serial_available rx_claim fetch_message
read_second s w p h = ground (arith, download_noted s w h)

-- What a data event brings is downloaded whole by the second poll, whatever the cache and the
-- buffer held before, and is classified there.
pub receive_lem :
    (s : Serial) (w : List ℕ)
    → s.rx_buf_tail ≡ 0
    → 0 < length w
    → length w ≤ 127
    → receive s w ≡ (let (r, s') = classify (arrived s w) (length w) in some (run_download, r, s'))
unfolding receive on_uart
receive_lem s w t p h = rw (uart_event_data s.uart w h, read_first s w t p h, read_second s w p h)
