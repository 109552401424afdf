-- ===== src/Uart.antt =====
-- The UART1 driver of src/Uart1.c: the event task that fills the receive cache, and the claim that
-- empties it. The bytes of a `UART_DATA` event are what `uart_read_bytes` of the ESP-IDF delivers.
use aelebdwif01_dongle.Prelude.{
  ℕ, List, Option, none, some, length, zeros, memcpy, ltb, ◌==◌, ◌>>=◌, if◌then◌else◌,
}

abbrev pub uart1_buf_size : ℕ
uart1_buf_size = 1024

abbrev pub uart1_rx_cache_size : ℕ
uart1_rx_cache_size = 128

-- `s_rx_available` and `s_rx_cache`
pub record Uart : Type 0 where
  pub rx_available : ℕ
  pub rx_cache : List ℕ

-- The types of `uart_event_t` that the task tells apart.
pub data UartEvent : Type 0 where
  rx_data : List ℕ → UartEvent
  fifo_ovf buffer_full rx_break parity_err frame_err pattern_det other_event : UartEvent

-- `copy_len`
abbrev pub copy_len : List ℕ → ℕ
copy_len bytes =
    if ltb uart1_rx_cache_size (length bytes) then uart1_rx_cache_size else length bytes

-- A data event replaces the cache, read or not. It is `none` for an event larger than the buffer
-- `dtmp`, which `uart_read_bytes` would overrun.
take_data : Uart → List ℕ → Option Uart
unfolding memcpy
take_data u bytes =
    if ltb uart1_buf_size (length bytes)
    then none
    else (memcpy (zeros uart1_rx_cache_size) 0 bytes 0 (copy_len bytes) >>= λ cache.
        some (record { rx_available = copy_len bytes; rx_cache = cache }))

-- One round of `uart_event_task`: the other events flush the driver's queue or are logged.
unfoldable pub uart_event : Uart → UartEvent → Option Uart
unfolding take_data
uart_event u (rx_data bytes) = take_data u bytes
uart_event u fifo_ovf = some u
uart_event u buffer_full = some u
uart_event u rx_break = some u
uart_event u parity_err = some u
uart_event u frame_err = some u
uart_event u pattern_det = some u
uart_event u other_event = some u

-- `Uart1_RxClaim`: the number of bytes claimed; the pointer handed out is the start of the cache.
unfoldable pub rx_claim : Uart → ℕ × Uart
rx_claim u = if u.rx_available == 0 then (0, u) else (u.rx_available, record u { rx_available = 0 })
