-- ===== src/Serial/Receive.antt =====
-- `Serial_available`, `Serial_read` and `Read_Message` of src/WBM_Serial.c.
use aelebdwif01_dongle.Prelude.{
  ℕ, zero, suc, ◌+◌, ◌*◌, ◌%◌, ◌^◌, List, Bool, true, false, not, ◌||◌, Option, none, some, ℤ, pos,
  get_or, set, zeros, strstr, leb, ◌==◌, if◌then◌else◌,
}
use aelebdwif01_dongle.Uart.{rx_claim}
use aelebdwif01_dongle.Serial.{
  Serial, run_download, buffer_rx_empty, error_head_message, error_len_message, error_cksum_16,
  proto_start_msg_0, proto_start_msg_1, ihm1_start_msg_0, ihm1_start_msg_1, ihm1_pos_crc_lo,
  ihm1_start_data, rx_buffer_size,
}
use aelebdwif01_dongle.Serial.Checksum.{calc_cksum_16}

-- `Serial_available`: a claim that finds bytes points `s_rx_ptr` at the cache.
unfoldable pub serial_available : Serial → ℕ × Serial
unfolding rx_claim
serial_available s =
    let (n, u) = rx_claim s.uart in
    if n == 0 then (0, record s { uart = u }) else (n, record s { uart = u; rx_ptr = some 0 })

-- The byte that `Serial_read` returns, and the pointer that it leaves.
abbrev pub read_at : List ℕ → Option ℕ → ℕ × Option ℕ
read_at cache none = (0, none)
read_at cache (some p) = (get_or cache p 0, some (suc p))

-- `Serial_read`
unfoldable pub serial_read : Serial → ℕ × Serial
serial_read s = let (b, p) = read_at s.uart.rx_cache s.rx_ptr in (b, record s { rx_ptr = p })

-- `for(i = i; i < i + n; i++) buff_ser1[i] = Serial_read();`
unfoldable pub download : ℕ → ℕ → Serial → Serial
unfolding serial_read
download zero i s = s
download (suc n) i s =
    let (b, s') = serial_read s in
    download n (suc i) (record s' { buff_ser1 = set s'.buff_ser1 i b })

-- The three checks on a message of `len` bytes in `buff_ser1`.
unfoldable pub check_message : List ℕ → ℕ → ℤ
check_message buff len =
    if not (get_or buff ihm1_start_msg_0 0 == proto_start_msg_0)
      || not (get_or buff ihm1_start_msg_1 0 == proto_start_msg_1)
    then error_head_message
    else if not (get_or buff ihm1_pos_crc_lo 0 + 2 == len) || leb len ihm1_start_data
    then error_len_message
    else let i = get_or buff ihm1_pos_crc_lo 0 in
      let cksum16 = (get_or buff (i + 1) 0 * 2 ^ 8 + get_or buff i 0) % 2 ^ 16 in
      if not (cksum16 == calc_cksum_16 buff i) then error_cksum_16 else pos len

-- What a complete message is taken for: the boot loader's banner and its ACK are not checked.
unfoldable pub classify : Serial → ℕ → ℤ × Serial
unfolding check_message strstr
classify s len =
    if strstr s.buff_ser1 "Bootloader"
    then (pos len, record s { bootloader_mode = true })
    else if strstr s.buff_ser1 "ACK"
    then (pos len, record s { ack_received = true })
    else (check_message s.buff_ser1 len, s)

-- The download of a complete message into the cleared buffer.
unfoldable pub download_message : Serial → Serial
download_message s =
    let len = s.rx_buf_tail % rx_buffer_size in
    let s' = download len 0 (record s { rx_buf_tail = 0; buff_ser1 = zeros rx_buffer_size }) in
    record s' { numbytes_received = len }

-- The second half of `Read_Message`: the download, and the checks.
unfoldable pub fetch_message : Serial → ℤ × Serial
fetch_message s = classify (download_message s) (s.rx_buf_tail % rx_buffer_size)

-- `Read_Message`: while the number of bytes changes it only notes the number (a `byte`).
unfoldable pub read_message : Serial → ℤ × Serial
unfolding serial_available
read_message s =
    let (byte_aval, s') = serial_available s in
    if byte_aval == 0
    then if s'.rx_buf_tail == 0 then (buffer_rx_empty, s') else fetch_message s'
    else if byte_aval == s'.rx_buf_tail
    then fetch_message s'
    else (run_download, record s' { rx_buf_tail = byte_aval % 2 ^ 8 })

-- `val_ret > RUN_DOWNLOAD`
abbrev pub is_message : ℤ → Bool
is_message (pos n) = if leb n 1 then false else true
is_message (ℤ.negsuc n) = false

-- `val_ret < 0`
abbrev pub is_error : ℤ → Bool
is_error (pos n) = false
is_error (ℤ.negsuc n) = true
