-- ===== src/Serial/Integrity.antt =====
-- The receiver accepts every message of the protocol's layout.
use aelebdwif01_dongle.Prelude.{
  ℕ, suc, ◌+◌, ◌≤◌, ◌<◌, ◌≡◌, refl, List, [], ◌∷◌, ◌++◌, some, pos, arith, length, get_or, drop,
  slice, zeros, blit_start, length-append, length-zeros, get_or-append_left,
}
use aelebdwif01_dongle.Serial.{Serial, run_download, rx_buffer_size}
use aelebdwif01_dongle.Serial.Checksum.{calc_cksum_16, calc_cksum_16-append}
use aelebdwif01_dongle.Serial.Receive.{check_message, classify}
use aelebdwif01_dongle.Serial.Send.{body, frame, low_byte, high_byte}
use aelebdwif01_dongle.Serial.Transfer.{
  receive, receive_lem, arrived, padded, padded_lem, slice-padded,
}

-- The buffer after the download: the message, then zeros.
pub padded-eq-append :
    (w : List ℕ) → length w ≤ 127 → padded w ≡ w ++ drop (length w) (zeros rx_buffer_size)
padded-eq-append w h =
    rw (padded_lem w) (blit_start (zeros rx_buffer_size) w (omega (arith, length-zeros 128)))

pub get_or-padded :
    (w : List ℕ) (i : ℕ) → length w ≤ 127 → i < length w → get_or (padded w) i 0 ≡ get_or w i 0
get_or-padded w i h k =
    rw (padded-eq-append w h) (get_or-append_left w (drop (length w) (zeros rx_buffer_size)) i 0 k)

pub calc-padded :
    (w : List ℕ) (n : ℕ)
    → length w ≤ 127
    → n ≤ length w
    → calc_cksum_16 (padded w) n ≡ calc_cksum_16 w n
calc-padded w n h k =
    rw (padded-eq-append w h) (calc_cksum_16-append w (drop (length w) (zeros rx_buffer_size)) n k)

module _ (comand : ℕ) (payload : List ℕ) where
  abbrev pub cksum : ℕ
  cksum = calc_cksum_16 (body comand payload) (4 + length payload)

  pub length-frame : length (frame comand payload) ≡ 6 + length payload
  length-frame = omega (arith, length-append payload (low_byte cksum ∷ high_byte cksum ∷ []))

  get_or_behind : (xs : List ℕ) (a b n : ℕ) → n ≡ length xs → get_or (xs ++ (a ∷ b ∷ [])) n 0 ≡ a
  get_or_behind [] a b n e = rw e
  get_or_behind (x ∷ xs) a b n e = rw e (get_or_behind xs a b (length xs) refl)

  get_or_behind_next :
      (xs : List ℕ) (a b n : ℕ) → n ≡ suc (length xs) → get_or (xs ++ (a ∷ b ∷ [])) n 0 ≡ b
  get_or_behind_next [] a b n e = rw e
  get_or_behind_next (x ∷ xs) a b n e = rw e (get_or_behind_next xs a b (suc (length xs)) refl)

  pub frame_low : get_or (frame comand payload) (4 + length payload) 0 ≡ low_byte cksum
  frame_low =
      get_or_behind (body comand payload) (low_byte cksum) (high_byte cksum) (4 + length payload)
        (omega arith)

  pub frame_high : get_or (frame comand payload) (4 + length payload + 1) 0 ≡ high_byte cksum
  frame_high =
      get_or_behind_next (body comand payload) (low_byte cksum) (high_byte cksum)
        (4 + length payload + 1) (omega arith)

  pub calc-frame : calc_cksum_16 (frame comand payload) (4 + length payload) ≡ cksum
  calc-frame =
      calc_cksum_16-append (body comand payload) (low_byte cksum ∷ high_byte cksum ∷ [])
        (4 + length payload) (omega arith)

  pub cksum-lt : cksum < 65536
  unfolding calc_cksum_16
  cksum-lt = omega arith

  check_frame :
      length payload ≤ 121
      → check_message (padded (frame comand payload)) (length (frame comand payload))
        ≡ pos (length (frame comand payload))
  unfolding check_message
  check_frame h =
      let w : List ℕ = frame comand payload in
      ground (
        arith,
        length-frame,
        cksum-lt,
        frame_low,
        frame_high,
        calc-frame,
        calc-padded w (4 + length payload) (omega (arith, length-frame))
            (omega (arith, length-frame)),
        get_or-padded w 0 (omega (arith, length-frame)) (omega (arith, length-frame)),
        get_or-padded w 1 (omega (arith, length-frame)) (omega (arith, length-frame)),
        get_or-padded w 2 (omega (arith, length-frame)) (omega (arith, length-frame)),
        get_or-padded w (4 + length payload) (omega (arith, length-frame))
            (omega (arith, length-frame)),
        get_or-padded w (4 + length payload + 1) (omega (arith, length-frame))
            (omega (arith, length-frame)),
      )

classify_accepts :
    (s : Serial) (comand : ℕ) (payload : List ℕ)
    → length payload ≤ 121
    → (classify (arrived s (frame comand payload)) (length (frame comand payload))).0
      ≡ pos (length (frame comand payload))
unfolding classify
classify_accepts s comand payload h = ground (arith, check_frame comand payload h)

classify_buffer : (s : Serial) (n : ℕ) → (classify s n).1.buff_ser1 ≡ s.buff_ser1
unfolding classify
classify_buffer s n = ground arith

-- With no download pending, every message of the protocol's layout with at most 121 data bytes
-- arrives: the first poll behind its data event waits, the
-- second returns its length, and the buffer then starts with its bytes.
pub receive-frame :
    (s : Serial) (comand : ℕ) (payload : List ℕ)
    → s.rx_buf_tail ≡ 0
    → length payload ≤ 121
    → (s' : Serial) × (receive s (frame comand payload)
        ≡ some (run_download, pos (6 + length payload), s'))
      × (slice s'.buff_ser1 0 (6 + length payload) ≡ frame comand payload)
receive-frame s comand payload t h =
    let w : List ℕ = frame comand payload in
    let n : length w ≡ 6 + length payload = length-frame comand payload in
    (
      (classify (arrived s w) (length w)).1,
      rw (
        receive_lem s w t (omega (arith, n)) (omega (arith, n)),
        classify_accepts s comand payload h,
        n,
      ),
      rw (classify_buffer (arrived s w) (length w), ← n) (slice-padded w (omega (arith, n))),
    )
