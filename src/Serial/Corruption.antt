-- ===== src/Serial/Corruption.antt =====
-- A message with one byte changed on the way is refused.
use aelebdwif01_dongle.Prelude.{
  ℕ, zero, suc, ◌+◌, ◌*◌, ◌≤◌, ◌<◌, ◌≡◌, ◌≢◌, ap, ◌∙◌, List, [], ◌∷◌, true, false, some, ℤ, All,
  IsByte, arith, length, get_or, set, strstr, length-set, get_or-set_self, get_or-set_ne,
  All-append, All-set, All-get_or,
}
use native.Mathlib.Decide.{dec_lt}
use aelebdwif01_dongle.Serial.{Serial, run_download}
use aelebdwif01_dongle.Serial.Checksum.{
  calc_cksum_16, calc_cksum_16_lem, sum_first-set, sum_first-set_out,
}
use aelebdwif01_dongle.Serial.Receive.{check_message, classify, is_error}
use aelebdwif01_dongle.Serial.Send.{body, frame, low_byte, high_byte}
use aelebdwif01_dongle.Serial.Transfer.{receive, receive_lem, arrived, padded}
use aelebdwif01_dongle.Serial.Integrity.{
  get_or-padded, calc-padded, cksum, length-frame, frame_low, frame_high, calc-frame, cksum-lt,
}

-- The errors that a changed byte leads to.
module _ (comand : ℕ) (payload : List ℕ) (i b : ℕ) where
  abbrev pub changed : List ℕ
  changed = set (frame comand payload) i b

  length-changed : length changed ≡ 6 + length payload
  length-changed = length-set (frame comand payload) i b ∙ length-frame comand payload

  -- The changed message in the buffer, byte by byte.
  changed_other :
      (j : ℕ)
      → length payload ≤ 121
      → j < 6 + length payload
      → i ≢ j
      → get_or (padded changed) j 0 ≡ get_or (frame comand payload) j 0
  changed_other j h k ne =
      get_or-padded changed j (omega (arith, length-changed)) (omega (arith, length-changed))
      ∙ get_or-set_ne (frame comand payload) i j b 0 ne

  changed_at : length payload ≤ 121 → i < 6 + length payload → get_or (padded changed) i 0 ≡ b
  changed_at h k =
      get_or-padded changed i (omega (arith, length-changed)) (omega (arith, length-changed))
      ∙ get_or-set_self (frame comand payload) i b 0 (omega (arith, length-frame comand payload))

  calc-changed :
      length payload ≤ 121
      → calc_cksum_16 (padded changed) (4 + length payload)
        ≡ calc_cksum_16 changed (4 + length payload)
  calc-changed h =
      calc-padded changed (4 + length payload) (omega (arith, length-changed))
        (omega (arith, length-changed))

  frame-IsByte :
      All IsByte (comand ∷ payload) → length payload ≤ 121 → All IsByte (frame comand payload)
  frame-IsByte h le =
      All-append IsByte (body comand payload)
        (low_byte (cksum comand payload) ∷ high_byte (cksum comand payload) ∷ [])
        (omega arith, (omega arith, (omega arith, h)))
        (omega arith, (omega (arith, cksum-lt comand payload), tt))

  -- A changed byte that the sum covers changes the checksum.
  calc_differs :
      All IsByte (comand ∷ payload)
      → b < 256
      → length payload ≤ 121
      → i < 4 + length payload
      → b ≢ get_or (frame comand payload) i 0
      → calc_cksum_16 changed (4 + length payload) ≢ cksum comand payload
  calc_differs h hb le hi ne = omega (
    arith,
    length-frame comand payload,
    calc-frame comand payload,
    calc_cksum_16_lem (frame comand payload) (4 + length payload) (frame-IsByte h le) (omega arith),
    calc_cksum_16_lem changed (4 + length payload)
        (All-set IsByte (frame comand payload) i b (frame-IsByte h le) hb) (omega arith),
    sum_first-set (4 + length payload) i b (frame comand payload) hi
        (omega (arith, length-frame comand payload)),
  )

  -- A changed byte behind those leaves the computed checksum.
  calc_same :
      All IsByte (comand ∷ payload)
      → b < 256
      → length payload ≤ 121
      → 4 + length payload ≤ i
      → calc_cksum_16 changed (4 + length payload) ≡ cksum comand payload
  calc_same h hb le hi = omega (
    arith,
    calc-frame comand payload,
    calc_cksum_16_lem (frame comand payload) (4 + length payload) (frame-IsByte h le) (omega arith),
    calc_cksum_16_lem changed (4 + length payload)
        (All-set IsByte (frame comand payload) i b (frame-IsByte h le) hb) (omega arith),
    sum_first-set_out (4 + length payload) i b (frame comand payload) hi,
  )

  -- The stored checksum and the computed one, where the byte is not in the first three.
  cksum_differs :
      All IsByte (comand ∷ payload)
      → b < 256
      → length payload ≤ 121
      → 3 ≤ i
      → i < 6 + length payload
      → b ≢ get_or (frame comand payload) i 0
      → get_or (padded changed) (4 + length payload + 1) 0 * 256
          + get_or (padded changed) (4 + length payload) 0
        ≢ calc_cksum_16 (padded changed) (4 + length payload)
  cksum_differs h hb le lo hi ne = elim (dec_lt i (4 + length payload)) [
    | yes p ↦ omega (
      arith,
      cksum-lt comand payload,
      frame_low comand payload,
      frame_high comand payload,
      calc-changed le,
      changed_other (4 + length payload) le (omega arith) (omega arith),
      changed_other (4 + length payload + 1) le (omega arith) (omega arith),
      calc_differs h hb le p ne,
    )
    | no p ↦ elim (dec_lt i (5 + length payload)) [
      | yes q ↦
          let e : i ≡ 4 + length payload = omega arith in
          omega (
            arith,
            ne,
            cksum-lt comand payload,
            ap (λ j. get_or (frame comand payload) j 0) e,
            ap (λ j. get_or (padded changed) j 0) e,
            frame_low comand payload,
            frame_high comand payload,
            calc-changed le,
            changed_at le hi,
            changed_other (4 + length payload + 1) le (omega arith) (omega arith),
            calc_same h hb le (omega arith),
          )
      | no q ↦
          let e : i ≡ 4 + length payload + 1 = omega arith in
          omega (
            arith,
            ne,
            cksum-lt comand payload,
            ap (λ j. get_or (frame comand payload) j 0) e,
            ap (λ j. get_or (padded changed) j 0) e,
            frame_low comand payload,
            frame_high comand payload,
            calc-changed le,
            changed_at le hi,
            changed_other (4 + length payload) le (omega arith) (omega arith),
            calc_same h hb le (omega arith),
          )
    ]
  ]

classify_checks :
    (s : Serial) (w : List ℕ)
    → strstr (padded w) "Bootloader" ≡ false
    → strstr (padded w) "ACK" ≡ false
    → classify (arrived s w) (length w) ≡ (check_message (padded w) (length w), arrived s w)
unfolding classify
classify_checks s w nb na = rw (nb, na)

-- What makes `check_message` refuse.
rejects_head :
    (buff : List ℕ) (len : ℕ) → get_or buff 0 0 ≢ 115 → is_error (check_message buff len) ≡ true
unfolding check_message
rejects_head buff len h = ground arith

rejects_next :
    (buff : List ℕ) (len : ℕ) → get_or buff 1 0 ≢ 109 → is_error (check_message buff len) ≡ true
unfolding check_message
rejects_next buff len h = ground arith

rejects_len :
    (buff : List ℕ) (len : ℕ) → get_or buff 2 0 + 2 ≢ len → is_error (check_message buff len) ≡ true
unfolding check_message
rejects_len buff len h = ground arith

rejects_cksum :
    (buff : List ℕ) (len k : ℕ)
    → get_or buff 2 0 ≡ k
    → get_or buff k 0 < 256
    → get_or buff (k + 1) 0 < 256
    → get_or buff (k + 1) 0 * 256 + get_or buff k 0 ≢ calc_cksum_16 buff k
    → is_error (check_message buff len) ≡ true
unfolding check_message
rejects_cksum buff len k e lo hi h = rw (e, check_message) (ground arith)

module _ (comand : ℕ) (payload : List ℕ) (i b : ℕ) (h : All IsByte (comand ∷ payload))
    (hb : b < 256) (le : length payload ≤ 121) (hi : i < 6 + length payload)
    (ne : b ≢ get_or (frame comand payload) i 0) where
  abbrev buff : List ℕ
  buff = padded (changed comand payload i b)

  buff-IsByte : (j : ℕ) → j < 6 + length payload → get_or buff j 0 < 256
  buff-IsByte j hj =
      rw
        (get_or-padded (changed comand payload i b) j
          (omega (arith, length-changed comand payload i b))
          (omega (arith, length-changed comand payload i b)))
        (All-get_or IsByte (changed comand payload i b) j 0
          (All-set IsByte (frame comand payload) i b (frame-IsByte comand payload i b h le) hb)
          (omega arith))

  check_changed : is_error (check_message buff (6 + length payload)) ≡ true
  check_changed = elim (dec_lt 2 i) [
    | yes p ↦
        rejects_cksum buff (6 + length payload) (4 + length payload)
          (changed_other comand payload i b 2 le (omega arith) (omega arith))
          (buff-IsByte (4 + length payload) (omega arith))
          (buff-IsByte (4 + length payload + 1) (omega arith))
          (cksum_differs comand payload i b h hb le p hi ne)
    | no p ↦ early i (omega arith) (changed_at comand payload i b le hi) ne
  ]
    where
      early :
          (j : ℕ)
          → j ≤ 2
          → get_or buff j 0 ≡ b
          → b ≢ get_or (frame comand payload) j 0
          → is_error (check_message buff (6 + length payload)) ≡ true
      early zero _ e ne' = rejects_head buff (6 + length payload) (omega arith)
      early (suc zero) _ e ne' = rejects_next buff (6 + length payload) (omega arith)
      early (suc (suc zero)) _ e ne' = rejects_len buff (6 + length payload) (omega arith)
      early (suc (suc (suc j))) l e ne' = absurd (omega arith)

-- With no download pending, a message of the protocol's layout with at most 121 data bytes, one of
-- whose bytes is changed to another value, is refused by the second poll with an
-- error, unless the changed message reads as the boot loader's banner or its ACK.
pub receive-changed :
    (s : Serial) (comand : ℕ) (payload : List ℕ) (i b : ℕ)
    → s.rx_buf_tail ≡ 0
    → All IsByte (comand ∷ payload)
    → b < 256
    → length payload ≤ 121
    → i < 6 + length payload
    → b ≢ get_or (frame comand payload) i 0
    → strstr (padded (changed comand payload i b)) "Bootloader" ≡ false
    → strstr (padded (changed comand payload i b)) "ACK" ≡ false
    → (r : ℤ) × (s' : Serial) × (receive s (changed comand payload i b)
        ≡ some (run_download, r, s'))
      × (is_error r ≡ true)
receive-changed s comand payload i b t h hb le hi ne nb na =
    let w : List ℕ = changed comand payload i b in
    let n : length w ≡ 6 + length payload = length-changed comand payload i b in
    let c : classify (arrived s w) (length w) ≡ (check_message (padded w) (length w), arrived s w) =
      classify_checks s w nb na in
    (
      check_message (padded w) (length w),
      arrived s w,
      rw (receive_lem s w t (omega (arith, n)) (omega (arith, n)), c),
      rw n (check_changed comand payload i b h hb le hi ne),
    )
