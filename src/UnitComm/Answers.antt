-- ===== src/UnitComm/Answers.antt =====
-- The pending requests of src/unit_comm.c with the unit's answers: each reply is parsed by
-- `on_message`, so that the reply to a write may ask for sections again.
use aelebdwif01_dongle.Prelude.{
  ℕ, zero, suc, ◌+◌, ◌≡◌, ◌≤◌, ◌<◌, ◌≢◌, inl, inr, refl, ap, ◌∙◌, List, [], true, false, Option,
  some, none, arith, length, length-set, length-blit, get_or, ◌==◌, ◌>>=◌, Option-cases,
  memcpy_inside, if_holds, slice, blit,
}
use aelebdwif01_dongle.Prelude.Bits.{clear_bit}
use aelebdwif01_dongle.Eeprom.{sizeof_eeprom}
use aelebdwif01_dongle.Serial.{command_read_eeprom, command_write_eeprom}
use aelebdwif01_dongle.UnitComm.{
  Comm, Env, Suffix, Attribute, esp_eeprom, eeprom_data, set_attr_value, emit,
}
use aelebdwif01_dongle.UnitComm.Parse.{
  take_counter, differ, write_eeprom_data_parse, read_eeprom_data_parse, cnt_update_info_at,
  cnt_update_setting_par_at, cnt_update_set_temp_at, cnt_update_day_prog_at,
}
use aelebdwif01_dongle.UnitComm.Connected.{on_message, on_read_eeprom, announce_data, replied}
use aelebdwif01_dongle.UnitComm.Schedule.{
  Request, read_section, write_section, button, ladder, first_pending, serve_requests,
}
use aelebdwif01_dongle.UnitComm.Drain.{
  serve_first, ladder_in_order, requests_of, requests_first, requests_none, index_nonzero,
  message_of, written,
}
use aelebdwif01_dongle.UnitComm.Weights.{
  cost, total, ladder-Cheap, total_set, Unpressed, clear-Unpressed, set-Unpressed, ladder-Buttons,
  no_button, total_zero, total-pending,
}

-- A reply of the unit that `Read_Message` has left in the buffer is parsed.
unfoldable pub answered : Env → List ℕ → Comm → Option Comm
answered env rx s = on_message env (record s { serial = record s.serial { buff_ser1 = rx } })

-- The reply to a request: to a read, its bytes lie within the buffer and the image.
abbrev pub IsReply : Request → List ℕ → Type 0
IsReply (read_section sec) rx =
    (get_or rx 3 0 ≡ command_read_eeprom)
    × (get_or rx 4 0 + get_or rx 5 0 ≤ sizeof_eeprom)
    × (6 + get_or rx 5 0 ≤ length rx)
IsReply (write_section sec) rx = get_or rx 3 0 ≡ command_write_eeprom
IsReply button rx = Unit

-- Between two requests.
pub record IsReady (s : Comm) : Type 0 where
  pub none_outstanding : s.eeprom_data_received ≡ false
  pub whole_image : length s.eeprom ≡ sizeof_eeprom
  pub unpressed : Unpressed s.request_index

-- Behind a reply: at most m further requests.
abbrev Answered : ℕ → Option Comm → Type 0
Answered m o = (t : Comm) × (o ≡ some t) × IsReady t × (total (requests_of t.request_index) ≤ m)

-- What a counter of the unit does to the pending requests and to the image.
abbrev Within : ℕ → Comm → Type 0
Within m s =
    (length s.eeprom ≡ sizeof_eeprom)
    × Unpressed s.request_index
    × (total (requests_of s.request_index) ≤ m)

take_counter-Within :
    (k v at m : ℕ) (s : Comm) → k < 4 → Within m s → Within (m + 1) (take_counter k v at s)
unfolding requests_of
take_counter-Within k v at m s l w = (
  length-set s.eeprom at v ∙ w.0,
  if_holds Unpressed (differ v (get_or s.eeprom at 0)) _ _
      (λ _. set-Unpressed k s.request_index l w.1) (λ _. w.1),
  if_holds (λ i. total (requests_of i) ≤ m + 1) (differ v (get_or s.eeprom at 0)) _ _
      (λ _.
        let h = total_set k s.request_index ladder l ladder_in_order ladder-Cheap in
        omega (arith, h, w.2))
      (λ _. omega (arith, w.2)),
)

write-Within :
    (rx : List ℕ) (m : ℕ) (s : Comm)
    → Within m s
    → Within (m + 1 + 1 + 1 + 1) (write_eeprom_data_parse rx s)
unfolding write_eeprom_data_parse
write-Within rx m s w =
    let s0 : Comm = take_counter 0 (get_or rx 7 0) cnt_update_info_at s in
    let s1 : Comm = take_counter 1 (get_or rx 8 0) cnt_update_setting_par_at s0 in
    let s2 : Comm = take_counter 2 (get_or rx 9 0) cnt_update_set_temp_at s1 in
    let w0 = take_counter-Within 0 (get_or rx 7 0) cnt_update_info_at m s (omega arith) w in
    let w1 =
      take_counter-Within 1 (get_or rx 8 0) cnt_update_setting_par_at (m + 1) s0 (omega arith) w0 in
    let w2 =
      take_counter-Within 2 (get_or rx 9 0) cnt_update_set_temp_at (m + 1 + 1) s1 (omega arith)
        w1 in
    take_counter-Within 3 (get_or rx 10 0) cnt_update_day_prog_at (m + 1 + 1 + 1) s2 (omega arith)
      w2

answered-write :
    (env : Env) (rx : List ℕ) (m : ℕ) (s : Comm)
    → get_or rx 3 0 ≡ command_write_eeprom
    → Within m s
    → Answered (m + 1 + 1 + 1 + 1) (answered env rx s)
unfolding answered on_message
answered-write env rx m s c w =
    let s1 : Comm = record s { serial = record s.serial { buff_ser1 = rx } } in
    let v = write-Within rx m s1 w in
    rw c (
      record (write_eeprom_data_parse rx s1) { eeprom_data_received = false },
      refl,
      record { none_outstanding = refl; whole_image = v.0; unpressed = v.1 },
      v.2,
    )

announce_data-Within :
    (suffix : Suffix) (attribute : Attribute) (bytes : List ℕ) (m : ℕ) (s : Comm)
    → Within m s
    → Within m (announce_data suffix attribute bytes s)
announce_data-Within suffix attribute bytes m s w =
    if_holds (λ (t : Comm). Within m (emit (set_attr_value attribute bytes) t)) s.is_mqtt_ready _ _
      (λ _. w) (λ _. w)

answered-read :
    (env : Env) (rx : List ℕ) (m : ℕ) (s : Comm)
    → get_or rx 3 0 ≡ command_read_eeprom
    → get_or rx 4 0 + get_or rx 5 0 ≤ sizeof_eeprom
    → 6 + get_or rx 5 0 ≤ length rx
    → Within m s
    → Answered m (answered env rx s)
unfolding answered on_message on_read_eeprom read_eeprom_data_parse
answered-read env rx m s c a b w =
    rw (c, memcpy_inside s.eeprom (get_or rx 4 0) rx 6 (get_or rx 5 0) (omega (arith, a, w.0)) b)
      (
        replied (announce_data esp_eeprom eeprom_data t.eeprom t),
        refl,
        record { none_outstanding = refl; whole_image = v.0; unpressed = v.1 },
        v.2,
      )
  where
    t : Comm
    t = record s {
      serial = record s.serial { buff_ser1 = rx };
      eeprom = blit s.eeprom (get_or rx 4 0) (slice rx 6 (get_or rx 5 0));
    }

    v : Within m (announce_data esp_eeprom eeprom_data t.eeprom t)
    v =
        announce_data-Within esp_eeprom eeprom_data t.eeprom m t
          (length-blit s.eeprom (get_or rx 4 0) (slice rx 6 (get_or rx 5 0)) ∙ w.0, w.1, w.2)

answered_lem :
    (r : Request) (env : Env) (rx : List ℕ) (m : ℕ) (s : Comm)
    → r ≢ button
    → IsReply r rx
    → Within m s
    → (t : Comm) × (answered env rx s ≡ some t)
      × IsReady t
      × (total (requests_of t.request_index) + 1 ≤ cost r + m)
answered_lem (read_section sec) env rx m s b h w =
    let a = answered-read env rx m s h.0 h.1 h.2 w in (a.0, a.1, a.2, omega (arith, a.3))
answered_lem (write_section sec) env rx m s b h w =
    let a = answered-write env rx m s h w in (a.0, a.1, a.2, omega (arith, a.3))
answered_lem button env rx m s b h w = absurd (b refl)

abbrev pub answer_first : (Request → List ℕ) → Env → Option (ℕ × Request) → Comm → Option Comm
answer_first unit env none s = some s
answer_first unit env (some (k, r)) s = answered env (unit r) s

-- The ladder, and the reply of the unit to what it sends.
unfoldable pub exchange : (Request → List ℕ) → Env → Comm → Option Comm
exchange unit env s =
    serve_requests env s >>= answer_first unit env (first_pending ladder s.request_index)

-- n of them, with a reply of its own each time.
unfoldable pub exchanges : (ℕ → Request → List ℕ) → ℕ → Env → Comm → Option Comm
exchanges unit zero env s = some s
exchanges unit (suc n) env s = exchange (unit n) env s >>= exchanges unit n env

serve_none :
    (env : Env) (s : Comm)
    → first_pending ladder s.request_index ≡ none
    → serve_requests env s ≡ some s
unfolding serve_requests
serve_none env s h =
    if_holds (λ o. o ≡ some s) (s.request_index == 0) _ _ (λ _. refl)
      (λ _. if_holds (λ o. o ≡ some s) s.eeprom_data_received _ _ (λ _. refl) (λ _. rw h refl))

exchange-none :
    (unit : Request → List ℕ) (env : Env) (s : Comm)
    → first_pending ladder s.request_index ≡ none
    → exchange unit env s ≡ some s
unfolding exchange
exchange-none unit env s h =
    ap (λ o. o >>= answer_first unit env (first_pending ladder s.request_index))
      (serve_none env s h)
    ∙ ap (λ f. answer_first unit env f s) h

-- What surrounds the task: the stack's array has 128 bytes, and the unit replies to each request.
module _ (env : Env) (stack : (i : ℕ) → length (env.stack i) ≡ 128) where
  exchange-some :
      (unit : Request → List ℕ) (k : ℕ) (r : Request) (s : Comm)
      → ((q : Request) → IsReply q (unit q))
      → IsReady s
      → first_pending ladder s.request_index ≡ some (k, r)
      → (t : Comm) × (exchange unit env s ≡ some t)
        × IsReady t
        × (total (requests_of t.request_index) + 1 ≤ total (requests_of s.request_index))
  unfolding exchange
  exchange-some unit k r s u i h =
      let sent : Comm = record s {
        request_index = clear_bit k s.request_index;
        eeprom_data_received = true;
        trace = written (message_of s.eeprom r) s.trace;
      } in
      let a =
        answered_lem r env (unit r) (total (requests_of (clear_bit k s.request_index))) sent
          (λ b.
            no_button ladder s.request_index k ladder-Buttons i.unpressed
              (h ∙ ap (λ q. some (k, q)) b))
          (u r) (i.whole_image, clear-Unpressed k s.request_index i.unpressed, omega arith) in
      let all = ap total (requests_first s.request_index k r h) in
      (
        a.0,
        ap (λ o. o >>= answer_first unit env (first_pending ladder s.request_index))
              (serve_first env s k r i.none_outstanding (stack s.reads) i.whole_image
                (index_nonzero s.request_index k r h) h)
            ∙ ap (λ f. answer_first unit env f sent) h
            ∙ a.1,
        a.2,
        omega (arith, a.3, all),
      )

  module _ (unit : ℕ → Request → List ℕ) (u : (n : ℕ) (q : Request) → IsReply q (unit n q)) where
    exchanges_lem :
        (n : ℕ) (s : Comm)
        → IsReady s
        → total (requests_of s.request_index) ≤ n
        → (t : Comm) × (exchanges unit n env s ≡ some t)
          × IsReady t
          × (requests_of t.request_index ≡ [])
    unfolding exchanges
    exchanges_lem zero s i h = (s, refl, i, total_zero (requests_of s.request_index) h)
    exchanges_lem (suc n) s i h = elim (Option-cases (first_pending ladder s.request_index)) [
      | inl e ↦
          let none_left = ap total (requests_none s.request_index e) in
          let rest = exchanges_lem n s i (omega (arith, none_left)) in
          (
            rest.0,
            ap (λ o. o >>= exchanges unit n env) (exchange-none (unit n) env s e) ∙ rest.1,
            rest.2,
            rest.3,
          )
      | inr ((k, r), e) ↦
          let one = exchange-some (unit n) k r s (u n) i e in
          let less = one.3 in
          let rest = exchanges_lem n one.0 one.2 (omega (arith, less, h)) in
          (rest.0, ap (λ o. o >>= exchanges unit n env) one.1 ∙ rest.1, rest.2, rest.3)
    ]

    -- With an image of 241 bytes, arrays of 128 bytes on the stack, no request outstanding, no bit of
    -- a button set, and a reply to each request, which for a read lies within the buffer and the
    -- image: whatever the replies bring, 35 exchanges end in a defined way, and then no request of
    -- the ladder is pending or outstanding, nor any that the replies to writes have asked for.
    pub exchanges_end :
        (s : Comm)
        → IsReady s
        → (t : Comm) × (exchanges unit 35 env s ≡ some t)
          × IsReady t
          × (requests_of t.request_index ≡ [])
    unfolding requests_of
    exchanges_end s i =
        let bound = total-pending ladder s.request_index in
        exchanges_lem 35 s i (omega (arith, bound))
