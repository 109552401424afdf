-- ===== src/UnitComm/Counters.antt =====
-- The update counters of src/unit_comm.c: which sections a polling message or the reply to a write
-- asks to be read again.
use aelebdwif01_dongle.Prelude.{
  ℕ, ◌+◌, ◌≡◌, ◌≢◌, refl, ◌∙◌, List, Bool, false, not, ◌||◌, arith, get_or, set, ◌==◌,
  if◌then◌else◌, Bool-cases, ltb, inl, inr, zero, suc, sym, ap, le→ltb, get_or-set_ne,
}
use aelebdwif01_dongle.Prelude.Bits.{test_bit, test_bit-set_self, test_bit-set_ne}
use aelebdwif01_dongle.UnitComm.{Comm, Env}
use aelebdwif01_dongle.UnitComm.Parse.{
  note_change, compare_counters, polling_base_data_parse, polling_of, cnt_update_info_at,
  cnt_update_setting_par_at, cnt_update_set_temp_at, cnt_update_day_prog_at,
  write_eeprom_data_parse, take_counter,
}

-- Where the image keeps the counter of bit k.
abbrev pub counter_at : ℕ → ℕ
counter_at zero = cnt_update_info_at
counter_at (suc zero) = cnt_update_setting_par_at
counter_at (suc (suc zero)) = cnt_update_set_temp_at
counter_at _ = cnt_update_day_prog_at

-- The counter of bit k, at place first + k of the message, is not the image's. Only the bits from
-- 0 to 3 have a counter.
abbrev pub is_changed : ℕ → List ℕ → List ℕ → ℕ → Bool
is_changed first rx eeprom k =
    if ltb k 4 then not (get_or rx (first + k) 0 == get_or eeprom (counter_at k) 0) else false

note_change_self :
    (k received stored index : ℕ)
    → test_bit k (note_change k received stored index)
      ≡ (not (received == stored) || test_bit k index)
note_change_self k received stored index = elim (Bool-cases (received == stored)) [
  | inl e ↦ rw e refl
  | inr e ↦ rw (e, test_bit-set_self k index) refl
]

note_change-other :
    (k j received stored index : ℕ)
    → k ≢ j
    → test_bit j (note_change k received stored index) ≡ test_bit j index
note_change-other k j received stored index h = elim (Bool-cases (received == stored)) [
  | inl e ↦ rw e refl
  | inr e ↦ rw (e, test_bit-set_ne k j index h) refl
]

-- The four counters, compared one after the other.
module _ (r : ℕ → ℕ) (c : ℕ → ℕ) (index : ℕ) where
  abbrev noted : ℕ
  noted =
      note_change 3 (r 3) (c 3)
        (note_change 2 (r 2) (c 2) (note_change 1 (r 1) (c 1) (note_change 0 (r 0) (c 0) index)))

  noted-test_bit :
      (k : ℕ)
      → test_bit k noted ≡ ((if ltb k 4 then not (r k == c k) else false) || test_bit k index)
  noted-test_bit zero =
      note_change-other 3 0 (r 3) (c 3) _ (omega arith)
      ∙ note_change-other 2 0 (r 2) (c 2) _ (omega arith)
      ∙ note_change-other 1 0 (r 1) (c 1) _ (omega arith)
      ∙ note_change_self 0 (r 0) (c 0) index
  noted-test_bit (suc zero) =
      note_change-other 3 1 (r 3) (c 3) _ (omega arith)
      ∙ note_change-other 2 1 (r 2) (c 2) _ (omega arith)
      ∙ note_change_self 1 (r 1) (c 1) _
      ∙ ap (λ b. not (r 1 == c 1) || b) (note_change-other 0 1 (r 0) (c 0) index (omega arith))
  noted-test_bit (suc (suc zero)) =
      note_change-other 3 2 (r 3) (c 3) _ (omega arith)
      ∙ note_change_self 2 (r 2) (c 2) _
      ∙ ap (λ b. not (r 2 == c 2) || b)
          (note_change-other 1 2 (r 1) (c 1) _ (omega arith)
            ∙ note_change-other 0 2 (r 0) (c 0) index (omega arith))
  noted-test_bit (suc (suc (suc zero))) =
      note_change_self 3 (r 3) (c 3) _
      ∙ ap (λ b. not (r 3 == c 3) || b)
          (note_change-other 2 3 (r 2) (c 2) _ (omega arith)
            ∙ note_change-other 1 3 (r 1) (c 1) _ (omega arith)
            ∙ note_change-other 0 3 (r 0) (c 0) index (omega arith))
  noted-test_bit (suc (suc (suc (suc k)))) =
      let j : ℕ = suc (suc (suc (suc k))) in
      let out : ltb j 4 ≡ false = le→ltb (omega arith) in
      note_change-other 3 j (r 3) (c 3) _ (omega arith)
      ∙ note_change-other 2 j (r 2) (c 2) _ (omega arith)
      ∙ note_change-other 1 j (r 1) (c 1) _ (omega arith)
      ∙ note_change-other 0 j (r 0) (c 0) index (omega arith)
      ∙ ap (λ b. (if b then not (r j == c j) else false) || test_bit j index) (sym out)

-- A polling message asks for a section to be read again exactly if its update counter is not the
-- one in the image, and keeps every request that was pending.
pub request_index-polling :
    (env : Env) (rx : List ℕ) (s : Comm) (k : ℕ)
    → test_bit k (polling_base_data_parse env rx s).request_index
      ≡ (is_changed 38 rx s.eeprom k || test_bit k s.request_index)
unfolding polling_base_data_parse compare_counters polling_of
request_index-polling env rx s k =
    noted-test_bit (λ j. get_or rx (38 + j) 0) (λ j. get_or s.eeprom (counter_at j) 0)
      s.request_index k

counter_places :
    (cnt_update_info_at ≡ 58)
    × (cnt_update_setting_par_at ≡ 126)
    × (cnt_update_set_temp_at ≡ 152)
    × (cnt_update_day_prog_at ≡ 237)
unfolding cnt_update_info_at cnt_update_setting_par_at cnt_update_set_temp_at cnt_update_day_prog_at
counter_places = (refl, refl, refl, refl)

counter_note :
    (k received at : ℕ) (s : Comm)
    → (take_counter k received at s).request_index
      ≡ note_change k received (get_or s.eeprom at 0) s.request_index
counter_note k received at s = ground arith

-- The image behind the first counters, at the place of the next.
module _ (e : List ℕ) (r0 r1 r2 : ℕ) where
  abbrev image1 : List ℕ
  image1 = set e cnt_update_info_at r0

  abbrev image2 : List ℕ
  image2 = set image1 cnt_update_setting_par_at r1

  image1-place : get_or image1 cnt_update_setting_par_at 0 ≡ get_or e cnt_update_setting_par_at 0
  image1-place = get_or-set_ne e _ _ r0 0 (omega (arith, counter_places))

  image2-place : get_or image2 cnt_update_set_temp_at 0 ≡ get_or e cnt_update_set_temp_at 0
  image2-place =
      get_or-set_ne image1 _ _ r1 0 (omega (arith, counter_places))
      ∙ get_or-set_ne e _ _ r0 0 (omega (arith, counter_places))

  image3-place :
      get_or (set image2 cnt_update_set_temp_at r2) cnt_update_day_prog_at 0
      ≡ get_or e cnt_update_day_prog_at 0
  image3-place =
      get_or-set_ne image2 _ _ r2 0 (omega (arith, counter_places))
      ∙ get_or-set_ne image1 _ _ r1 0 (omega (arith, counter_places))
      ∙ get_or-set_ne e _ _ r0 0 (omega (arith, counter_places))

-- The reply to a write asks for a section to be read again exactly if the update counter that it
-- brings is not the one in the image, and keeps every request that was pending.
pub request_index-write :
    (rx : List ℕ) (s : Comm) (k : ℕ)
    → test_bit k (write_eeprom_data_parse rx s).request_index
      ≡ (is_changed 7 rx s.eeprom k || test_bit k s.request_index)
unfolding write_eeprom_data_parse
request_index-write rx s k =
    ap (test_bit k) all_noted
    ∙ noted-test_bit (λ j. get_or rx (7 + j) 0) (λ j. get_or s.eeprom (counter_at j) 0)
        s.request_index k
  where
    r : ℕ → ℕ
    r j = get_or rx (7 + j) 0

    s1 : Comm
    s1 = take_counter 0 (r 0) cnt_update_info_at s

    s2 : Comm
    s2 = take_counter 1 (r 1) cnt_update_setting_par_at s1

    s3 : Comm
    s3 = take_counter 2 (r 2) cnt_update_set_temp_at s2

    c : ℕ → ℕ
    c j = get_or s.eeprom (counter_at j) 0

    first : s1.request_index ≡ note_change 0 (r 0) (c 0) s.request_index
    first = counter_note 0 (r 0) cnt_update_info_at s

    second : s2.request_index ≡ note_change 1 (r 1) (c 1) s1.request_index
    second =
        counter_note 1 (r 1) cnt_update_setting_par_at s1
        ∙ ap (λ x. note_change 1 (r 1) x s1.request_index) (image1-place s.eeprom (r 0) (r 1) (r 2))

    third : s3.request_index ≡ note_change 2 (r 2) (c 2) s2.request_index
    third =
        counter_note 2 (r 2) cnt_update_set_temp_at s2
        ∙ ap (λ x. note_change 2 (r 2) x s2.request_index) (image2-place s.eeprom (r 0) (r 1) (r 2))

    fourth :
        (take_counter 3 (r 3) cnt_update_day_prog_at s3).request_index
        ≡ note_change 3 (r 3) (c 3) s3.request_index
    fourth =
        counter_note 3 (r 3) cnt_update_day_prog_at s3
        ∙ ap (λ x. note_change 3 (r 3) x s3.request_index) (image3-place s.eeprom (r 0) (r 1) (r 2))

    all_noted :
        (take_counter 3 (r 3) cnt_update_day_prog_at s3).request_index ≡ noted r c s.request_index
    all_noted =
        fourth
        ∙ ap (note_change 3 (r 3) (c 3))
            (third ∙ ap (note_change 2 (r 2) (c 2)) (second ∙ ap (note_change 1 (r 1) (c 1)) first))
