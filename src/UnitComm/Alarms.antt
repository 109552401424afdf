-- ===== src/UnitComm/Alarms.antt =====
-- The alarm flags that the polling message sets, against what they mean.
use aelebdwif01_dongle.Prelude.{
  ℕ, zero, suc, ◌+◌, ◌<◌, ◌≡◌, ◌≢◌, ◌↔◌, ◌⊎◌, inl, inr, refl, ap, ◌∙◌, List, [], ◌∷◌, true, false,
  arith, length, get_or, drop, slice, length-slice, get_or-take, get_or-drop,
}
use aelebdwif01_dongle.Prelude.Bits.{test_bit}
use aelebdwif01_dongle.UnitComm.{Comm, Env, Global}
use aelebdwif01_dongle.UnitComm.Parse.{alarm_step, alarm_loop, polling_base_data_parse}

-- Event number k raises the alarm: it is set, and is not the filter's bit of event 10 alone.
abbrev pub Raises : ℕ → ℕ → Type 0
Raises k e = (e ≢ 0) × ((k ≢ 10) ⊎ (e ≢ 0x20))

step_alarm :
    (i e : ℕ) (g : Global) → (alarm_step i e g).in_alarm ≡ true → (g.in_alarm ≡ true) ⊎ Raises i e
unfolding alarm_step
step_alarm i e g h = ground arith

step_keeps : (i e : ℕ) (g : Global) → g.in_alarm ≡ true → (alarm_step i e g).in_alarm ≡ true
unfolding alarm_step
step_keeps i e g h = ground arith

step-Raises : (i e : ℕ) (g : Global) → Raises i e → (alarm_step i e g).in_alarm ≡ true
unfolding alarm_step
step-Raises i e g h = ground arith

-- Some event from number i on raises the alarm.
abbrev pub SomeRaises : ℕ → List ℕ → Type 0
SomeRaises i es = (j : ℕ) × (j < length es) × Raises (i + j) (get_or es j 0)

loop_alarm :
    (i : ℕ) (es : List ℕ) (g : Global)
    → (alarm_loop i es g).in_alarm ≡ true
    → (g.in_alarm ≡ true) ⊎ SomeRaises i es
unfolding alarm_loop
loop_alarm i [] g h = inl h
loop_alarm i (e ∷ es) g h = elim (loop_alarm (suc i) es (alarm_step i e g) h) [
  | inl a ↦ elim (step_alarm i e g a) [ inl b ↦ inl b | inr r ↦ inr (0, omega arith, ground arith) ]
  | inr (j, lt, r) ↦ inr (suc j, omega arith, ground arith)
]

loop_keeps :
    (i : ℕ) (es : List ℕ) (g : Global) → g.in_alarm ≡ true → (alarm_loop i es g).in_alarm ≡ true
unfolding alarm_loop
loop_keeps i [] g h = h
loop_keeps i (e ∷ es) g h = loop_keeps (suc i) es (alarm_step i e g) (step_keeps i e g h)

loop-Raises :
    (i : ℕ) (es : List ℕ) (g : Global) (j : ℕ)
    → j < length es
    → Raises (i + j) (get_or es j 0)
    → (alarm_loop i es g).in_alarm ≡ true
unfolding alarm_loop
loop-Raises i [] g j lt r = absurd (omega arith)
loop-Raises i (e ∷ es) g zero lt r =
    loop_keeps (suc i) es (alarm_step i e g) (step-Raises i e g (ground arith))
loop-Raises i (e ∷ es) g (suc j) lt r =
    loop-Raises (suc i) es (alarm_step i e g) j (omega arith) (ground arith)

-- The filter's flag: only event 10 sets it.
step_filter :
    (i e : ℕ) (g : Global) → i ≢ 10 → (alarm_step i e g).filter_in_alarm ≡ g.filter_in_alarm
unfolding alarm_step
step_filter i e g h = ground arith

step_filter_at :
    (e : ℕ) (g : Global)
    → g.filter_in_alarm ≡ false
    → (alarm_step 10 e g).filter_in_alarm ≡ test_bit 5 e
unfolding alarm_step
step_filter_at e g h = ground arith

loop_filter_behind :
    (i : ℕ) (es : List ℕ) (g : Global)
    → 10 < i
    → (alarm_loop i es g).filter_in_alarm ≡ g.filter_in_alarm
unfolding alarm_loop
loop_filter_behind i [] g h = refl
loop_filter_behind i (e ∷ es) g h =
    loop_filter_behind (suc i) es (alarm_step i e g) (omega arith) ∙ step_filter i e g (omega arith)

loop_filter :
    (i k : ℕ) (es : List ℕ) (g : Global)
    → i + k ≡ 10
    → k < length es
    → g.filter_in_alarm ≡ false
    → (alarm_loop i es g).filter_in_alarm ≡ test_bit 5 (get_or es k 0)
unfolding alarm_loop
loop_filter i k [] g e lt f = absurd (omega arith)
loop_filter i zero (x ∷ es) g e lt f =
    let i10 : i ≡ 10 = omega arith in
    loop_filter_behind (suc i) es (alarm_step i x g) (omega arith) ∙ rw i10 (step_filter_at x g f)
loop_filter i (suc k) (x ∷ es) g e lt f =
    loop_filter (suc i) k es (alarm_step i x g) (omega arith) (omega arith)
      (step_filter i x g (omega arith) ∙ f)

get_or-events : (rx : List ℕ) (j : ℕ) → j < 13 → get_or (slice rx 23 13) j 0 ≡ get_or rx (23 + j) 0
get_or-events rx j h = get_or-take 13 j (drop 23 rx) 0 h ∙ get_or-drop 23 j rx 0

-- After a polling message in a buffer of 128 bytes the alarm is on exactly if one of the 13 events
-- raises it: an event other than 0, and for event 10 another than the filter's bit alone.
pub in_alarm-polling :
    (env : Env) (rx : List ℕ) (s : Comm)
    → length rx ≡ 128
    → ((polling_base_data_parse env rx s).global.in_alarm ≡ true)
      ↔ ((j : ℕ) × (j < 13) × Raises j (get_or rx (23 + j) 0))
unfolding polling_base_data_parse
in_alarm-polling env rx s n = (
  λ h.
      elim (loop_alarm 0 (slice rx 23 13)
        (record s.global { in_alarm = false; filter_in_alarm = false }) h) [
          | inl a ↦ cc
          | inr (j, lt, r) ↦ found j (omega (arith, length-slice rx 23 13 (omega arith))) r
        ],
  λ h.
      loop-Raises 0 (slice rx 23 13) _ h.0 (omega (arith, length-slice rx 23 13 (omega arith)))
        (raised h.0 h.1 h.2),
)
  where
    found :
        (j : ℕ)
        → j < 13
        → Raises (0 + j) (get_or (slice rx 23 13) j 0)
        → (j : ℕ) × (j < 13) × Raises j (get_or rx (23 + j) 0)
    found j lt r = (j, lt, ground (arith, get_or-events rx j lt))

    raised :
        (j : ℕ)
        → j < 13
        → Raises j (get_or rx (23 + j) 0)
        → Raises (0 + j) (get_or (slice rx 23 13) j 0)
    raised j lt r = ground (arith, get_or-events rx j lt)

-- After a polling message in a buffer of 128 bytes the filter's alarm is bit 5 of event 10.
filter_in_alarm-polling :
    (env : Env) (rx : List ℕ) (s : Comm)
    → length rx ≡ 128
    → (polling_base_data_parse env rx s).global.filter_in_alarm ≡ test_bit 5 (get_or rx 33 0)
unfolding polling_base_data_parse
filter_in_alarm-polling env rx s n =
    loop_filter 0 10 (slice rx 23 13)
      (record s.global { in_alarm = false; filter_in_alarm = false }) (omega arith)
      (omega (arith, length-slice rx 23 13 (omega arith))) refl
    ∙ ap (test_bit 5) (get_or-events rx 10 (omega arith))
