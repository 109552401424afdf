-- ===== src/UnitComm/Weights.antt =====
-- How many requests of src/unit_comm.c the pending ones can lead to, and what clearing and setting
-- a bit does to them.
use aelebdwif01_dongle.Prelude.{
  ℕ, ◌+◌, ◌≡◌, ◌≤◌, ◌<◌, ◌≢◌, inl, inr, refl, ◌∙◌, List, [], ◌∷◌, false, some, arith, ◌==◌,
  Bool-cases,
}
use aelebdwif01_dongle.Prelude.Bits.{test_bit, set_bit, clear_bit, test_bit-set_ne}
use aelebdwif01_dongle.UnitComm.Schedule.{
  Request, read_section, write_section, button, ladder, first_pending,
}
use aelebdwif01_dongle.UnitComm.Drain.{pending, Above, Ascending, stays_clear}

-- The requests that a pending request can lead to, itself included: behind the reply to a write up
-- to four sections are read again.
abbrev pub cost : Request → ℕ
cost (read_section sec) = 1
cost (write_section sec) = 5
cost button = 1

abbrev pub total : List (ℕ × Request) → ℕ
total [] = 0
total ((k, r) ∷ rungs) = cost r + total rungs

-- The rungs of the four bits that the unit's counters set are reads.
abbrev pub Cheap : List (ℕ × Request) → Type 0
Cheap [] = Unit
Cheap ((j, r) ∷ rungs) = (j < 4 → cost r ≤ 1) × Cheap rungs

pub ladder-Cheap : Cheap ladder
ladder-Cheap = omega arith

pending-set :
    (k index : ℕ) (rungs : List (ℕ × Request))
    → Above k rungs
    → pending rungs (set_bit k index) ≡ pending rungs index
pending-set k index [] a = refl
pending-set k index ((j, r) ∷ rungs) a =
    rw (test_bit-set_ne k j index (omega (arith, a.0)), pending-set k index rungs a.1)

pub total_set :
    (k index : ℕ) (rungs : List (ℕ × Request))
    → k < 4
    → Ascending rungs
    → Cheap rungs
    → total (pending rungs (set_bit k index)) ≤ total (pending rungs index) + 1
total_set k index [] h a c = omega arith
total_set k index ((j, r) ∷ rungs) h a c = elim (Bool-cases (k == j)) [
  | inl e ↦
      let d : k ≡ j = ground arith in
      let same = pending-set k index rungs (rw d a.0) in
      let cheap : cost r ≤ 1 = c.0 (omega (arith, d)) in ground (arith, same, cheap)
  | inr e ↦
      let t = test_bit-set_ne k j index (ground arith) in
      let rest = total_set k index rungs h a.1 c.1 in ground (arith, t, rest)
]

-- No button's bit is set.
abbrev pub Unpressed : ℕ → Type 0
Unpressed index = (j : ℕ) → 4 ≤ j → j < 10 → test_bit j index ≡ false

pub clear-Unpressed : (k index : ℕ) → Unpressed index → Unpressed (clear_bit k index)
clear-Unpressed k index h j lo hi = stays_clear k j index (h j lo hi)

pub set-Unpressed : (k index : ℕ) → k < 4 → Unpressed index → Unpressed (set_bit k index)
set-Unpressed k index l h j lo hi = test_bit-set_ne k j index (omega arith) ∙ h j lo hi

-- The rungs of the buttons.
abbrev pub Buttons : List (ℕ × Request) → Type 0
Buttons [] = Unit
Buttons ((j, button) ∷ rungs) = ((4 ≤ j) × (j < 10)) × Buttons rungs
Buttons ((j, r) ∷ rungs) = Buttons rungs

pub ladder-Buttons : Buttons ladder
ladder-Buttons = omega arith

pub no_button :
    (rungs : List (ℕ × Request)) (index k : ℕ)
    → Buttons rungs
    → Unpressed index
    → first_pending rungs index ≢ some (k, button)
unfolding first_pending
no_button [] index k b u h = ground arith
no_button ((j, button) ∷ rungs) index k b u h =
    let off = u j b.0.0 b.0.1 in no_button rungs index k b.1 u (ground (arith, off, h))
no_button ((j, read_section sec) ∷ rungs) index k b u h = elim (Bool-cases (test_bit j index)) [
  | inl e ↦ ground (arith, e, h)
  | inr e ↦ no_button rungs index k b u (ground (arith, e, h))
]
no_button ((j, write_section sec) ∷ rungs) index k b u h = elim (Bool-cases (test_bit j index)) [
  | inl e ↦ ground (arith, e, h)
  | inr e ↦ no_button rungs index k b u (ground (arith, e, h))
]

pub total_zero : (p : List (ℕ × Request)) → total p ≤ 0 → p ≡ []
total_zero [] h = refl
total_zero ((k, read_section sec) ∷ p) h = absurd (omega arith)
total_zero ((k, write_section sec) ∷ p) h = absurd (omega arith)
total_zero ((k, button) ∷ p) h = absurd (omega arith)

pub total-pending :
    (rungs : List (ℕ × Request)) (index : ℕ) → total (pending rungs index) ≤ total rungs
total-pending [] index = omega arith
total-pending ((k, r) ∷ rungs) index = let rest = total-pending rungs index in ground (arith, rest)
