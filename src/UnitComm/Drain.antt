-- ===== src/UnitComm/Drain.antt =====
-- The ladder that serves the pending requests of src/unit_comm.c, against the list of all of them:
-- what one round of it does.
use aelebdwif01_dongle.Prelude.{
  ℕ, zero, suc, ◌<◌, ◌≡◌, inl, inr, refl, ◌∙◌, List, [], ◌∷◌, true, false, Option, some, none,
  arith, length, ◌==◌, if◌then◌else◌, ne→==, Bool-cases,
}
use aelebdwif01_dongle.Prelude.Bits.{test_bit, clear_bit, test_bit-clear_self, test_bit-clear_ne}
use aelebdwif01_dongle.Eeprom.{sizeof_eeprom, start_address, count}
use aelebdwif01_dongle.Serial.{command_read_eeprom}
use aelebdwif01_dongle.Serial.Send.{frame}
use aelebdwif01_dongle.Serial.Messages.{
  write_section_message, read_request-frame, write_section-frame,
}
use aelebdwif01_dongle.Serial.Requests.{send_request_read_eeprom1, send_request_write_eeprom1}
use aelebdwif01_dongle.UnitComm.{Comm, Env, Effect, uart_write, send}
use aelebdwif01_dongle.UnitComm.Schedule.{
  Request, read_section, write_section, button, ladder, perform, first_pending, serve_requests,
}

-- The rungs whose bits are set, in order.
abbrev pub pending : List (ℕ × Request) → ℕ → List (ℕ × Request)
pending [] index = []
pending ((k, r) ∷ rungs) index =
    let rest = pending rungs index in if test_bit k index then (k, r) ∷ rest else rest

-- Every rung is for a bit above k, and the rungs are in order.
abbrev pub Above : ℕ → List (ℕ × Request) → Type 0
Above k [] = Unit
Above k ((j, r) ∷ rungs) = (k < j) × Above k rungs

abbrev pub Ascending : List (ℕ × Request) → Type 0
Ascending [] = Unit
Ascending ((k, r) ∷ rungs) = Above k rungs × Ascending rungs

pending-clear :
    (k index : ℕ) (rungs : List (ℕ × Request))
    → Above k rungs
    → pending rungs (clear_bit k index) ≡ pending rungs index
pending-clear k index [] a = refl
pending-clear k index ((j, r) ∷ rungs) a =
    rw (test_bit-clear_ne k j index (omega (arith, a.0)), pending-clear k index rungs a.1)

pub stays_clear :
    (k j index : ℕ) → test_bit j index ≡ false → test_bit j (clear_bit k index) ≡ false
stays_clear k j index h = elim (Bool-cases (k == j)) [
  | inl e ↦ let d : k ≡ j = ground arith in rw d (test_bit-clear_self j index)
  | inr e ↦ test_bit-clear_ne k j index (ground arith) ∙ h
]

-- The rung that is served is the first pending one, and clearing its bit leaves the others.
pending_first :
    (rungs : List (ℕ × Request)) (index k : ℕ) (r : Request)
    → Ascending rungs
    → first_pending rungs index ≡ some (k, r)
    → pending rungs index ≡ (k, r) ∷ pending rungs (clear_bit k index)
unfolding first_pending
pending_first [] index k r a h = ground arith
pending_first ((j, q) ∷ rungs) index k r a h = elim (Bool-cases (test_bit j index)) [
  | inl b ↦ ground (arith, test_bit-clear_self j index, pending-clear j index rungs a.0)
  | inr b ↦ rw (b, stays_clear k j index b) (pending_first rungs index k r a.1 (ground arith))
]

pub pending-none :
    (rungs : List (ℕ × Request)) (index : ℕ)
    → first_pending rungs index ≡ none
    → pending rungs index ≡ []
unfolding first_pending
pending-none [] index h = refl
pending-none ((j, q) ∷ rungs) index h = elim (Bool-cases (test_bit j index)) [
  | inl b ↦ ground arith
  | inr b ↦ rw b (pending-none rungs index (ground arith))
]

-- What a request puts on the wire.
abbrev pub message_of : List ℕ → Request → List ℕ
message_of eeprom (read_section sec) =
    frame command_read_eeprom (start_address sec ∷ count sec ∷ [])
message_of eeprom (write_section sec) = write_section_message eeprom sec
message_of eeprom button = []

-- The calls that put a message on the wire: there is none for the empty message.
abbrev pub written : List ℕ → List Effect → List Effect
written [] trace = trace
written (b ∷ bs) trace = uart_write (b ∷ bs) ∷ trace

send_lem :
    (request : List ℕ → Option (List ℕ)) (w : List ℕ) (env : Env) (s : Comm)
    → request (env.stack s.reads) ≡ some w
    → send request env s ≡ some (record s { trace = written w s.trace })
unfolding send
send_lem request [] env s h = rw h
send_lem request (b ∷ bs) env s h = rw h

perform_lem :
    (r : Request) (env : Env) (s : Comm)
    → length (env.stack s.reads) ≡ 128
    → length s.eeprom ≡ sizeof_eeprom
    → perform r env s ≡ some (record s { trace = written (message_of s.eeprom r) s.trace })
unfolding perform send_request_read_eeprom1
perform_lem (read_section sec) env s g e =
    send_lem (λ t. send_request_read_eeprom1 t sec) _ env s
      (read_request-frame (env.stack s.reads) (start_address sec) (count sec) g)
perform_lem (write_section sec) env s g e =
    send_lem (λ t. send_request_write_eeprom1 s.eeprom t sec) _ env s
      (write_section-frame s.eeprom (env.stack s.reads) sec g e)
perform_lem button env s g e = refl

pub serve_first :
    (env : Env) (s : Comm) (k : ℕ) (r : Request)
    → s.eeprom_data_received ≡ false
    → length (env.stack s.reads) ≡ 128
    → length s.eeprom ≡ sizeof_eeprom
    → (s.request_index == 0) ≡ false
    → first_pending ladder s.request_index ≡ some (k, r)
    → serve_requests env s
      ≡ some (record s {
        request_index = clear_bit k s.request_index;
        eeprom_data_received = true;
        trace = written (message_of s.eeprom r) s.trace;
      })
unfolding serve_requests
serve_first env s k r f g e nz h =
    rw (nz, f, h, perform_lem r env (record s { eeprom_data_received = false }) g e)

pub ladder_in_order : Ascending ladder
ladder_in_order = omega arith

-- All the pending requests, in the ladder's order.
unfoldable pub requests_of : ℕ → List (ℕ × Request)
requests_of index = pending ladder index

pub requests_first :
    (index k : ℕ) (r : Request)
    → first_pending ladder index ≡ some (k, r)
    → requests_of index ≡ (k, r) ∷ requests_of (clear_bit k index)
unfolding requests_of
requests_first index k r h = pending_first ladder index k r ladder_in_order h

pub requests_none : (index : ℕ) → first_pending ladder index ≡ none → requests_of index ≡ []
unfolding requests_of
requests_none index h = pending-none ladder index h

pub index_nonzero :
    (index k : ℕ) (r : Request) → first_pending ladder index ≡ some (k, r) → (index == 0) ≡ false
unfolding first_pending
index_nonzero zero k r h = absurd (ground arith)
index_nonzero (suc index) k r h = ne→== (omega arith)
