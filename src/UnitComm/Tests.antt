-- ===== src/UnitComm/Tests.antt =====
-- The unit task at examples.
use aelebdwif01_dongle.Prelude.{
  ℕ, ◌+◌, ◌*◌, ◌<◌, ◌≤◌, ◌≡◌, inl, inr, lt_or_le, ◌↔◌, ◌++◌, refl, List, [], ◌∷◌, true, false, none,
  some, arith, get_or, zeros, length, replicate, length-zeros, length-replicate, if◌then◌else◌, ltb,
  ◌⊎◌, ◌||◌, sym, drop, codes, ◌∙◌, ap,
}
use aelebdwif01_dongle.Prelude.Bits.{test_bit}
use aelebdwif01_dongle.Eeprom.Sections.{sizeof_eeprom_lem}
use aelebdwif01_dongle.UnitComm.{
  Comm, Env, ComState, ConnectState, connected, communicating, init, running, bootloader_state1,
  bootloader_state_end,
}
use aelebdwif01_dongle.UnitComm.Parse.{
  polling_base_data_parse, polling_of, debug_of, write_eeprom_data_parse,
}
use aelebdwif01_dongle.Eeprom.{info, set_temp}
use aelebdwif01_dongle.UnitComm.Boot.{encode_words}
use aelebdwif01_dongle.UnitComm.Firmware.{
  sent, send_blocks, at_position, decode_words, firmware_sent,
}
use aelebdwif01_dongle.UnitComm.Mirror.{parse_replies, InSome, Agrees, replies_mirror}
use aelebdwif01_dongle.UnitComm.Counters.{is_changed, request_index-polling, request_index-write}
use aelebdwif01_dongle.UnitComm.Schedule.{Request, read_section, write_section, button}
use aelebdwif01_dongle.UnitComm.Drain.{requests_of}
use aelebdwif01_dongle.UnitComm.Answers.{IsReply, IsReady, exchanges, exchanges_end}
use aelebdwif01_dongle.UnitComm.Task.{task_rounds}
use aelebdwif01_dongle.UnitComm.Alarms.{Raises, in_alarm-polling}
use aelebdwif01_dongle.UnitComm.Stalled.{IsSteady, IsStalled}
use aelebdwif01_dongle.UnitComm.Stall.{stalls_for_good}

-- A clock that reads a quarter of a second more each time, up to an hour.
abbrev pub test_env : Env
test_env = record {
  clock = λ n. if ltb n 14400 then n * 250 else 3600000;
  stack = λ n. replicate 128 165;
  fseek_works = true;
}

-- The task in a state, with an index of requests.
abbrev pub test_comm : ComState → ConnectState → ℕ → Comm
test_comm c state index = record {
  serial = record {
    uart = record { rx_available = 0; rx_cache = zeros 128 };
    rx_ptr = none;
    rx_buf_tail = 0;
    buff_ser1 = zeros 128;
    numbytes_received = 0;
    bootloader_mode = false;
    ack_received = false;
  };
  board = record { serial_number = zeros 20; serial_number_size = 0; error = 0 };
  com_state = c;
  current_state = state;
  found_com_link = true;
  retries_counter = 1;
  global_timeout = 0;
  eeprom = zeros 241;
  polling = polling_of (zeros 128);
  debug = debug_of (zeros 128);
  global = record {
    in_alarm = false;
    filter_in_alarm = false;
    running_mode = running;
    polling_base_timer = 0;
    polling_debug_timer = 0;
    last_received_timer = 0;
  };
  boot = record { file = none; handle = none; filesize = 0; file_start = 0; bytes_transfered = 0 };
  request_index = index;
  eeprom_data_received = false;
  address_set = false;
  is_mqtt_ready = false;
  unit_update_counter = 0;
  unit_partition_state = false;
  unit_update_task_flag = false;
  bootloader_state_flag = false;
  reads = 0;
  trace = [];
}

-- A polling message with events 10 and 12.
abbrev polling_message : List ℕ
polling_message = zeros 33 ++ (32 ∷ 0 ∷ 4 ∷ zeros 92)

length-polling_message : length polling_message ≡ 128
unfolding zeros
length-polling_message = refl

in_alarm-polling_example :
    ((polling_base_data_parse test_env polling_message (test_comm connected init 0)).global.in_alarm
      ≡ true)
    ↔ ((j : ℕ) × (j < 13) × Raises j (get_or polling_message (23 + j) 0))
in_alarm-polling_example =
    in_alarm-polling test_env polling_message (test_comm connected init 0) length-polling_message

IsSteady-test_env : IsSteady test_env
IsSteady-test_env n = ground arith

abbrev stalled_comm : Comm
stalled_comm = record (test_comm connected init 0) { eeprom_data_received = true }

stalled : IsStalled test_env [] stalled_comm
stalled = record {
  is_connected = refl;
  is_running = refl;
  is_outstanding = refl;
  no_bytes = refl;
  no_message = refl;
  no_update = omega arith;
  same_calls = refl;
  ordered = omega arith;
  past = omega arith;
}

stalls_for_good_example :
    (t : Comm) × (task_rounds 1000 test_env stalled_comm ≡ some t) × IsStalled test_env [] t
stalls_for_good_example = stalls_for_good test_env 1000 stalled_comm IsSteady-test_env stalled

-- A firmware of 20 bytes.
abbrev firmware : List ℕ
firmware =
    1 ∷ 2 ∷ 3 ∷ 4 ∷ 5 ∷ 6 ∷ 7 ∷ 8 ∷ 9 ∷ 10 ∷ 11 ∷ 12 ∷ 13 ∷ 14 ∷ 15 ∷ 16 ∷ 250 ∷ 251 ∷ 252 ∷ 253
    ∷ []

-- The last word goes in reverse.
last_word : encode_words 1 (drop 16 firmware) ≡ codes "?=?<?;?:"
unfolding encode_words
last_word = refl

firmware_sent_example :
    let t =
      send_blocks 2 (at_position firmware 0 0 (test_comm communicating bootloader_state1 0)) in
    (sent t.trace ≡ [] ++ encode_words 5 firmware)
    × (decode_words (encode_words 5 firmware) ≡ firmware)
    × (t.current_state ≡ bootloader_state_end)
firmware_sent_example =
    firmware_sent 1 0 1 firmware (test_comm communicating bootloader_state1 0) (omega arith)
      (omega arith) (omega arith) (omega arith)

-- The image of a unit.
abbrev unit_image : List ℕ
unit_image = replicate 241 7

replies_mirror_example :
    (e : List ℕ) × (parse_replies unit_image (info ∷ set_temp ∷ []) (test_comm connected init 0)
      ≡ some (record (test_comm connected init 0) { eeprom = e }))
    × (length e ≡ length unit_image)
    × ((i : ℕ)
        → InSome (info ∷ set_temp ∷ []) i ⊎ Agrees unit_image (zeros 241) i
        → Agrees unit_image e i)
replies_mirror_example =
    replies_mirror unit_image (info ∷ set_temp ∷ []) (test_comm connected init 0)
      (rw sizeof_eeprom_lem (length-replicate {A = ℕ} 241 7))
      (length-zeros 241 ∙ sym (length-replicate {A = ℕ} 241 7))

-- A reply with 200 bytes for address 100.
abbrev overlong_reply : List ℕ
overlong_reply = 115 ∷ 109 ∷ 6 ∷ 82 ∷ 100 ∷ 200 ∷ zeros 122

request_index-polling_example :
    test_bit 0
      (polling_base_data_parse test_env polling_message (test_comm connected init 4)).request_index
    ≡ (is_changed 38 polling_message (zeros 241) 0 || test_bit 0 4)
request_index-polling_example =
    request_index-polling test_env polling_message (test_comm connected init 4) 0

request_index-write_example :
    test_bit 2 (write_eeprom_data_parse overlong_reply (test_comm connected init 4)).request_index
    ≡ (is_changed 7 overlong_reply (zeros 241) 2 || test_bit 2 4)
request_index-write_example = request_index-write overlong_reply (test_comm connected init 4) 2

-- A unit whose settings changed: it replies to a write with new counters, to a read with one byte.
abbrev replying : ℕ → Request → List ℕ
replying n (read_section sec) = 115 ∷ 109 ∷ 7 ∷ 82 ∷ 0 ∷ 1 ∷ zeros 122
replying n (write_section sec) = 115 ∷ 109 ∷ 11 ∷ 87 ∷ 0 ∷ 0 ∷ 48 ∷ 1 ∷ 2 ∷ 3 ∷ 4 ∷ zeros 117
replying n button = []

replying-IsReply : (n : ℕ) (q : Request) → IsReply q (replying n q)
replying-IsReply n (read_section sec) =
    (refl, rw sizeof_eeprom_lem (omega arith), omega (arith, length-zeros 122))
replying-IsReply n (write_section sec) = refl
replying-IsReply n button = tt

-- The bits 1 and 13.
at_bit : (j k : ℕ) → j ≡ k → test_bit k 8194 ≡ false → test_bit j 8194 ≡ false
at_bit j k e h = ap (λ i. test_bit i 8194) e ∙ h

unpressed_busy : (j : ℕ) → 4 ≤ j → j < 10 → test_bit j 8194 ≡ false
unpressed_busy j lo hi = elim (lt_or_le j 5) [
  | inl a ↦ at_bit j 4 (omega arith) refl
  | inr a4 ↦ elim (lt_or_le j 6) [
    | inl a ↦ at_bit j 5 (omega arith) refl
    | inr a5 ↦ elim (lt_or_le j 7) [
      | inl a ↦ at_bit j 6 (omega arith) refl
      | inr a6 ↦ elim (lt_or_le j 8) [
        | inl a ↦ at_bit j 7 (omega arith) refl
        | inr a7 ↦ elim (lt_or_le j 9) [
          | inl a ↦ at_bit j 8 (omega arith) refl
          | inr a8 ↦ at_bit j 9 (omega arith) refl
        ]
      ]
    ]
  ]
]

busy : IsReady (test_comm connected init 8194)
busy = record {
  none_outstanding = refl;
  whole_image = rw sizeof_eeprom_lem (length-zeros 241);
  unpressed = unpressed_busy;
}

exchanges_end_example :
    (t : Comm) × (exchanges replying 35 test_env (test_comm connected init 8194) ≡ some t)
    × IsReady t
    × (requests_of t.request_index ≡ [])
exchanges_end_example =
    exchanges_end test_env (λ i. length-replicate {A = ℕ} 128 165) replying replying-IsReply
      (test_comm connected init 8194) busy
