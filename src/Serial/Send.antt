-- ===== src/Serial/Send.antt =====
-- `Write_Message` of src/WBM_Serial.c, and the message layout that it is to produce.
use aelebdwif01_dongle.Prelude.{
  ℕ, ◌+◌, ◌/◌, ◌%◌, ◌^◌, List, [], ◌∷◌, ◌++◌, Option, none, some, length, get_or, set, take, ltb,
  if◌then◌else◌,
}
use aelebdwif01_dongle.Serial.{
  proto_start_msg_0, proto_start_msg_1, ihm1_start_msg_0, ihm1_start_msg_1, ihm1_pos_crc_lo,
}
use aelebdwif01_dongle.Serial.Checksum.{calc_cksum_16}

abbrev pub low_byte : ℕ → ℕ
low_byte w = w % 2 ^ 8

abbrev pub high_byte : ℕ → ℕ
high_byte w = w / 2 ^ 8

-- `Write_Message`: the bytes handed to `Uart_Write`. It is `none` where the checksum would be
-- written outside of the buffer.
unfoldable pub write_message : List ℕ → Option (List ℕ)
unfolding calc_cksum_16
write_message buff =
    let b1 = set (set buff ihm1_start_msg_0 proto_start_msg_0) ihm1_start_msg_1 proto_start_msg_1 in
    let i = get_or b1 ihm1_pos_crc_lo 0 in
    let len = (i + 2) % 2 ^ 7 in
    let cksum16 = calc_cksum_16 b1 i in
    let b2 = set (set b1 i (low_byte cksum16)) (i + 1) (high_byte cksum16) in
    if ltb (i + 1) (length buff) then some (take len b2) else none

-- The bytes of a message before its checksum.
abbrev pub body : ℕ → List ℕ → List ℕ
body comand payload =
    proto_start_msg_0 ∷ proto_start_msg_1 ∷ (4 + length payload) ∷ comand ∷ payload

-- The message that carries a command with its payload, as the protocol's tables lay it out.
abbrev pub frame : ℕ → List ℕ → List ℕ
frame comand payload =
    let cksum16 = calc_cksum_16 (body comand payload) (4 + length payload) in
    body comand payload ++ (low_byte cksum16 ∷ high_byte cksum16 ∷ [])
