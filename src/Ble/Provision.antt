-- ===== src/Ble/Provision.antt =====
-- The provisioning of src/ble.c: the app writes an SSID and a password in chunks and asks for a
-- connection, and each handler tells the app the state it has reached.
pub mod Events
pub mod Packets
pub mod Requested
pub mod Skipped
pub mod Overwritten
pub mod Collected
pub mod Provisioned
pub mod Tests
use aelebdwif01_dongle.Prelude.{
  ℕ, ◌+◌, ◌-◌, ◌*◌, ◌^◌, List, [], ◌∷◌, ◌++◌, Bool, true, false, Option, none, some, ◌&&◌, ◌||◌,
  not, length, take, ltb, ◌==◌, get_or, c_string, codes, if◌then◌else◌,
}
use aelebdwif01_dongle.Wifi.{max_ssid_length, max_password_length}
use aelebdwif01_dongle.Wifi.Queue.{QueueApi}
use aelebdwif01_dongle.Wifi.Manager.{Manager, Request, mqtt_enqueue_wifi_credentials}

-- `ble_packet_append`. A packet is NULL or its bytes; `allocated` is whether malloc or realloc
-- gives memory. The first chunk is not compared with the maximum.
unfoldable pub ble_packet_append : Bool → ℕ → List ℕ → Option (List ℕ) → Bool × Option (List ℕ)
ble_packet_append allocated max_len chunk none =
    if allocated then (true, some chunk) else (false, none)
ble_packet_append allocated max_len chunk (some bytes) =
    if ltb max_len (length bytes + length chunk)
    then (false, none)
    else (if allocated then (true, some (bytes ++ chunk)) else (false, none))

-- `packet.len`
abbrev pub packet_len : Option (List ℕ) → ℕ
packet_len none = 0
packet_len (some bytes) = length bytes

-- `ble_packet_copy_to_string`: the string that the array then holds.
abbrev pub ble_packet_copy_to_string : ℕ → Option (List ℕ) → List ℕ
ble_packet_copy_to_string out_size none = []
ble_packet_copy_to_string out_size (some bytes) = c_string (take (out_size - 1) bytes)

-- `prov_state_t`
pub data ProvState : Type 0 where
  idle wait_ssid wait_password ready applying done error booting runtime_ready : ProvState

-- The states that start the timer again.
abbrev pub is_timed : ProvState → Bool
is_timed wait_ssid = true
is_timed wait_password = true
is_timed ready = true
is_timed _ = false

-- The characteristics that are written.
pub data Handle : Type 0 where
  wifi_ssid wifi_password connect_to_cloud other : Handle

-- The variables of the file, and those of the manager. The timer is NULL or runs or not; `sent` lists
-- the indications, the latest first, and `responses` counts the responses to writes.
pub record Provision (Queue : Type 0) : Type 0 where
  pub ssid_packet : Option (List ℕ)
  pub password_packet : Option (List ℕ)
  pub prov_state : ProvState
  pub status_notify : Bool
  pub conn_id : ℕ
  pub gatts_if : Option ℕ
  pub prov_timer : Option Bool
  pub is_runtime_ready : Bool
  pub sent : List ProvState
  pub responses : ℕ
  pub manager : Manager Queue

-- What surrounds one event: the queue's calls, the tick, and what can be created or allocated.
pub record EventEnv (Queue : Type 0) : Type 0 where
  pub api : QueueApi Queue Request
  pub created_queue : Option Queue
  pub tick : ℕ
  pub timer_created : Bool
  pub allocated : Bool

module _ {Queue : Type 0} (env : EventEnv Queue) where
  -- `ble_prov_timer_reset`
  abbrev pub ble_prov_timer_reset : Provision Queue → Provision Queue
  ble_prov_timer_reset p = record p {
    prov_timer = elim p.prov_timer [
      | none ↦ if env.timer_created then some true else none
      | some running ↦ some true
    ];
  }

  -- `xTimerStop`, if there is a timer.
  abbrev pub stop_timer : Provision Queue → Provision Queue
  stop_timer p = record p {
    prov_timer = elim p.prov_timer [ none ↦ none | some running ↦ some false ];
  }

  -- The indication of `ble_set_prov_status`.
  abbrev pub indicate : ProvState → Provision Queue → Provision Queue
  indicate s p = record p {
    sent =
        if p.status_notify && elim p.gatts_if [ none ↦ false | some i ↦ true ]
        then s ∷ p.sent
        else p.sent;
  }

  -- `ble_set_prov_status`
  unfoldable pub ble_set_prov_status : ProvState → Provision Queue → Provision Queue
  ble_set_prov_status s p =
      let p1 = indicate s (record p { prov_state = s }) in
      if is_timed s then ble_prov_timer_reset p1 else stop_timer p1

  -- `ble_packet_reset` of both packets.
  abbrev pub reset_packets : Provision Queue → Provision Queue
  reset_packets p = record p { ssid_packet = none; password_packet = none }

  -- `ble_prov_timeout_callback`
  unfoldable pub ble_prov_timeout_callback : Provision Queue → Provision Queue
  unfolding ble_set_prov_status
  ble_prov_timeout_callback p = ble_set_prov_status error (reset_packets p)

  -- `ble_prov_reset`
  unfoldable pub ble_prov_reset : Provision Queue → Provision Queue
  unfolding ble_set_prov_status
  ble_prov_reset p = ble_set_prov_status wait_ssid (reset_packets p)

  -- `ble_set_runtime_ready`
  unfoldable pub ble_set_runtime_ready : Bool → Provision Queue → Provision Queue
  unfolding ble_set_prov_status
  ble_set_runtime_ready b p =
      ble_set_prov_status (if b then runtime_ready else booting) (record p { is_runtime_ready = b })

  -- The call of `mqtt_enqueue_wifi_credentials` with `WIFI_SSID` and `WIFI_PASSWORD`.
  unfoldable pub enqueue : List ℕ → Provision Queue → Bool × Provision Queue
  enqueue source p =
      let c = p.manager.credentials in
      let queued =
        mqtt_enqueue_wifi_credentials env.api env.tick c.ssid c.password true source
          env.created_queue p.manager in
      (queued.0, record p { manager = queued.1 })

  -- `(void)mqtt_enqueue_wifi_credentials(..., "ble-auto")`
  abbrev pub enqueue_auto : Provision Queue → Provision Queue
  enqueue_auto p = (enqueue (codes "ble-auto") p).1

  -- What follows a chunk of the SSID that was appended.
  unfoldable pub take_ssid : Option (List ℕ) → Provision Queue → Provision Queue
  unfolding enqueue ble_set_prov_status
  take_ssid packet p =
      let ssid = ble_packet_copy_to_string (max_ssid_length + 1) packet in
      let m = p.manager in
      let p1 = record p {
        ssid_packet = packet;
        manager = record m { credentials = record m.credentials { ssid = ssid } };
      } in
      if ltb 0 (packet_len p.password_packet)
      then enqueue_auto (ble_set_prov_status ready p1)
      else ble_set_prov_status wait_password p1

  -- What follows a chunk of the password that was appended.
  unfoldable pub take_password : Option (List ℕ) → Provision Queue → Provision Queue
  unfolding enqueue ble_set_prov_status
  take_password packet p =
      let password = ble_packet_copy_to_string (max_password_length + 1) packet in
      let m = p.manager in
      let p1 = record p {
        password_packet = packet;
        manager = record m { credentials = record m.credentials { password = password } };
      } in
      if packet_len p.ssid_packet == 0
      then ble_set_prov_status wait_ssid p1
      else enqueue_auto (ble_set_prov_status ready p1)

  -- The request for a connection.
  unfoldable pub connect_to_cloud_written : Provision Queue → Provision Queue
  unfolding enqueue ble_set_prov_status
  connect_to_cloud_written p =
      let queued = enqueue (codes "ble") (ble_set_prov_status applying p) in
      if packet_len p.ssid_packet == 0 || packet_len p.password_packet == 0
      then ble_set_prov_status error p
      else (if queued.0
          then reset_packets (ble_set_prov_status done queued.1)
          else ble_set_prov_status error queued.1)

  -- The response at the end of `handle_write_event`.
  abbrev pub respond : Bool → Provision Queue → Provision Queue
  respond need_rsp p = record p { responses = if need_rsp then p.responses + 1 else p.responses }

  -- A write to a characteristic of `handle_write_event`: a chunk that is not appended ends it.
  unfoldable pub written : Handle → List ℕ → Bool → Provision Queue → Provision Queue
  unfolding ble_packet_append take_ssid take_password connect_to_cloud_written ble_set_prov_status
  written wifi_ssid value need_rsp p =
      let a = ble_packet_append env.allocated max_ssid_length value p.ssid_packet in
      if a.0
      then respond need_rsp (take_ssid a.1 p)
      else ble_set_prov_status error (record p { ssid_packet = a.1 })
  written wifi_password value need_rsp p =
      let a = ble_packet_append env.allocated max_password_length value p.password_packet in
      if a.0
      then respond need_rsp (take_password a.1 p)
      else ble_set_prov_status error (record p { password_packet = a.1 })
  written connect_to_cloud value need_rsp p = respond need_rsp (connect_to_cloud_written p)
  written other value need_rsp p = respond need_rsp p

  -- `handle_write_event`
  unfoldable pub handle_write_event : Handle → List ℕ → Bool → Provision Queue → Provision Queue
  unfolding written
  handle_write_event handle value need_rsp p =
      written handle value need_rsp (ble_prov_timer_reset p)
