-- ===== src/Wifi/Manager.antt =====
-- The Wi-Fi manager of src/mqtt_app.c: its state, the queue of requests, and how it is emptied.
pub mod Requests
use aelebdwif01_dongle.Prelude.{
  ℕ, zero, suc, ◌+◌, ◌-◌, ◌*◌, ◌%◌, ◌^◌, List, [], ◌∷◌, Bool, true, false, Option, none, some, not,
  ◌&&◌, ltb, ◌==◌, if◌then◌else◌,
}
use aelebdwif01_dongle.Wifi.{
  EspErr, esp_ok, is_ok, check, strlcpy, max_ssid_length, max_password_length,
}
use aelebdwif01_dongle.Wifi.Connect.{Net, ConnectEnv, wifi_connect, wifi_disconnect}
use aelebdwif01_dongle.Wifi.Storage.{
  Nvs, NvsEnv, Credentials, wifi_ssid, wifi_pass, nvs_write_string,
}
use aelebdwif01_dongle.Wifi.Queue.{QueueApi}

abbrev pub wifi_req_queue_len : ℕ
wifi_req_queue_len = 8

-- `wifi_manager_state_t`
pub data ManagerState : Type 0 where
  idle applying connected failed : ManagerState

-- `wifi_request_t`
pub record Request : Type 0 where
  pub ssid : List ℕ
  pub password : List ℕ
  pub persist_to_nvs : Bool
  pub request_id : ℕ
  pub enqueue_tick : ℕ
  pub source : List ℕ

-- The file's variables, the credentials, the storage and the station. The queue is NULL or stands.
-- `waits` lists the ticks of the delays, the latest first, and `connects` counts the
-- connections that were tried.
pub record Manager (Queue : Type 0) : Type 0 where
  pub req_queue : Option Queue
  pub manager_state : ManagerState
  pub request_counter : ℕ
  pub last_apply_tick : ℕ
  pub credentials : Credentials
  pub nvs : Nvs
  pub net : Net
  pub waits : List ℕ
  pub connects : ℕ
  pub is_mqtt_ready : Bool
  pub mqtt_starts : ℕ

abbrev pub is_empty : List ℕ → Bool
is_empty [] = true
is_empty (x ∷ xs) = false

-- `while (xQueueReceive(...) == pdTRUE)`: the end, or the next turn with the request.
abbrev pub keep_draining {ℓ} : {A : Type ℓ} → Option Request → A → (Request → A) → A
keep_draining none end turn = end
keep_draining (some r) end turn = turn r

module _ {Queue : Type 0} where
  -- The request that `mqtt_enqueue_wifi_credentials` builds.
  abbrev pub request_of : ℕ → List ℕ → List ℕ → Bool → List ℕ → Manager Queue → Request
  request_of tick ssid password persist_to_nvs source m = record {
    ssid = strlcpy (max_ssid_length + 1) ssid;
    password = strlcpy (max_password_length + 1) password;
    persist_to_nvs = persist_to_nvs;
    request_id = (m.request_counter + 1) % 2 ^ 32;
    enqueue_tick = tick;
    source = strlcpy 16 source;
  }

  -- `xQueueSend`, and when the queue is full, the oldest request is dropped first.
  unfoldable pub send_latest : QueueApi Queue Request → Request → Queue → Bool × Queue
  send_latest api r q =
      let sent = api.send r q in
      if sent.0 then (true, sent.1) else api.send r (api.receive sent.1).1

  -- The queue, which is created when it is NULL.
  abbrev pub queue_or : Option Queue → Option Queue → Option Queue
  queue_or none created = created
  queue_or (some q) created = some q

  module _ (api : QueueApi Queue Request) (tick : ℕ) (ssid password : List ℕ)
      (persist_to_nvs : Bool) (source : List ℕ) where
    unfoldable pub enqueue_into : Option Queue → Manager Queue → Bool × Manager Queue
    unfolding send_latest
    enqueue_into none m = (false, m)
    enqueue_into (some q) m =
        let m1 = record m { req_queue = some q } in
        let sent = send_latest api (request_of tick ssid password persist_to_nvs source m) q in
        if is_empty ssid then (false, m1) else (
          sent.0,
          record m1 { req_queue = some sent.1; request_counter = (m.request_counter + 1) % 2 ^ 32 },
        )

    -- `mqtt_enqueue_wifi_credentials`, with the queue that `xQueueCreate` gives; no caller passes
    -- NULL for a string.
    unfoldable pub mqtt_enqueue_wifi_credentials :
        Option Queue → Manager Queue → Bool × Manager Queue
    unfolding enqueue_into
    mqtt_enqueue_wifi_credentials created m = enqueue_into (queue_or m.req_queue created) m

  -- The loop that empties the queue and keeps the last request, with fuel.
  unfoldable pub drain : ℕ → QueueApi Queue Request → Request → Queue → Option (Request × Queue)
  drain zero api latest q = none
  drain (suc fuel) api latest q =
      let received = api.receive q in
      keep_draining received.0 (some (latest, received.1)) (λ r. drain fuel api r received.1)
