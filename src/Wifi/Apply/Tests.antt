-- ===== src/Wifi/Apply/Tests.antt =====
-- Examples of the Wi-Fi manager, with a queue made of a list.
use aelebdwif01_dongle.Prelude.{
  ℕ, zero, suc, ◌+◌, ◌/◌, ◌≡◌, ◌≤◌, refl, List, [], ◌∷◌, ◌++◌, true, false, Option, none, some, inl,
  arith, codes, take, take_all, length, length-take, length-append, ltb, lt→ltb, le→ltb,
  if◌then◌else◌,
}
use aelebdwif01_dongle.Wifi.{esp_ok, no_mem, is_ok}
use aelebdwif01_dongle.Wifi.Connect.{ConnectEnv}
use aelebdwif01_dongle.Wifi.Storage.{NvsEnv, read_wifi_credentials_from_nvs}
use aelebdwif01_dongle.Wifi.Queue.{QueueApi, QueueLaws}
use aelebdwif01_dongle.Wifi.Manager.{
  Manager, ManagerState, Request, wifi_req_queue_len, mqtt_enqueue_wifi_credentials,
}
use aelebdwif01_dongle.Wifi.Manager.Requests.{Enqueued, mqtt_enqueue_wifi_credentials_lem, send_all}
use aelebdwif01_dongle.Wifi.Apply.{ApplyEnv, credentials_of, apply_wifi_request, task_round}
use aelebdwif01_dongle.Wifi.Apply.Branches.{
  Tried, Kept, stored, apply_wifi_request_lem, apply_wifi_request-unstored, apply_wifi_request-Kept,
}
use aelebdwif01_dongle.Wifi.Apply.Restart.{read-apply_wifi_request}
use aelebdwif01_dongle.Wifi.Apply.Rounds.{Applies, task_round-send_all}
use aelebdwif01_dongle.Wifi.Tests.{idle, idle-IsIdle, reachable, without_netif}

-- A list of which the first eight items count.
unfoldable pub list_receive : List Request → Option Request × List Request
list_receive [] = (none, [])
list_receive (r ∷ rs) = (some r, rs)

unfoldable pub list_queue : QueueApi (List Request) Request
unfolding list_receive
list_queue = record {
  send = λ r q. if ltb (length (take 8 q)) 8 then (true, take 8 q ++ (r ∷ [])) else (false, q);
  receive = λ q. list_receive (take 8 q);
}

pub list_queue_laws : QueueLaws list_queue wifi_req_queue_len
unfolding list_queue
list_queue_laws = record {
  contents = take 8;
  contents_bound = λ q. rw (length-take 8 q) (omega arith);
  send_room = λ r q h.
      let l : length (take 8 q ++ (r ∷ [])) ≤ 8 =
        rw (length-append (take 8 q) (r ∷ [])) (omega arith) in
      rw (lt→ltb h) (refl, take_all 8 (take 8 q ++ (r ∷ [])) l);
  send_full = λ r q h. rw (le→ltb h) (refl, refl);
  receive_none = λ q e. rw e (refl, refl);
  receive_some = λ r rest q e.
      let l : length (take 8 q) ≤ 8 = rw (length-take 8 q) (omega arith) in
      let n : length (r ∷ rest) ≤ 8 = rw e at l in rw e (refl, take_all 8 rest (omega arith));
}

abbrev storing : NvsEnv
storing = record {
  open_answer = esp_ok;
  set_answer = esp_ok;
  commit_answer = esp_ok;
  get_answer = esp_ok;
}

abbrev pub started : Manager (List Request)
started = record {
  req_queue = none;
  manager_state = ManagerState.idle;
  request_counter = 0;
  last_apply_tick = 0;
  credentials = record { ssid = codes "old"; password = codes "secret" };
  nvs = record { stored_ssid = none; stored_pass = none };
  net = idle;
  waits = [];
  connects = 0;
  is_mqtt_ready = false;
  mqtt_starts = 0;
}

-- The first attempt fails, the second works.
abbrev second_try : ℕ → ConnectEnv
second_try zero = without_netif
second_try (suc i) = reachable

abbrev pub environment : ApplyEnv
environment = record {
  now = 1000;
  ms_to_ticks = λ ms. ms / 10;
  write_ssid = storing;
  write_pass = storing;
  attempts = second_try;
  disconnecting = record { wifi_stop = true; wifi_deinit = true };
  tick_after = λ i. 1000 + i;
}

-- The password cannot be stored.
abbrev without_room : ApplyEnv
without_room = record environment { write_pass = record storing { set_answer = no_mem } }

abbrev pub home : Request
home = record {
  ssid = codes "home";
  password = codes "sweet";
  persist_to_nvs = true;
  request_id = 1;
  enqueue_tick = 990;
  source = codes "ble";
}

abbrev pub guest : Request
guest = record home { ssid = codes "guest"; persist_to_nvs = false }

apply_wifi_request_lem_example :
    Tried environment home 0 []
      (stored home started.nvs)
      (apply_wifi_request environment home started)
apply_wifi_request_lem_example =
    apply_wifi_request_lem environment home started (inl idle-IsIdle) refl (λ _. refl)

apply_wifi_request-unstored_example :
    (is_ok (apply_wifi_request without_room home started).0 ≡ false)
    × ((apply_wifi_request without_room home started).1
        ≡ record started { nvs = record { stored_ssid = some (codes "home"); stored_pass = none } })
apply_wifi_request-unstored_example =
    apply_wifi_request-unstored without_room home started refl refl refl

apply_wifi_request-Kept_example :
    Kept environment home (apply_wifi_request environment home started)
apply_wifi_request-Kept_example = apply_wifi_request-Kept environment home started (inl idle-IsIdle)

task_round-send_all_example : Applies list_queue list_queue_laws environment 8 started home (
    task_round 8 list_queue environment
      (send_all list_queue list_queue_laws (guest ∷ guest ∷ home ∷ []) [])
      started)
task_round-send_all_example =
    task_round-send_all list_queue list_queue_laws environment 8 started (guest ∷ guest ∷ []) home
      [] (omega arith)

mqtt_enqueue_wifi_credentials_lem_example :
    Enqueued list_queue list_queue_laws 990
      (codes "home")
      (codes "sweet")
      true
      (codes "ble")
      (some [])
      started
      []
      (mqtt_enqueue_wifi_credentials list_queue 990
        (codes "home")
        (codes "sweet")
        true
        (codes "ble")
        (some [])
        started)
mqtt_enqueue_wifi_credentials_lem_example =
    mqtt_enqueue_wifi_credentials_lem list_queue list_queue_laws 990 (codes "home") (codes "sweet")
      true (codes "ble") (some []) started [] refl

read-apply_wifi_request_example :
    read_wifi_credentials_from_nvs storing storing
      (apply_wifi_request environment home started).1.nvs
      (credentials_of guest)
    ≡ (apply_wifi_request environment home started).1.credentials
read-apply_wifi_request_example =
    read-apply_wifi_request environment home started storing storing (credentials_of guest)
      (inl idle-IsIdle) refl refl refl (omega arith) (omega arith) refl refl
