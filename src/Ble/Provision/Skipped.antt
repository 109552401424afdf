-- ===== src/Ble/Provision/Skipped.antt =====
-- New credentials that the app writes over src/ble.c while the station is connected never take effect:
-- the handlers write them where src/mqtt_app.c looks for the credentials in use.
use aelebdwif01_dongle.Prelude.{
  ℕ, ◌+◌, ◌%◌, ◌^◌, ◌≡◌, ◌≤◌, refl, sym, ap, ◌∙◌, List, [], Bool, true, some, length, take_all,
}
use aelebdwif01_dongle.Prelude.Latest.{latest-last}
use aelebdwif01_dongle.Wifi.{esp_ok, max_ssid_length, max_password_length}
use aelebdwif01_dongle.Wifi.Queue.{QueueLaws}
use aelebdwif01_dongle.Wifi.Manager.{Manager, connected, wifi_req_queue_len, queue_or}
use aelebdwif01_dongle.Wifi.Apply.{ApplyEnv, start_client, task_round}
use aelebdwif01_dongle.Wifi.Apply.Rounds.{round_last, apply_wifi_request_skipped}
use aelebdwif01_dongle.Ble.Provision.{Provision, EventEnv, connect_to_cloud}
use aelebdwif01_dongle.Ble.Provision.Events.{event, write}
use aelebdwif01_dongle.Ble.Provision.Requested.{IsComplete, event-Requested, ble_request}

module _ {Queue : Type 0} (env : EventEnv Queue) (laws : QueueLaws env.api wifi_req_queue_len)
    (apply_env : ApplyEnv) (fuel : ℕ) where
  -- The round only empties the queue and sets the state: no connection, no storage.
  unfoldable pub Skips : Manager Queue → Type 0
  Skips m =
      (q : Queue) × ((q2 : Queue) × (m.req_queue ≡ some q)
        × (laws.contents q2 ≡ [])
        × (task_round fuel env.api apply_env q m
            ≡ some (
                start_client
                  (esp_ok, record m { req_queue = some q2; manager_state = connected }))))

  -- While the station is connected, and with both packets filled, an SSID, and a queue: the round with
  -- fuel for eight requests that follows the request for a connection skips it, whatever credentials
  -- of proper length the app has written.
  pub event-Skips :
      (value : List ℕ) (need_rsp : Bool) (p : Provision Queue) (q : Queue)
      → IsComplete p
      → queue_or p.manager.req_queue env.created_queue ≡ some q
      → p.manager.net.wifi_connected_flag ≡ true
      → length p.manager.credentials.ssid ≤ max_ssid_length
      → length p.manager.credentials.password ≤ max_password_length
      → wifi_req_queue_len ≤ fuel
      → Skips (event env (write connect_to_cloud value need_rsp) p).manager
  unfolding Skips
  event-Skips value need_rsp p q c e f h1 h2 h =
      let k = event-Requested env laws value need_rsp p q c e in
      let r = ble_request env laws p in
      let m1 : Manager Queue = record p.manager {
        req_queue = some k.queue_after;
        request_counter = (p.manager.request_counter + 1) % 2 ^ 32;
      } in
      let a =
        round_last env.api laws apply_env fuel m1 (laws.contents q) r k.queue_after
          (k.request_queued ∙ latest-last 7 r (laws.contents q)) h in
      let skipped =
        apply_wifi_request_skipped apply_env r (record m1 { req_queue = some a.0 }) f
          (sym (take_all max_ssid_length p.manager.credentials.ssid h1))
          (sym (take_all max_password_length p.manager.credentials.password h2)) in
      rw (k.manager_after)
        (k.queue_after, (a.0, refl, a.1, a.2 ∙ ap (λ x. some (start_client x)) skipped))
