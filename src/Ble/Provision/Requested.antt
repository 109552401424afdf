-- ===== src/Ble/Provision/Requested.antt =====
-- What the request for a connection of src/ble.c queues.
use aelebdwif01_dongle.Prelude.{
  if_holds, ℕ, ◌+◌, ◌%◌, ◌^◌, ◌<◌, ◌≡◌, refl, List, [], ◌∷◌, ◌++◌, Bool, true, false, ◌||◌, none,
  some, arith, codes, ◌==◌,
}
use aelebdwif01_dongle.Prelude.Latest.{latest}
use aelebdwif01_dongle.Wifi.Queue.{QueueLaws}
use aelebdwif01_dongle.Wifi.Manager.{
  Manager, Request, wifi_req_queue_len, mqtt_enqueue_wifi_credentials, queue_or, is_empty,
  request_of,
}
use aelebdwif01_dongle.Wifi.Manager.Requests.{mqtt_enqueue_wifi_credentials_lem}
use aelebdwif01_dongle.Ble.Provision.{
  Provision, EventEnv, ble_set_prov_status, enqueue, connect_to_cloud_written, written,
  handle_write_event, done, packet_len, connect_to_cloud, ble_prov_timer_reset,
}
use aelebdwif01_dongle.Ble.Provision.Events.{event, write}

-- Both packets hold something, and the SSID is not empty.
pub record IsComplete {Queue : Type 0} (p : Provision Queue) : Type 0 where
  pub ssid_nonempty : 0 < packet_len p.ssid_packet
  pub password_nonempty : 0 < packet_len p.password_packet
  pub ssid_given : is_empty p.manager.credentials.ssid ≡ false

module _ {Queue : Type 0} (env : EventEnv Queue) (laws : QueueLaws env.api wifi_req_queue_len) where
  -- The request that is queued.
  abbrev pub ble_request : Provision Queue → Request
  ble_request p =
      request_of env.tick p.manager.credentials.ssid p.manager.credentials.password true
        (codes "ble") p.manager

  -- The request is queued, the state is DONE, and the packets are released.
  pub record Requested (q : Queue) (p r : Provision Queue) : Type 0 where
    pub state_done : r.prov_state ≡ done
    pub no_ssid_packet : r.ssid_packet ≡ none
    pub no_password_packet : r.password_packet ≡ none
    pub queue_after : Queue
    pub manager_after : r.manager ≡ record p.manager {
      req_queue = some queue_after;
      request_counter = (p.manager.request_counter + 1) % 2 ^ 32;
    }
    pub request_queued :
        laws.contents queue_after
        ≡ latest wifi_req_queue_len (laws.contents q ++ (ble_request p ∷ []))

  connect_to_cloud_lem :
      (p : Provision Queue) (q : Queue)
      → IsComplete p
      → queue_or p.manager.req_queue env.created_queue ≡ some q
      → Requested q p (connect_to_cloud_written env p)
  unfolding connect_to_cloud_written enqueue ble_set_prov_status
  connect_to_cloud_lem p q c e =
      if_holds (Requested q p) (packet_len p.ssid_packet == 0 || packet_len p.password_packet == 0)
        _ _ (λ t. absurd (cc (t, complete)))
        (λ _.
          if_holds (Requested q p) queued.0 _ _
            (λ _. record {
              state_done = refl;
              no_ssid_packet = refl;
              no_password_packet = refl;
              queue_after = k.1.0;
              manager_after = k.1.1;
              request_queued = k.1.2;
            })
            (λ f. absurd (cc (f, k.0))))
    where
      queued : Bool × Manager Queue
      queued =
          mqtt_enqueue_wifi_credentials env.api env.tick p.manager.credentials.ssid
            p.manager.credentials.password true (codes "ble") env.created_queue p.manager

      complete : (packet_len p.ssid_packet == 0 || packet_len p.password_packet == 0) ≡ false
      complete = let h1 = c.ssid_nonempty in let h2 = c.password_nonempty in ground (arith, h1, h2)

      k :
          (queued.0 ≡ true)
          × ((q2 : Queue) × (queued.1 ≡ record p.manager {
            req_queue = some q2;
            request_counter = (p.manager.request_counter + 1) % 2 ^ 32;
          })
              × (laws.contents q2
                  ≡ latest wifi_req_queue_len (laws.contents q ++ (ble_request p ∷ []))))
      k =
          (mqtt_enqueue_wifi_credentials_lem env.api laws env.tick p.manager.credentials.ssid
              p.manager.credentials.password true (codes "ble") env.created_queue p.manager q e).1
            c.ssid_given

  -- The same of the whole event, the response and the timer included.
  pub event-Requested :
      (value : List ℕ) (need_rsp : Bool) (p : Provision Queue) (q : Queue)
      → IsComplete p
      → queue_or p.manager.req_queue env.created_queue ≡ some q
      → Requested q p (event env (write connect_to_cloud value need_rsp) p)
  unfolding event handle_write_event written
  event-Requested value need_rsp p q c e =
      let same : IsComplete (ble_prov_timer_reset env p) = record {
        ssid_nonempty = c.ssid_nonempty;
        password_nonempty = c.password_nonempty;
        ssid_given = c.ssid_given;
      } in
      let k = connect_to_cloud_lem (ble_prov_timer_reset env p) q same e in
      record {
        state_done = k.state_done;
        no_ssid_packet = k.no_ssid_packet;
        no_password_packet = k.no_password_packet;
        queue_after = k.queue_after;
        manager_after = k.manager_after;
        request_queued = k.request_queued;
      }
