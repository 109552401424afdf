-- ===== src/Ble/Provision/Overwritten.antt =====
-- A request that src/mqtt_app.c applies while the app still writes replaces what src/ble.c sends: the
-- chunks' credentials live in the variables that the manager sets.
use aelebdwif01_dongle.Prelude.{
  ℕ, ◌<◌, ◌≡◌, ap, ◌∙◌, List, Bool, true, false, ◌&&◌, some, arith, take, take-take,
}
use aelebdwif01_dongle.Wifi.{max_ssid_length, max_password_length}
use aelebdwif01_dongle.Wifi.Storage.{writable}
use aelebdwif01_dongle.Wifi.Release.{IsSettled}
use aelebdwif01_dongle.Wifi.Queue.{QueueLaws}
use aelebdwif01_dongle.Wifi.Manager.{Request, wifi_req_queue_len, queue_or, is_empty}
use aelebdwif01_dongle.Wifi.Apply.{ApplyEnv, apply_wifi_request, unchanged, credentials_of}
use aelebdwif01_dongle.Wifi.Apply.Branches.{apply_wifi_request_lem}
use aelebdwif01_dongle.Ble.Provision.{Provision, EventEnv, connect_to_cloud, packet_len}
use aelebdwif01_dongle.Ble.Provision.Events.{event, write}
use aelebdwif01_dongle.Ble.Provision.Requested.{IsComplete, Requested, event-Requested, ble_request}

-- The state after the manager has applied a request.
unfoldable pub after_apply :
    {Queue : Type 0} → ApplyEnv → Request → Provision Queue → Provision Queue
after_apply env r p = record p { manager = (apply_wifi_request env r p.manager).1 }

module _ {Queue : Type 0} (env : EventEnv Queue) (laws : QueueLaws env.api wifi_req_queue_len)
    (apply_env : ApplyEnv) (r : Request) where
  -- With both packets filled, a queue, and a station that runs or no connection: when a request with an
  -- SSID, which need not be stored or can be, is tried between the last chunk and the request for a connection, the
  -- latter queues the credentials of the former, whatever the packets hold.
  pub event-overwritten :
      (value : List ℕ) (need_rsp : Bool) (p : Provision Queue) (q : Queue)
      → IsSettled p.manager.net
      → unchanged r p.manager ≡ false
      → (r.persist_to_nvs ≡ true
          → (writable apply_env.write_ssid && writable apply_env.write_pass) ≡ true)
      → 0 < packet_len p.ssid_packet
      → 0 < packet_len p.password_packet
      → is_empty (take max_ssid_length r.ssid) ≡ false
      → queue_or (after_apply apply_env r p).manager.req_queue env.created_queue ≡ some q
      → Requested env laws q
          (after_apply apply_env r p)
          (event env (write connect_to_cloud value need_rsp) (after_apply apply_env r p))
        × ((ble_request env laws (after_apply apply_env r p)).ssid ≡ take max_ssid_length r.ssid)
        × ((ble_request env laws (after_apply apply_env r p)).password
            ≡ take max_password_length r.password)
  unfolding after_apply
  event-overwritten value need_rsp p q s u w n1 n2 g e = (
    event-Requested env laws value need_rsp (after_apply apply_env r p) q complete e,
    ap (λ x. take max_ssid_length x.ssid) set
        ∙ take-take max_ssid_length max_ssid_length r.ssid (omega arith),
    ap (λ x. take max_password_length x.password) set
        ∙ take-take max_password_length max_password_length r.password (omega arith),
  )
    where
      set : (apply_wifi_request apply_env r p.manager).1.credentials ≡ credentials_of r
      set = (apply_wifi_request_lem apply_env r p.manager s u w).credentials_set

      complete : IsComplete (after_apply apply_env r p)
      complete = record {
        ssid_nonempty = n1;
        password_nonempty = n2;
        ssid_given = ap (λ x. is_empty x.ssid) set ∙ g;
      }
