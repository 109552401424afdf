-- ===== src/Ble/Provision/Provisioned.antt =====
-- The credentials that the app writes in chunks over src/ble.c are those that are queued.
use aelebdwif01_dongle.Prelude.{
  ℕ, ◌<◌, ◌≤◌, ◌≡◌, refl, sym, ap, ◌∙◌, List, [], ◌∷◌, ◌++◌, true, false, none, some, arith, take,
  take_all, length,
}
use aelebdwif01_dongle.Prelude.Latest.{latest, latest-last}
use aelebdwif01_dongle.Wifi.{max_ssid_length, max_password_length}
use aelebdwif01_dongle.Wifi.Storage.{Credentials}
use aelebdwif01_dongle.Wifi.Queue.{QueueLaws}
use aelebdwif01_dongle.Wifi.Manager.{Request, wifi_req_queue_len, is_empty}
use aelebdwif01_dongle.Ble.Provision.{
  Provision, EventEnv, done, wifi_ssid, wifi_password, connect_to_cloud,
}
use aelebdwif01_dongle.Ble.Provision.Events.{event, write}
use aelebdwif01_dongle.Ble.Provision.Packets.{
  concat, HasQueue, Holds, ssid_of, password_of, write_all,
}
use aelebdwif01_dongle.Ble.Provision.Requested.{IsComplete, event-Requested, ble_request}
use aelebdwif01_dongle.Ble.Provision.Collected.{
  moved-Holds, ssid_all, password_all, IsEntry, entry_text,
}

nonempty-is_empty : (xs : List ℕ) → 0 < length xs → is_empty xs ≡ false
nonempty-is_empty [] h = absurd (omega arith)
nonempty-is_empty (x ∷ xs) h = refl

module _ {Queue : Type 0} (env : EventEnv Queue) (laws : QueueLaws env.api wifi_req_queue_len) where
  -- The last request of the queue has these credentials and is to be stored; the app reads DONE.
  pub record Provisioned (ssid password : List ℕ) (p : Provision Queue) : Type 0 where
    pub state_done : p.prov_state ≡ done
    pub queue : Queue
    pub queue_stands : p.manager.req_queue ≡ some queue
    pub earlier : List Request
    pub request : Request
    pub request_last : laws.contents queue ≡ earlier ++ (request ∷ [])
    pub ssid_written : request.ssid ≡ ssid
    pub password_written : request.password ≡ password
    pub to_be_stored : request.persist_to_nvs ≡ true

  requested-Provisioned :
      (ssid password : List ℕ) (p : Provision Queue)
      → length ssid ≤ max_ssid_length
      → length password ≤ max_password_length
      → 0 < length ssid
      → 0 < length password
      → Holds env
          (some ssid)
          (some password)
          (record { ssid = ssid; password = password })
          p.manager.net
          p
      → Provisioned ssid password (event env (write connect_to_cloud [] true) p)
  requested-Provisioned ssid password p l1 l2 n1 n2 h =
      let q = h.has_queue.0 in
      let k = event-Requested env laws [] true p q complete h.has_queue.1 in
      record {
        state_done = k.state_done;
        queue = k.queue_after;
        queue_stands = ap (λ m. m.req_queue) k.manager_after;
        earlier = latest 7 (laws.contents q);
        request = ble_request env laws p;
        request_last = k.request_queued ∙ latest-last 7 (ble_request env laws p) (laws.contents q);
        ssid_written =
            ap (λ c. take max_ssid_length c.ssid) h.credentials_held
            ∙ take_all max_ssid_length ssid l1;
        password_written =
            ap (λ c. take max_password_length c.password) h.credentials_held
            ∙ take_all max_password_length password l2;
        to_be_stored = refl;
      }
    where
      complete : IsComplete p
      complete = record {
        ssid_nonempty = rw (h.ssid_held) n1;
        password_nonempty = rw (h.password_held) n2;
        ssid_given = ap (λ c. is_empty c.ssid) h.credentials_held ∙ nonempty-is_empty ssid n1;
      }

  -- From a state without packets, with memory and a queue: the chunks of an SSID, then those of a
  -- password, each not empty, of proper length and without NUL, and then the request, queue the SSID
  -- and the password in one piece, to be stored, behind the requests before; the state is DONE.
  pub event-Provisioned :
      (ssids passwords : List (List ℕ)) (p : Provision Queue)
      → env.allocated ≡ true
      → HasQueue env p
      → p.ssid_packet ≡ none
      → p.password_packet ≡ none
      → IsEntry max_ssid_length ssids
      → IsEntry max_password_length passwords
      → Provisioned (concat ssids) (concat passwords) (
          event env
            (write connect_to_cloud [] true)
            (write_all env wifi_password passwords (write_all env wifi_ssid ssids p)))
  event-Provisioned ssids passwords p a h s0 w0 es ew =
      requested-Provisioned (concat ssids) (concat passwords) p2 es.fits ew.fits es.nonempty
        ew.nonempty (moved-Holds env h2 refl refl same (sym h2.net_held))
    where
      p1 : Provision Queue
      p1 = write_all env wifi_ssid ssids p

      p2 : Provision Queue
      p2 = write_all env wifi_password passwords p1

      h0 : Holds env none none p.manager.credentials p.manager.net p
      h0 = record {
        ssid_held = s0;
        password_held = w0;
        credentials_held = refl;
        net_held = refl;
        has_queue = h;
      }

      taken : List ℕ → List ℕ → Credentials
      taken s w = record { ssid = s; password = w }

      h1 :
          Holds env
            (some (concat ssids))
            none
            (taken (ssid_of env (concat ssids)) p.manager.credentials.password)
            p.manager.net
            p1
      h1 = ssid_all env a ssids p p.manager.credentials h0 es.nonempty es.fits

      h2 :
          Holds env
            (some (concat ssids))
            (some (concat passwords))
            (taken (ssid_of env (concat ssids)) (password_of env (concat passwords)))
            p.manager.net
            p2
      h2 = password_all env a passwords p1 _ h1 ew.nonempty ew.fits

      same :
          taken (ssid_of env (concat ssids)) (password_of env (concat passwords))
          ≡ taken (concat ssids) (concat passwords)
      same =
          ap (λ s. taken s (password_of env (concat passwords)))
            (entry_text max_ssid_length ssids es)
          ∙ ap (taken (concat ssids)) (entry_text max_password_length passwords ew)
