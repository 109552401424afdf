-- ===== src/Ble/Provision/Packets.antt =====
-- The packets of the provisioning of src/ble.c: chunks that fit are collected, and the credentials
-- follow them.
use aelebdwif01_dongle.Prelude.{
  if_holds, ℕ, ◌+◌, ◌≡◌, ◌≤◌, refl, ap, ◌∙◌, List, [], ◌∷◌, ◌++◌, Bool, true, Option, none, some,
  take, length, length-append, c_string, codes, ◌==◌, ltb, le→ltb,
}
use aelebdwif01_dongle.Wifi.{max_ssid_length, max_password_length}
use aelebdwif01_dongle.Wifi.Storage.{Credentials}
use aelebdwif01_dongle.Wifi.Connect.{Net}
use aelebdwif01_dongle.Wifi.Queue.{QueueApi}
use aelebdwif01_dongle.Wifi.Manager.{
  Manager, Request, mqtt_enqueue_wifi_credentials, enqueue_into, queue_or, is_empty,
}
use aelebdwif01_dongle.Ble.Provision.{
  Provision, EventEnv, ble_packet_append, ble_set_prov_status, enqueue, take_ssid, take_password,
  written, handle_write_event, Handle, wifi_ssid, wifi_password, ProvState, ready, wait_ssid,
  wait_password, is_timed, packet_len, respond, ble_prov_timer_reset,
}
use aelebdwif01_dongle.Ble.Provision.Events.{event, write}

-- The chunks in one list.
abbrev pub concat : List (List ℕ) → List ℕ
concat [] = []
concat (x ∷ xs) = x ++ concat xs

-- The bytes of a packet.
abbrev pub bytes_of : Option (List ℕ) → List ℕ
bytes_of none = []
bytes_of (some xs) = xs

append_fits :
    (max_len : ℕ) (chunk : List ℕ) (packet : Option (List ℕ))
    → length (bytes_of packet ++ chunk) ≤ max_len
    → ble_packet_append true max_len chunk packet ≡ (true, some (bytes_of packet ++ chunk))
unfolding ble_packet_append
append_fits max_len chunk none h = refl
append_fits max_len chunk (some xs) h =
    let l : length xs + length chunk ≤ max_len = rw (length-append xs chunk) at h in
    rw (le→ltb l) refl

module _ {Queue : Type 0} where
  -- Queueing a request changes nothing but the queue and its counter, and the queue stands.
  abbrev pub Queued : Manager Queue → Manager Queue → Type 0
  Queued m r =
      (r.credentials ≡ m.credentials) × (r.net ≡ m.net) × ((q : Queue) × (r.req_queue ≡ some q))

  enqueue_into-Queued :
      (api : QueueApi Queue Request) (tick : ℕ) (ssid password : List ℕ) (persist : Bool)
      (source : List ℕ) (o : Option Queue) (q : Queue) (m : Manager Queue)
      → o ≡ some q
      → Queued m (enqueue_into api tick ssid password persist source o m).1
  unfolding enqueue_into
  enqueue_into-Queued api tick ssid password persist source none q m e = absurd (cc e)
  enqueue_into-Queued api tick ssid password persist source (some q1) q m e =
      if_holds (λ (r : Bool × Manager Queue). Queued m r.1) (is_empty ssid) _ _
        (λ _. (refl, refl, (_, refl))) (λ _. (refl, refl, (_, refl)))

module _ {Queue : Type 0} (env : EventEnv Queue) where
  -- There is a queue, or one can be created.
  abbrev pub HasQueue : Provision Queue → Type 0
  HasQueue p = (q : Queue) × (queue_or p.manager.req_queue env.created_queue ≡ some q)

  -- The packets and the credentials that an event leaves; the station and the queue stay.
  pub record Holds (ssid password : Option (List ℕ)) (c : Credentials) (net : Net)
      (r : Provision Queue) : Type 0 where
    pub ssid_held : r.ssid_packet ≡ ssid
    pub password_held : r.password_packet ≡ password
    pub credentials_held : r.manager.credentials ≡ c
    pub net_held : r.manager.net ≡ net
    pub has_queue : HasQueue r

  enqueue-Holds :
      (source : List ℕ) (p : Provision Queue)
      → HasQueue p
      → Holds p.ssid_packet p.password_packet p.manager.credentials p.manager.net
          (enqueue env source p).1
  unfolding enqueue mqtt_enqueue_wifi_credentials
  enqueue-Holds source p h =
      let k =
        enqueue_into-Queued env.api env.tick p.manager.credentials.ssid
          p.manager.credentials.password true source
          (queue_or p.manager.req_queue env.created_queue) h.0 p.manager h.1 in
      record {
        ssid_held = refl;
        password_held = refl;
        credentials_held = k.0;
        net_held = k.1;
        has_queue = (k.2.0, ap (λ o. queue_or o env.created_queue) k.2.1);
      }

  -- The credentials that a packet gives.
  abbrev pub ssid_of : List ℕ → List ℕ
  ssid_of xs = c_string (take max_ssid_length xs)

  abbrev pub password_of : List ℕ → List ℕ
  password_of xs = c_string (take max_password_length xs)

  -- The states whose packets and credentials have just been taken.
  with_ssid : List ℕ → Provision Queue → Provision Queue
  with_ssid xs p =
      let m = p.manager in
      record p {
        ssid_packet = some xs;
        manager = record m { credentials = record m.credentials { ssid = ssid_of xs } };
      }

  with_password : List ℕ → Provision Queue → Provision Queue
  with_password xs p =
      let m = p.manager in
      record p {
        password_packet = some xs;
        manager = record m { credentials = record m.credentials { password = password_of xs } };
      }

  status-Holds :
      (s : ProvState) (p : Provision Queue)
      → HasQueue p
      → Holds p.ssid_packet p.password_packet p.manager.credentials p.manager.net
          (ble_set_prov_status env s p)
  unfolding ble_set_prov_status
  status-Holds s p h =
      if_holds (Holds p.ssid_packet p.password_packet p.manager.credentials p.manager.net)
        (is_timed s) _ _
        (λ _. record {
          ssid_held = refl;
          password_held = refl;
          credentials_held = refl;
          net_held = refl;
          has_queue = h;
        })
        (λ _. record {
          ssid_held = refl;
          password_held = refl;
          credentials_held = refl;
          net_held = refl;
          has_queue = h;
        })

  take_ssid-Holds :
      (xs : List ℕ) (p : Provision Queue)
      → HasQueue p
      → Holds
          (some xs)
          p.password_packet
          (record { ssid = ssid_of xs; password = p.manager.credentials.password })
          p.manager.net
          (take_ssid env (some xs) p)
  unfolding take_ssid ble_set_prov_status with_ssid
  take_ssid-Holds xs p h =
      if_holds (Holds (some xs) p.password_packet _ p.manager.net)
        (ltb 0 (packet_len p.password_packet)) _ _
        (λ _. enqueue-Holds (codes "ble-auto") (ble_set_prov_status env ready (with_ssid xs p)) h)
        (λ _. status-Holds wait_password (with_ssid xs p) h)

  take_password-Holds :
      (xs : List ℕ) (p : Provision Queue)
      → HasQueue p
      → Holds p.ssid_packet
          (some xs)
          (record { ssid = p.manager.credentials.ssid; password = password_of xs })
          p.manager.net
          (take_password env (some xs) p)
  unfolding take_password ble_set_prov_status with_password
  take_password-Holds xs p h =
      if_holds (Holds p.ssid_packet (some xs) _ p.manager.net) (packet_len p.ssid_packet == 0) _ _
        (λ _. status-Holds wait_ssid (with_password xs p) h)
        (λ _.
          enqueue-Holds (codes "ble-auto") (ble_set_prov_status env ready (with_password xs p)) h)

  module _ {x y : Option (List ℕ)} {c : Credentials} {n : Net} where
    respond-Holds :
        (need_rsp : Bool) (r : Provision Queue)
        → Holds x y c n r
        → Holds x y c n (respond env need_rsp r)
    respond-Holds need_rsp r h = record {
      ssid_held = h.ssid_held;
      password_held = h.password_held;
      credentials_held = h.credentials_held;
      net_held = h.net_held;
      has_queue = h.has_queue;
    }

  module _ (a : env.allocated ≡ true) (chunk : List ℕ) (need_rsp : Bool) (p : Provision Queue)
      (h : HasQueue p) where
    pub ssid_chunk :
        length (bytes_of p.ssid_packet ++ chunk) ≤ max_ssid_length
        → Holds
            (some (bytes_of p.ssid_packet ++ chunk))
            p.password_packet
            (record {
              ssid = ssid_of (bytes_of p.ssid_packet ++ chunk);
              password = p.manager.credentials.password;
            })
            p.manager.net
            (handle_write_event env wifi_ssid chunk need_rsp p)
    unfolding handle_write_event written
    ssid_chunk l =
        let e =
          ap (λ b. ble_packet_append b max_ssid_length chunk p.ssid_packet) a
          ∙ append_fits max_ssid_length chunk p.ssid_packet l in
        rw e (
          respond-Holds need_rsp
            (take_ssid env (some (bytes_of p.ssid_packet ++ chunk)) (ble_prov_timer_reset env p))
            (take_ssid-Holds (bytes_of p.ssid_packet ++ chunk) (ble_prov_timer_reset env p) h))

    pub password_chunk :
        length (bytes_of p.password_packet ++ chunk) ≤ max_password_length
        → Holds p.ssid_packet
            (some (bytes_of p.password_packet ++ chunk))
            (record {
              ssid = p.manager.credentials.ssid;
              password = password_of (bytes_of p.password_packet ++ chunk);
            })
            p.manager.net
            (handle_write_event env wifi_password chunk need_rsp p)
    unfolding handle_write_event written
    password_chunk l =
        let e =
          ap (λ b. ble_packet_append b max_password_length chunk p.password_packet) a
          ∙ append_fits max_password_length chunk p.password_packet l in
        rw e (
          respond-Holds need_rsp
            (take_password env (some (bytes_of p.password_packet ++ chunk))
              (ble_prov_timer_reset env p))
            (take_password-Holds (bytes_of p.password_packet ++ chunk) (ble_prov_timer_reset env p)
              h))

  -- Writes of chunks to one characteristic, one after the other.
  unfoldable pub write_all : Handle → List (List ℕ) → Provision Queue → Provision Queue
  write_all handle [] p = p
  write_all handle (chunk ∷ chunks) p =
      write_all handle chunks (event env (write handle chunk true) p)
