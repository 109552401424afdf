-- ===== src/Wifi/Apply/Rounds.antt =====
-- A round of `mqtt_task` of src/mqtt_app.c applies the last of all requests, in one pass over the queue.
use aelebdwif01_dongle.Prelude.{
  if_holds, ℕ, ◌≡◌, ◌≤◌, ◌<◌, refl, sym, ap, ◌∙◌, List, [], ◌∷◌, ◌++◌, Option, none, some, arith,
  length, length-append, ◌==◌, eq→==, true,
}
use aelebdwif01_dongle.Prelude.Latest.{
  latest, last_or, last_or-append, latest-last, length-latest, append_assoc,
}
use aelebdwif01_dongle.Wifi.{EspErr, esp_ok}
use aelebdwif01_dongle.Wifi.Queue.{QueueApi, QueueLaws}
use aelebdwif01_dongle.Wifi.Manager.{Manager, Request, connected, wifi_req_queue_len, drain}
use aelebdwif01_dongle.Wifi.Manager.Requests.{send_all, send_all_lem, Drains, drain_lem}
use aelebdwif01_dongle.Wifi.Apply.{
  ApplyEnv, unchanged, strcmp_zero, apply_wifi_request, start_client, apply_drained,
  handle_received, task_round,
}

module _ {Queue : Type 0} (api : QueueApi Queue Request) (laws : QueueLaws api wifi_req_queue_len)
    (env : ApplyEnv) (fuel : ℕ) (m : Manager Queue) where
  -- A round applies the request, with the queue left empty.
  abbrev pub Applies : Request → Option (Manager Queue) → Type 0
  Applies r o =
      (q : Queue) × (laws.contents q ≡ [])
      × (o ≡ some (start_client (apply_wifi_request env r (record m { req_queue = some q }))))

  round_lem :
      (q : Queue) (s : Request) (ss : List Request)
      → laws.contents q ≡ s ∷ ss
      → length ss < fuel
      → Applies (last_or s ss) (task_round fuel api env q m)
  unfolding task_round Drains
  round_lem q s ss e h =
      let k = laws.receive_some s ss q e in
      let d = drain_lem api laws fuel s (api.receive q).1 ss k.1 h in
      (d.0, d.2, handled (api.receive q) k.0 d.0 d.1)
    where
      handled :
          (received : Option Request × Queue)
          → received.0 ≡ some s
          → (q2 : Queue) → drain fuel api s received.1 ≡ some (last_or s ss, q2)
          → handle_received fuel api env m received
            ≡ some (
                start_client
                  (apply_wifi_request env (last_or s ss) (record m { req_queue = some q2 })))
      handled (none, q1) e q2 d = absurd (cc e)
      handled (some t, q1) e q2 d =
          let same : t ≡ s = cc e in
          ap (apply_drained env m) (ap (λ x. drain fuel api x q1) same ∙ d)

  -- A queue whose last request is the argument.
  pub round_last :
      (xs : List Request) (r : Request) (q : Queue)
      → laws.contents q ≡ latest 7 xs ++ (r ∷ [])
      → wifi_req_queue_len ≤ fuel
      → Applies r (task_round fuel api env q m)
  round_last xs r q held h = go (latest 7 xs) refl
    where
      go : (ys : List Request) → latest 7 xs ≡ ys → Applies r (task_round fuel api env q m)
      go [] e = round_lem q r [] (held ∙ ap (λ t. t ++ (r ∷ [])) e) (omega arith)
      go (s ∷ ss) e =
          let l : length (s ∷ ss) ≤ 7 = rw e at (length-latest 7 xs) in
          let n : length (ss ++ (r ∷ [])) < fuel = rw (length-append ss (r ∷ [])) (omega arith) in
          rw (last_or-append s r ss) at
            (round_lem q s (ss ++ (r ∷ [])) (held ∙ ap (λ t. t ++ (r ∷ [])) e) n)

  -- With fuel for the eight requests that the queue can hold, a round that follows any requests
  -- applies the last of them, whatever the queue held before, and leaves the queue empty.
  pub task_round-send_all :
      (rs : List Request) (r : Request) (q : Queue)
      → wifi_req_queue_len ≤ fuel
      → Applies r (task_round fuel api env (send_all api laws (rs ++ (r ∷ [])) q) m)
  task_round-send_all rs r q h =
      round_last (laws.contents q ++ rs) r (send_all api laws (rs ++ (r ∷ [])) q)
        (send_all_lem api laws (rs ++ (r ∷ [])) q
          ∙ ap (latest wifi_req_queue_len) (sym (append_assoc (laws.contents q) rs (r ∷ [])))
          ∙ latest-last 7 r (laws.contents q ++ rs))
        h

strcmp_zero_self : (xs : List ℕ) → strcmp_zero xs xs ≡ true
strcmp_zero_self [] = refl
strcmp_zero_self (x ∷ xs) = let e : (x == x) ≡ true = eq→== refl in rw (e, strcmp_zero_self xs) refl

-- While the station is connected, a request for the credentials in use is skipped.
pub apply_wifi_request_skipped :
    {Queue : Type 0} (env : ApplyEnv) (r : Request) (m : Manager Queue)
    → m.net.wifi_connected_flag ≡ true
    → m.credentials.ssid ≡ r.ssid
    → m.credentials.password ≡ r.password
    → apply_wifi_request env r m ≡ (esp_ok, record m { manager_state = connected })
unfolding apply_wifi_request
apply_wifi_request_skipped env r m c s w =
    if_holds (λ (x : EspErr × Manager _). x ≡ (esp_ok, record m { manager_state = connected }))
      (unchanged r m) _ _ (λ _. refl) (λ f. absurd (cc (f, all)))
  where
    all : unchanged r m ≡ true
    all = rw (c, s, w, strcmp_zero_self r.ssid, strcmp_zero_self r.password) refl
