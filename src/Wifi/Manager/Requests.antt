-- ===== src/Wifi/Manager/Requests.antt =====
-- The queue of requests of src/mqtt_app.c against the list of all requests: it holds the latest
-- ones, and emptying it finds the last.
use aelebdwif01_dongle.Prelude.{
  if_holds, ℕ, zero, suc, ◌+◌, ◌≡◌, ◌%◌, ◌^◌, ◌≤◌, ◌<◌, refl, sym, ap, ◌∙◌, List, [], ◌∷◌, ◌++◌,
  Bool, true, false, Option, none, some, ◌⊎◌, inl, inr, arith, length, length-append, lt_or_le,
}
use aelebdwif01_dongle.Prelude.Latest.{
  latest, last_or, latest-latest, latest_all, latest_tail, append_assoc, append_nil,
}
use aelebdwif01_dongle.Wifi.Queue.{QueueApi, QueueLaws}
use aelebdwif01_dongle.Wifi.Manager.{
  Manager, Request, wifi_req_queue_len, send_latest, drain, enqueue_into,
  mqtt_enqueue_wifi_credentials, request_of, is_empty, queue_or,
}

module _ {Queue : Type 0} (api : QueueApi Queue Request)
    (laws : QueueLaws api wifi_req_queue_len) where
  send_latest_lem :
      (r : Request) (q : Queue)
      → ((send_latest api r q).0 ≡ true)
        × (laws.contents (send_latest api r q).1
            ≡ latest wifi_req_queue_len (laws.contents q ++ (r ∷ [])))
  unfolding send_latest
  send_latest_lem r q =
      go (laws.contents q) refl (lt_or_le (length (laws.contents q)) wifi_req_queue_len)
    where
      go :
          (rs : List Request)
          → laws.contents q ≡ rs
          → (length rs < wifi_req_queue_len) ⊎ (wifi_req_queue_len ≤ length rs)
          → ((send_latest api r q).0 ≡ true)
            × (laws.contents (send_latest api r q).1 ≡ latest wifi_req_queue_len (rs ++ (r ∷ [])))
      go rs e (inl h) =
          let k = laws.send_room r q (rw e h) in
          let l : length (rs ++ (r ∷ [])) ≤ wifi_req_queue_len =
            rw (length-append rs (r ∷ [])) (omega arith) in
          rw (k.0) (
            refl,
            k.1
                ∙ ap (λ t. t ++ (r ∷ [])) e
                ∙ sym (latest_all wifi_req_queue_len (rs ++ (r ∷ [])) l),
          )
      go [] e (inr h) = absurd (omega arith)
      go (s ∷ rs) e (inr h) =
          let n : length (s ∷ rs) ≤ wifi_req_queue_len = rw e at (laws.contents_bound q) in
          let k = laws.send_full r q (rw e h) in
          let c = laws.receive_some s rs (api.send r q).1 (k.1 ∙ e) in
          let k2 = laws.send_room r (api.receive (api.send r q).1).1 (rw (c.1) (omega arith)) in
          let l : length (rs ++ (r ∷ [])) ≡ wifi_req_queue_len =
            rw (length-append rs (r ∷ [])) (omega arith) in
          let t : latest wifi_req_queue_len (s ∷ (rs ++ (r ∷ []))) ≡ rs ++ (r ∷ []) =
            rw⁻¹ l (latest_tail s (rs ++ (r ∷ []))) in
          rw (k.0) (k2.0, k2.1 ∙ ap (λ t. t ++ (r ∷ [])) c.1 ∙ sym t)

  unfoldable pub send_all : List Request → Queue → Queue
  send_all [] q = q
  send_all (r ∷ rs) q = send_all rs (send_latest api r q).1

  -- After any requests the queue holds the latest eight of those it held and them.
  pub send_all_lem :
      (rs : List Request) (q : Queue)
      → laws.contents (send_all rs q) ≡ latest wifi_req_queue_len (laws.contents q ++ rs)
  unfolding send_all
  send_all_lem [] q =
      let c = laws.contents q in
      sym (
        ap (latest wifi_req_queue_len) (append_nil c)
        ∙ latest_all wifi_req_queue_len c (laws.contents_bound q))
  send_all_lem (r ∷ rs) q =
      send_all_lem rs (send_latest api r q).1
      ∙ ap (λ t. latest wifi_req_queue_len (t ++ rs)) (send_latest_lem r q).1
      ∙ latest-latest wifi_req_queue_len (laws.contents q ++ (r ∷ [])) rs
      ∙ ap (latest wifi_req_queue_len) (append_assoc (laws.contents q) (r ∷ []) rs)

  -- The loop ends with the last request, or the one it started with, and leaves the queue empty.
  unfoldable pub Drains : Option (Request × Queue) → Request → Type 0
  Drains o r = (q : Queue) × (o ≡ some (r, q)) × (laws.contents q ≡ [])

  drain_step :
      (fuel : ℕ) (r : Request) (q : Queue) (rs : List Request)
      → laws.contents q ≡ rs
      → ((s : Request) (q2 : Queue) (ss : List Request)
          → laws.contents q2 ≡ ss
          → length ss < fuel
          → Drains (drain fuel api s q2) (last_or s ss))
      → length rs < suc fuel
      → Drains (drain (suc fuel) api r q) (last_or r rs)
  unfolding drain Drains
  drain_step fuel r q [] e ih h =
      let k = laws.receive_none q e in rw (k.0) ((api.receive q).1, refl, k.1)
  drain_step fuel r q (s ∷ rs) e ih h =
      let k = laws.receive_some s rs q e in rw (k.0) (ih s (api.receive q).1 rs k.1 (omega arith))

  pub drain_lem :
      (fuel : ℕ) (r : Request) (q : Queue) (rs : List Request)
      → laws.contents q ≡ rs
      → length rs < fuel
      → Drains (drain fuel api r q) (last_or r rs)
  drain_lem zero r q rs e h = absurd (omega arith)
  drain_lem (suc fuel) r q rs e h = drain_step fuel r q rs e (drain_lem fuel) h

  module _ (tick : ℕ) (ssid password : List ℕ) (persist_to_nvs : Bool) (source : List ℕ)
      (created : Option Queue) (m : Manager Queue) where
    -- What becomes of a request: refused, or queued with its number.
    abbrev pub Enqueued : Queue → Bool × Manager Queue → Type 0
    Enqueued q result =
        (is_empty ssid ≡ true → result ≡ (false, record m { req_queue = some q }))
        × (is_empty ssid ≡ false
            → (result.0 ≡ true)
              × ((q2 : Queue) × (result.1 ≡ record m {
                req_queue = some q2;
                request_counter = (m.request_counter + 1) % 2 ^ 32;
              })
                  × (laws.contents q2
                      ≡ latest wifi_req_queue_len (
                          laws.contents q
                          ++ (request_of tick ssid password persist_to_nvs source m ∷ [])))))

    enqueue_into_lem :
        (o : Option Queue) (q : Queue)
        → o ≡ some q
        → Enqueued q (enqueue_into api tick ssid password persist_to_nvs source o m)
    unfolding enqueue_into
    enqueue_into_lem none q e = absurd (cc e)
    enqueue_into_lem (some q1) q e =
        let same : q1 ≡ q = cc e in
        let k = send_latest_lem (request_of tick ssid password persist_to_nvs source m) q1 in
        rw⁻¹ same (
          if_holds (Enqueued q1) (is_empty ssid) _ _ (λ t. (λ _. refl, λ f. absurd (cc (t, f))))
            (λ f. (λ t. absurd (cc (t, f)), λ _. (k.0, (_, refl, k.1)))))

    -- With a queue, or one that can be created: a request without an SSID is refused; any other is queued with the next number, and the queue
    -- then holds the latest eight of the requests before and it.
    pub mqtt_enqueue_wifi_credentials_lem :
        (q : Queue)
        → queue_or m.req_queue created ≡ some q
        → Enqueued q
            (mqtt_enqueue_wifi_credentials api tick ssid password persist_to_nvs source created m)
    unfolding mqtt_enqueue_wifi_credentials
    mqtt_enqueue_wifi_credentials_lem q e = enqueue_into_lem (queue_or m.req_queue created) q e
