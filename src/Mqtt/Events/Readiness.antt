-- ===== src/Mqtt/Events/Readiness.antt =====
-- When the client of src/mqtt_app.c is ready: after two confirmed subscriptions.
use aelebdwif01_dongle.Prelude.{
  Holds, bind-Holds, then-Holds, if_holds, memcpy, codes, ==_iff, ℕ, ◌+◌, ◌%◌, ◌^◌, ◌≡◌, ◌≤◌, ◌<◌,
  ◌≢◌, lt_or_le, le→leb, lt→leb, eq→==, refl, sym, ◌∙◌, List, [], ◌∷◌, false, Option, none, some,
  arith, leb, inl, inr, ◌&&◌, not, ◌==◌, ◌>>=◌,
}
use aelebdwif01_dongle.Eeprom.{sizeof_eeprom}
use aelebdwif01_dongle.Mqtt.{mqtt_build_topic, mqtt_publish_with_suffix}
use aelebdwif01_dongle.Mqtt.Events.{
  address_of, strncmp_zero, Client, MqttEvent, connected, disconnected, subscribed_event, failed,
  message, mqtt_event_handler, subscription_confirmed, create_update_task,
  mqtt_subscribe_app_topics, data_received, take_image, give_image, store_image, answer_request,
  add_published,
}

-- The handler over events, in order.
unfoldable pub handle_all : List MqttEvent → Client → Option Client
handle_all [] s = some s
handle_all (e ∷ es) s = mqtt_event_handler e s >>= handle_all es

-- The confirmed subscriptions since the last loss of the connection, behind so many.
unfoldable pub confirmations : List MqttEvent → ℕ → ℕ
confirmations [] n = n
confirmations (disconnected ∷ es) n = confirmations es 0
confirmations (subscribed_event ∷ es) n = confirmations es (n + 1)
confirmations (e ∷ es) n = confirmations es n

-- What the two variables say after so many confirmations.
abbrev pub Agrees : ℕ → Client → Type 0
Agrees n s = (s.subscribe_counter ≡ n % 2) × (s.is_mqtt_ready ≡ leb 2 n)

even : (n : ℕ) → n % 2 ≢ 1 → n % 2 ≡ 0
even n h = elim (lt_or_le (n % 2) 1) [
  | inl l ↦ omega arith
  | inr l ↦ let e : n % 2 ≡ 1 = omega arith in absurd (h e)
]

next : (c n : ℕ) → c ≡ 0 → n % 2 ≡ 0 → (c + 1) % 2 ^ 8 ≡ (n + 1) % 2
next c n h z = omega arith

ready_next : (n : ℕ) → n % 2 ≡ 0 → leb 2 n ≡ leb 2 (n + 1)
ready_next n z = elim (lt_or_le n 2) [
  | inl l ↦ let a : n < 2 = l in let b : n + 1 < 2 = omega arith in lt→leb a ∙ sym (lt→leb b)
  | inr l ↦ let b : 2 ≤ n + 1 = omega arith in le→leb l ∙ sym (le→leb b)
]

subscription_confirmed-Agrees :
    (n : ℕ) (s : Client) → Agrees n s → Agrees (n + 1) (subscription_confirmed s)
unfolding subscription_confirmed
subscription_confirmed-Agrees n s h =
    if_holds (Agrees (n + 1)) (s.subscribe_counter == 1) _ _
      (λ e.
        let c : s.subscribe_counter ≡ 1 = (==_iff s.subscribe_counter 1).0 e in
        let l : 2 ≤ n + 1 = omega (arith, c, h.0) in (omega (arith, c, h.0), sym (le→leb l)))
      (λ e.
        let c : s.subscribe_counter ≢ 1 = λ z. absurd (cc (e, eq→== z)) in
        let z : n % 2 ≡ 0 = even n (λ o. c (h.0 ∙ o)) in
        (next s.subscribe_counter n (h.0 ∙ z) z, h.1 ∙ ready_next n z))

subscribe-Agrees :
    (n : ℕ) (a : List ℕ) (s : Client) → Agrees n s → Agrees n (mqtt_subscribe_app_topics a s)
unfolding mqtt_subscribe_app_topics
subscribe-Agrees n [] s h = h
subscribe-Agrees n (x ∷ xs) s h = h

create_update_task-Agrees : (n : ℕ) (s : Client) → Agrees n s → Agrees n (create_update_task s)
unfolding create_update_task
create_update_task-Agrees n s h =
    if_holds (Agrees n)
      (s.unit_partition_state && (not s.unit_update_task_flag && not s.bootloader_state_flag)) _ _
      (λ _. h) (λ _. h)

add_published-Agrees :
    (n : ℕ) (m : Option (List ℕ)) (s : Client) → Agrees n s → Agrees n (add_published s m)
add_published-Agrees n none s h = h
add_published-Agrees n (some m) s h = h

store_image-Holds :
    (n : ℕ) (memory : List ℕ) (s : Client) → Agrees n s → Holds (Agrees n) (store_image memory s)
unfolding store_image
store_image-Holds n memory s h =
    bind-Holds (Agrees n) (memcpy s.eeprom 0 memory 0 sizeof_eeprom) _ (λ _. h)

answer_request-Holds :
    (n : ℕ) (a : List ℕ) (s : Client) → Agrees n s → Holds (Agrees n) (answer_request a s)
unfolding answer_request
answer_request-Holds n a s h =
    if_holds (Holds (Agrees n)) s.is_mqtt_ready _ _
      (λ _.
        bind-Holds (Agrees n)
          (mqtt_publish_with_suffix s.is_mqtt_ready a (codes "esp/eeprom") s.eeprom) _
          (λ m. add_published-Agrees n m s h))
      (λ _. h)

data_received-Holds :
    (n : ℕ) (topic memory : List ℕ) (s : Client)
    → Agrees n s
    → Holds (Agrees n) (data_received topic memory s)
unfolding data_received take_image give_image
data_received-Holds n topic memory s h =
    then-Holds (Agrees n) (Agrees n) (take_image topic memory s) (give_image topic)
      (if_holds (Holds (Agrees n))
        (strncmp_zero topic (mqtt_build_topic 64 (address_of s.eeprom) (codes "app/eeprom"))) _ _
        (λ _. store_image-Holds n memory s h) (λ _. h))
      (λ t k.
        if_holds (Holds (Agrees n))
          (strncmp_zero topic (mqtt_build_topic 64 (address_of t.eeprom) (codes "app/request"))) _ _
          (λ _. answer_request-Holds n (address_of t.eeprom) t k) (λ _. k))

-- The client that is left goes on.
left :
    (n : ℕ) (o : Option Client) (es : List MqttEvent) (t : Client)
    → Holds (Agrees n) o
    → (o >>= handle_all es) ≡ some t
    → (u : Client) × Agrees n u × (handle_all es u ≡ some t)
left n none es t h e = absurd (cc e)
left n (some u) es t h e = (u, h, e)

handle_all-Agrees :
    (es : List MqttEvent) (n : ℕ) (s t : Client)
    → Agrees n s
    → handle_all es s ≡ some t
    → Agrees (confirmations es n) t
unfolding handle_all confirmations mqtt_event_handler
handle_all-Agrees [] n s t h e = let same : s ≡ t = cc e in rw⁻¹ same h
handle_all-Agrees (connected ∷ es) n s t h e =
    handle_all-Agrees es n _ t
      (create_update_task-Agrees n _ (subscribe-Agrees n (address_of s.eeprom) s h)) e
handle_all-Agrees (disconnected ∷ es) n s t h e = handle_all-Agrees es 0 _ t (refl, refl) e
handle_all-Agrees (subscribed_event ∷ es) n s t h e =
    handle_all-Agrees es (n + 1) _ t (subscription_confirmed-Agrees n s h) e
handle_all-Agrees (failed ∷ es) n s t h e =
    handle_all-Agrees es n _ t (create_update_task-Agrees n s h) e
handle_all-Agrees (message topic memory ∷ es) n s t h e =
    let u = left n (data_received topic memory s) es t (data_received-Holds n topic memory s h) e in
    handle_all-Agrees es n u.0 t u.1 u.2

-- From the start, whatever the events: a client that the handler leaves is ready exactly if at least
-- two subscriptions were confirmed since the connection was lost.
pub handle_all-is_mqtt_ready :
    (es : List MqttEvent) (s t : Client)
    → s.subscribe_counter ≡ 0
    → s.is_mqtt_ready ≡ false
    → handle_all es s ≡ some t
    → t.is_mqtt_ready ≡ leb 2 (confirmations es 0)
handle_all-is_mqtt_ready es s t c r e = (handle_all-Agrees es 0 s t (c, r) e).1
