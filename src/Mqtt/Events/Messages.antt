-- ===== src/Mqtt/Events/Messages.antt =====
-- What a message of the app does in src/mqtt_app.c, by its topic: it brings an image, asks for it, or
-- both.
use aelebdwif01_dongle.Prelude.{
  ℕ, ◌+◌, ◌≡◌, ◌≤◌, ◌<◌, ap, ◌∙◌, List, ◌∷◌, ◌++◌, Bool, true, false, none, some, inr, arith,
  length, take, take_all, codes, if◌then◌else◌, ◌>>=◌, memcpy, memcpy_outside,
}
use aelebdwif01_dongle.Eeprom.{sizeof_eeprom}
use aelebdwif01_dongle.Eeprom.Sections.{sizeof_eeprom_lem}
use aelebdwif01_dongle.Ble.{request_writes}
use aelebdwif01_dongle.Ble.Image.{copy_image}
use aelebdwif01_dongle.Mqtt.{mqtt_build_topic, mqtt_publish_with_suffix, publish_debug_message}
use aelebdwif01_dongle.Mqtt.Text.{Publishes, json_text, publish_debug_message_lem}
use aelebdwif01_dongle.Mqtt.Events.Topics.{
  eeprom_topic, request_topic, stem, stem-All, strncmp_zero-take, strncmp_zero_apart,
  eeprom_topic_lem, request_topic_lem, exact, topics_apart, part_of_both,
}
use aelebdwif01_dongle.Mqtt.Events.{
  Client, message, address_of, strncmp_zero, mqtt_event_handler, data_received, take_image,
  give_image, store_image, answer_request, add_published,
}

-- The client with the image of a message.
abbrev pub stored : List ℕ → Client → Client
stored memory s = record s {
  eeprom = take 241 memory;
  request_index = request_writes s.request_index;
}

store_image_lem :
    (memory : List ℕ) (s : Client)
    → length s.eeprom ≡ 241
    → 241 ≤ length memory
    → store_image memory s ≡ some (stored memory s)
unfolding store_image
store_image_lem memory s l m =
    ap
      (λ o.
        o >>= λ e. some (record s { eeprom = e; request_index = request_writes s.request_index }))
      (copy_image memory s.eeprom m l)

module _ (n : ℕ) (memory : List ℕ) (s : Client) where
  prefix_taken : take_image (take n (eeprom_topic s.eeprom)) memory s ≡ store_image memory s
  unfolding take_image eeprom_topic
  prefix_taken =
      ap (λ b. if b then store_image memory s else some s)
        (strncmp_zero-take n (mqtt_build_topic 64 (address_of s.eeprom) (codes "app/eeprom")))

given :
    (topic : List ℕ) (s : Client) (b : Bool)
    → strncmp_zero topic (request_topic s.eeprom) ≡ b
    → give_image topic s ≡ (if b then answer_request (address_of s.eeprom) s else some s)
unfolding give_image request_topic
given topic s b e = ap (λ c. if c then answer_request (address_of s.eeprom) s else some s) e

exact_taken :
    (memory : List ℕ) (s : Client)
    → take_image (eeprom_topic s.eeprom) memory s ≡ store_image memory s
exact_taken memory s =
    let t = eeprom_topic s.eeprom in
    rw (take_all (length t) t (omega arith)) at (prefix_taken (length t) memory s)

untaken :
    (memory : List ℕ) (s : Client)
    → length (address_of s.eeprom) ≤ 50
    → take_image (request_topic s.eeprom) memory s ≡ some s
unfolding take_image eeprom_topic
untaken memory s short =
    ap (λ b. if b then store_image memory s else some s)
      (ap (λ t. strncmp_zero t (eeprom_topic s.eeprom)) (request_topic_lem s.eeprom short)
        ∙ ap (λ t. strncmp_zero (stem s.eeprom ++ codes "request") t)
            (eeprom_topic_lem s.eeprom short)
        ∙ strncmp_zero_apart (stem s.eeprom) (codes "equest") (codes "eprom") 114 101
            (stem-All s.eeprom) (λ e. absurd (omega arith)))

-- The message with an image.
unfoldable pub image_text : List ℕ → List ℕ
image_text image =
    let address = address_of image in
    json_text image (mqtt_build_topic 64 address (codes "esp/eeprom")) address

published_whole :
    (bytes topic address : List ℕ)
    → length (json_text bytes topic address) < 1024
    → publish_debug_message true bytes topic address ≡ some (some (json_text bytes topic address))
unfolding Publishes
published_whole bytes topic address h = (publish_debug_message_lem bytes topic address).0 h

answered :
    (s : Client)
    → s.is_mqtt_ready ≡ true
    → length (image_text s.eeprom) < 1024
    → answer_request (address_of s.eeprom) s
      ≡ some (record s { published = image_text s.eeprom ∷ s.published })
unfolding answer_request mqtt_publish_with_suffix image_text
answered s r fits =
    let address = address_of s.eeprom in
    let topic = mqtt_build_topic 64 address (codes "esp/eeprom") in
    ap
      (λ b.
        if b
        then (publish_debug_message b s.eeprom topic address >>= λ m. some (add_published s m))
        else some s)
      r
    ∙ ap (λ o. o >>= λ m. some (add_published s m)) (published_whole s.eeprom topic address fits)

short_copy :
    (image memory : List ℕ) → length memory < 241 → memcpy image 0 memory 0 sizeof_eeprom ≡ none
short_copy image memory h =
    rw sizeof_eeprom_lem (memcpy_outside image 0 memory 0 241 (inr (omega arith)))

-- A message on the topic of images, with at least 241 bytes behind its data, and an image with the
-- same address of at most 50 characters: the image is stored, its sections are requested to be
-- written, and nothing is published.
pub message_image :
    (memory : List ℕ) (s : Client)
    → length s.eeprom ≡ 241
    → 241 ≤ length memory
    → address_of (take 241 memory) ≡ address_of s.eeprom
    → length (address_of s.eeprom) ≤ 50
    → mqtt_event_handler (message (eeprom_topic s.eeprom) memory) s ≡ some (stored memory s)
unfolding mqtt_event_handler data_received
message_image memory s l m same short =
    let t = eeprom_topic s.eeprom in
    ap (λ o. o >>= give_image t) (exact_taken memory s ∙ store_image_lem memory s l m)
    ∙ given t (stored memory s) false (topics_apart s.eeprom (take 241 memory) short same)

-- A ready client that is asked for the image publishes it under its address, if the text has at most
-- 1023 characters; nothing else changes.
pub message_request :
    (memory : List ℕ) (s : Client)
    → s.is_mqtt_ready ≡ true
    → length (address_of s.eeprom) ≤ 50
    → length (image_text s.eeprom) < 1024
    → mqtt_event_handler (message (request_topic s.eeprom) memory) s
      ≡ some (record s { published = image_text s.eeprom ∷ s.published })
unfolding mqtt_event_handler data_received
message_request memory s r short fits =
    let t = request_topic s.eeprom in
    ap (λ o. o >>= give_image t) (untaken memory s short)
    ∙ given t s true (exact (request_topic s.eeprom))
    ∙ answered s r fits

-- A topic that is only a part of the topic of images, up to the suffix, counts as both topics: with an
-- image behind it of the same address, the image is stored and then answered as if it were asked for.
pub message_part :
    (n : ℕ) (memory : List ℕ) (s : Client)
    → length s.eeprom ≡ 241
    → 241 ≤ length memory
    → address_of (take 241 memory) ≡ address_of s.eeprom
    → length (address_of s.eeprom) ≤ 50
    → n ≤ length (address_of s.eeprom) + 6
    → mqtt_event_handler (message (take n (eeprom_topic s.eeprom)) memory) s
      ≡ answer_request (address_of s.eeprom) (stored memory s)
unfolding mqtt_event_handler data_received
message_part n memory s l m same short part =
    let t = take n (eeprom_topic s.eeprom) in
    ap (λ o. o >>= give_image t) (prefix_taken n memory s ∙ store_image_lem memory s l m)
    ∙ given t (stored memory s) true (part_of_both s.eeprom (take 241 memory) short same n part)
    ∙ ap (λ a. answer_request a (stored memory s)) same

-- The length of a message is not looked at: on the topic of images, or a part of it, fewer than 241
-- bytes in memory from the data on are read past their end.
message_overread :
    (n : ℕ) (memory : List ℕ) (s : Client)
    → length memory < 241
    → mqtt_event_handler (message (take n (eeprom_topic s.eeprom)) memory) s ≡ none
unfolding mqtt_event_handler data_received store_image
message_overread n memory s h =
    ap (λ o. o >>= give_image (take n (eeprom_topic s.eeprom)))
      (prefix_taken n memory s
        ∙ ap
            (λ o. o >>= λ e.
              some (record s { eeprom = e; request_index = request_writes s.request_index }))
            (short_copy s.eeprom memory h))
