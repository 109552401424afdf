-- ===== src/Mqtt/Events.antt =====
-- The events of the MQTT client in src/mqtt_app.c: the subscriptions, the readiness, and the messages
-- of the app, which bring an image or ask for it.
pub mod Readiness
pub mod Topics
pub mod Messages
mod Tests
use aelebdwif01_dongle.Prelude.{
  ℕ, ◌+◌, ◌%◌, ◌^◌, List, [], ◌∷◌, ◌++◌, Bool, true, false, Option, none, some, not, ◌&&◌, drop,
  c_string, codes, ltb, memcpy, ◌==◌, if◌then◌else◌, ◌>>=◌,
}
use aelebdwif01_dongle.Eeprom.{offset_of, sizeof_eeprom}
use aelebdwif01_dongle.Ble.{request_writes}
use aelebdwif01_dongle.Mqtt.{mqtt_build_topic, mqtt_publish_with_suffix}

-- The variables that the handler reads and sets. `subscribed` lists the topics asked for and
-- `published` the messages, the latest first; `update_tasks` counts the tasks created.
pub record Client : Type 0 where
  pub is_mqtt_ready : Bool
  pub subscribe_counter : ℕ
  pub eeprom : List ℕ
  pub request_index : ℕ
  pub subscribed : List (List ℕ)
  pub published : List (List ℕ)
  pub unit_partition_state : Bool
  pub unit_update_task_flag : Bool
  pub bootloader_state_flag : Bool
  pub update_tasks : ℕ

-- `gRDEeprom.SerialString`, read up to the first NUL.
unfoldable pub address_of : List ℕ → List ℕ
unfolding offset_of
address_of eeprom = c_string (drop (offset_of "SerialString") eeprom)

-- `mqtt_subscribe_app_topics`
unfoldable pub mqtt_subscribe_app_topics : List ℕ → Client → Client
mqtt_subscribe_app_topics [] s = s
mqtt_subscribe_app_topics (a ∷ rest) s =
    let address = a ∷ rest in
    record s {
      subscribed =
          mqtt_build_topic 64 address (codes "app/request")
          ∷ mqtt_build_topic 64 address (codes "app/eeprom")
          ∷ s.subscribed;
    }

-- The task that looks for firmware of the unit, unless it runs or the boot loader does.
unfoldable pub create_update_task : Client → Client
create_update_task s =
    if s.unit_partition_state && (not s.unit_update_task_flag && not s.bootloader_state_flag)
    then record s { update_tasks = s.update_tasks + 1 }
    else s

-- `strncmp(topic, text, topic_len) == 0` for a topic of that length and a C string.
abbrev pub strncmp_zero : List ℕ → List ℕ → Bool
strncmp_zero [] text = true
strncmp_zero (x ∷ xs) [] = x == 0
strncmp_zero (x ∷ xs) (y ∷ ys) =
    let rest = strncmp_zero xs ys in if x == y then (if x == 0 then true else rest) else false

-- A message on `app/eeprom`: as many bytes as the image has are copied, whatever the message's
-- length; `memory` is what lies in memory from its data on.
unfoldable pub store_image : List ℕ → Client → Option Client
store_image memory s = memcpy s.eeprom 0 memory 0 sizeof_eeprom >>= λ e.
    some (record s { eeprom = e; request_index = request_writes s.request_index })

-- A message on `app/request`: the image is published, if the client is ready.
abbrev pub add_published : Client → Option (List ℕ) → Client
add_published s none = s
add_published s (some m) = record s { published = m ∷ s.published }

unfoldable pub answer_request : List ℕ → Client → Option Client
answer_request address s =
    if s.is_mqtt_ready
    then (mqtt_publish_with_suffix s.is_mqtt_ready address (codes "esp/eeprom") s.eeprom >>= λ m.
        some (add_published s m))
    else some s

-- The two comparisons of `MQTT_EVENT_DATA`. The address is a pointer into the image: the second topic
-- is built from the image that the first may have replaced.
unfoldable pub take_image : List ℕ → List ℕ → Client → Option Client
take_image topic memory s =
    if strncmp_zero topic (mqtt_build_topic 64 (address_of s.eeprom) (codes "app/eeprom"))
    then store_image memory s
    else some s

unfoldable pub give_image : List ℕ → Client → Option Client
give_image topic s =
    let address = address_of s.eeprom in
    if strncmp_zero topic (mqtt_build_topic 64 address (codes "app/request"))
    then answer_request address s
    else some s

-- `MQTT_EVENT_DATA`
unfoldable pub data_received : List ℕ → List ℕ → Client → Option Client
data_received topic memory s = take_image topic memory s >>= give_image topic

-- The events that the handler does more than log.
pub data MqttEvent : Type 0 where
  connected disconnected subscribed_event failed : MqttEvent
  message : List ℕ → List ℕ → MqttEvent

-- `MQTT_EVENT_SUBSCRIBED`
unfoldable pub subscription_confirmed : Client → Client
subscription_confirmed s =
    if s.subscribe_counter == 1
    then record s { is_mqtt_ready = true; subscribe_counter = 0 }
    else record s { subscribe_counter = (s.subscribe_counter + 1) % 2 ^ 8 }

-- `mqtt_event_handler`
unfoldable pub mqtt_event_handler : MqttEvent → Client → Option Client
mqtt_event_handler connected s =
    some (create_update_task (mqtt_subscribe_app_topics (address_of s.eeprom) s))
mqtt_event_handler disconnected s = some (record s { is_mqtt_ready = false; subscribe_counter = 0 })
mqtt_event_handler subscribed_event s = some (subscription_confirmed s)
mqtt_event_handler failed s = some (create_update_task s)
mqtt_event_handler (message topic memory) s = data_received topic memory s
