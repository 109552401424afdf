-- ===== src/Mqtt/Events/Tests.antt =====
-- The events of the client at examples: an image whose serial string is empty.
use aelebdwif01_dongle.Prelude.{
  ◌≡◌, ◌≤◌, ◌<◌, refl, ap, take_all, List, [], ◌∷◌, true, false, some, arith, take, zeros, length,
  length-zeros, leb,
}
use aelebdwif01_dongle.Eeprom.{offset_of}
use aelebdwif01_dongle.Mqtt.{decimal}
use aelebdwif01_dongle.Mqtt.Text.{json_text, joined}
use aelebdwif01_dongle.Mqtt.Events.{
  Client, MqttEvent, disconnected, subscribed_event, mqtt_event_handler, message, address_of,
  answer_request, subscription_confirmed,
}
use aelebdwif01_dongle.Mqtt.Events.Readiness.{handle_all, confirmations, handle_all-is_mqtt_ready}
use aelebdwif01_dongle.Mqtt.Events.Topics.{eeprom_topic, request_topic}
use aelebdwif01_dongle.Mqtt.Events.Messages.{
  stored, image_text, message_image, message_request, message_part,
}

abbrev silent : Client
silent = record {
  is_mqtt_ready = false;
  subscribe_counter = 0;
  eeprom = zeros 241;
  request_index = 0;
  subscribed = [];
  published = [];
  unit_partition_state = false;
  unit_update_task_flag = false;
  bootloader_state_flag = false;
  update_tasks = 0;
}

abbrev ready : Client
ready = record silent { is_mqtt_ready = true }

-- Two confirmations, the second of a connection that was lost in between, and one more.
abbrev events : List MqttEvent
events = subscribed_event ∷ disconnected ∷ subscribed_event ∷ subscribed_event ∷ []

handled : (t : Client) × (handle_all events silent ≡ some t)
unfolding handle_all mqtt_event_handler subscription_confirmed
handled = (_, refl)

handle_all-is_mqtt_ready_example : handled.0.is_mqtt_ready ≡ leb 2 (confirmations events 0)
handle_all-is_mqtt_ready_example =
    handle_all-is_mqtt_ready events silent handled.0 refl refl handled.1

no_address : address_of (zeros 241) ≡ []
unfolding address_of offset_of zeros
no_address = refl

same_address : address_of (take 241 (zeros 241)) ≡ address_of (zeros 241)
same_address = ap (λ i. address_of i) (take_all 241 (zeros 241) (omega (arith, length-zeros 241)))

short : length (address_of (zeros 241)) ≤ 50
short = rw no_address (omega arith)

message_image_example :
    mqtt_event_handler (message (eeprom_topic (zeros 241)) (zeros 241)) ready
    ≡ some (stored (zeros 241) ready)
message_image_example =
    message_image (zeros 241) ready (length-zeros 241) (omega (arith, length-zeros 241))
      same_address short

length-text : length (image_text (zeros 241)) ≡ 531
unfolding image_text address_of json_text joined decimal zeros offset_of
length-text = refl

few : length (image_text (zeros 241)) < 1024
few = omega (arith, length-text)

message_request_example :
    mqtt_event_handler (message (request_topic (zeros 241)) []) ready
    ≡ some (record ready { published = image_text (zeros 241) ∷ [] })
message_request_example = message_request [] ready refl short few

message_part_example :
    mqtt_event_handler (message (take 3 (eeprom_topic (zeros 241))) (zeros 241)) ready
    ≡ answer_request (address_of (zeros 241)) (stored (zeros 241) ready)
message_part_example =
    message_part 3 (zeros 241) ready (length-zeros 241) (omega (arith, length-zeros 241))
      same_address short (omega arith)
