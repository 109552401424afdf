-- ===== src/Mqtt/Tests.antt =====
-- An example of a message: three bytes under a topic.
use aelebdwif01_dongle.Prelude.{[], ◌∷◌, true, codes}
use aelebdwif01_dongle.Mqtt.{decimal, publish_debug_message}
use aelebdwif01_dongle.Mqtt.Text.{Publishes, joined, json_text, publish_debug_message_lem}

publish_debug_message_lem_example :
    Publishes
      (publish_debug_message true (7 ∷ 42 ∷ 255 ∷ []) (codes "/x/esp/debug") (codes "x"))
      (codes "{\"message\":\"7,42,255\",\"topic\":\"/x/esp/debug\",\"address\":\"x\"}")
unfolding json_text joined decimal
publish_debug_message_lem_example =
    publish_debug_message_lem (7 ∷ 42 ∷ 255 ∷ []) (codes "/x/esp/debug") (codes "x")
