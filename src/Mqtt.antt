-- ===== src/Mqtt.antt =====
-- The messages that src/mqtt_app.c publishes: JSON text with bytes as decimal numbers, built in an
-- array of 1024 characters.
pub mod Text
pub mod Events
mod Tests
use aelebdwif01_dongle.Prelude.{
  ℕ, ◌+◌, ◌-◌, ◌/◌, ◌%◌, List, [], ◌∷◌, ◌++◌, Bool, true, false, Option, none, some, length, take,
  codes, ltb, leb, if◌then◌else◌, ◌>>=◌,
}

-- `sizeof(json_buffer)`
abbrev pub json_buffer_size : ℕ
json_buffer_size = 1024

-- A decimal digit as a character.
abbrev pub digit_char : ℕ → ℕ
digit_char d = 48 + d

-- `%d` of a byte.
unfoldable pub decimal : ℕ → List ℕ
decimal b =
    if ltb b 10
    then digit_char b ∷ []
    else (if ltb b 100
        then digit_char (b / 10) ∷ digit_char (b % 10) ∷ []
        else digit_char (b / 100) ∷ digit_char (b / 10 % 10) ∷ digit_char (b % 10) ∷ [])

-- The string in `json_buffer`, and `json_len`.
pub record Json : Type 0 where
  pub json_buffer : List ℕ
  pub json_len : ℕ

-- `json_len += snprintf(json_buffer + json_len, sizeof(json_buffer) - json_len, ...)`: the string is cut
-- at the end of the array. A length past it makes the size wrap around, and nothing limits the write.
unfoldable pub put : List ℕ → Json → Option Json
put text j =
    if leb j.json_len json_buffer_size
    then some (record j {
      json_buffer = take (json_buffer_size - 1) (j.json_buffer ++ text);
      json_len = j.json_len + length text;
    })
    else none

-- The loop over the data: numbers, parted by commas.
unfoldable pub put_numbers : List ℕ → Json → Option Json
put_numbers [] j = some j
put_numbers (x ∷ []) j = put (decimal x) j
put_numbers (x ∷ y ∷ ys) j = put (decimal x) j >>= put (codes ",") >>= put_numbers (y ∷ ys)

-- The end of the text: the topic and the address.
abbrev pub ending : List ℕ → List ℕ → List ℕ
ending topic address =
    codes "\",\"topic\":\"" ++ (topic ++ (codes "\",\"address\":\"" ++ (address ++ codes "\"}")))

abbrev pub opening : List ℕ
opening = codes "{\"message\":\""

-- The call of `esp_mqtt_client_publish`, which reads `json_len` characters, the NUL among them.
unfoldable pub publish : Json → Option (List ℕ)
publish j =
    if ltb j.json_len json_buffer_size
    then some j.json_buffer
    else (if leb j.json_len json_buffer_size then some (j.json_buffer ++ (0 ∷ [])) else none)

-- Nothing is published unless the client is ready.
abbrev pub publish_if : Bool → Json → Option (Option (List ℕ))
publish_if true j = publish j >>= λ m. some (some m)
publish_if false j = some none

-- `publish_debug_message`: the message that is published, if any.
unfoldable pub publish_debug_message : Bool → List ℕ → List ℕ → List ℕ → Option (Option (List ℕ))
publish_debug_message ready bytes topic address =
    put opening (record { json_buffer = []; json_len = 0 })
    >>= put_numbers bytes
    >>= put (ending topic address)
    >>= publish_if ready

-- `mqtt_build_topic`, in an array of a size.
abbrev pub mqtt_build_topic : ℕ → List ℕ → List ℕ → List ℕ
mqtt_build_topic buffer_size address suffix =
    take (buffer_size - 1) (codes "/" ++ (address ++ (codes "/" ++ suffix)))

-- `mqtt_publish_with_suffix`
unfoldable pub mqtt_publish_with_suffix : Bool → List ℕ → List ℕ → List ℕ → Option (Option (List ℕ))
unfolding publish_debug_message
mqtt_publish_with_suffix ready address suffix bytes =
    publish_debug_message ready bytes (mqtt_build_topic 64 address suffix) address
