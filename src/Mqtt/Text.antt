-- ===== src/Mqtt/Text.antt =====
-- What src/mqtt_app.c publishes against the text it is meant to be.
use aelebdwif01_dongle.Prelude.{
  ℕ, zero, suc, ◌+◌, ◌-◌, ◌≡◌, ◌≤◌, ◌<◌, ◌⊎◌, refl, sym, ap, ◌∙◌, List, [], ◌∷◌, ◌++◌, true, false,
  Option, none, some, inl, inr, arith, length, length-append, take, take_all, codes, ltb, lt_or_le,
  lt→ltb, le→ltb, le→leb, lt→leb, ◌>>=◌,
}
use aelebdwif01_dongle.Prelude.Latest.{append_assoc, append_nil}
use aelebdwif01_dongle.Mqtt.{
  Json, json_buffer_size, decimal, put, put_numbers, opening, ending, publish, publish_if,
  publish_debug_message,
}

-- The numbers, parted by commas.
unfoldable pub joined : List ℕ → List ℕ
joined [] = []
joined (x ∷ []) = decimal x
joined (x ∷ y ∷ ys) = decimal x ++ (codes "," ++ joined (y ∷ ys))

-- The whole text.
unfoldable pub json_text : List ℕ → List ℕ → List ℕ → List ℕ
json_text bytes topic address = opening ++ (joined bytes ++ ending topic address)

-- The array after a text: its first 1023 characters, and its length.
holding : List ℕ → Json
holding t = record { json_buffer = take (json_buffer_size - 1) t; json_len = length t }

take-append-take : (n : ℕ) (xs ys : List ℕ) → take n (take n xs ++ ys) ≡ take n (xs ++ ys)
take-append-take zero xs ys = refl
take-append-take (suc n) [] ys = refl
take-append-take (suc n) (x ∷ xs) ys = ap (λ t. x ∷ t) (take-append-take n xs ys)

put-holding :
    (text t : List ℕ)
    → length t ≤ json_buffer_size
    → put text (holding t) ≡ some (holding (t ++ text))
unfolding put holding
put-holding text t h = rw (le→leb h, take-append-take 1023 t text, sym (length-append t text)) refl

put-overrun : (text t : List ℕ) → json_buffer_size < length t → put text (holding t) ≡ none
unfolding put holding
put-overrun text t h = rw (lt→leb h) refl

-- Putting numbers gives their text behind what is there, if that fits; or else the array is overrun
-- or its length is past its end.
Puts : List ℕ → Option Json → Type 0
Puts t o = (o ≡ some (holding t)) ⊎ ((o ≡ none) × (json_buffer_size < length t))

numbers_step :
    (x y : ℕ) (ys : List ℕ) (o : Option Json)
    → (o >>= put (decimal x) >>= put (codes ",") >>= put_numbers (y ∷ ys))
      ≡ (o >>= put_numbers (x ∷ y ∷ ys))
unfolding put_numbers
numbers_step x y ys none = refl
numbers_step x y ys (some j) = refl

Puts-put : (t text : List ℕ) (o : Option Json) → Puts t o → Puts (t ++ text) (o >>= put text)
unfolding Puts
Puts-put t text o (inl e) = rw e (elim (lt_or_le json_buffer_size (length t)) [
  | inl h ↦
      let l : length (t ++ text) ≡ length t + length text = length-append t text in
      inr (put-overrun text t h, omega (arith, l, h))
  | inr h ↦ inl (put-holding text t h)
])
Puts-put t text o (inr h) =
    let l : length (t ++ text) ≡ length t + length text = length-append t text in
    let m = h.1 in rw (h.0) (inr (refl, omega (arith, l, m)))

Puts-put_numbers :
    (xs t : List ℕ) (o : Option Json) → Puts t o → Puts (t ++ joined xs) (o >>= put_numbers xs)
unfolding put_numbers joined
Puts-put_numbers [] t o h = rw (append_nil t) (whole o h)
  where
    whole : (o : Option Json) → Puts t o → Puts t (o >>= some)
    whole none h = h
    whole (some j) h = h
Puts-put_numbers (x ∷ []) t o h = Puts-put t (decimal x) o h
Puts-put_numbers (x ∷ y ∷ ys) t o h =
    let d = decimal x in
    let k = Puts-put (t ++ d) (codes ",") (o >>= put d) (Puts-put t d o h) in
    let n = Puts-put_numbers (y ∷ ys) ((t ++ d) ++ codes ",") (o >>= put d >>= put (codes ",")) k in
    let e : ((t ++ d) ++ codes ",") ++ joined (y ∷ ys)
        ≡ t ++ (d ++ (codes "," ++ joined (y ∷ ys))) =
      append_assoc (t ++ d) (codes ",") (joined (y ∷ ys))
      ∙ append_assoc t d (codes "," ++ joined (y ∷ ys)) in
    rw (e, numbers_step x y ys o) at n

opening-Puts : Puts opening (put opening (record { json_buffer = []; json_len = 0 }))
unfolding Puts holding
opening-Puts = inl (put-holding opening [] (omega arith))

-- The text of which the length fits is published; a longer one overruns the array.
unfoldable pub Publishes : Option (Option (List ℕ)) → List ℕ → Type 0
Publishes o t =
    (length t < json_buffer_size → o ≡ some (some t)) × (json_buffer_size < length t → o ≡ none)

Puts-publish : (t : List ℕ) (o : Option Json) → Puts t o → Publishes (o >>= publish_if true) t
unfolding Puts Publishes publish holding
Puts-publish t o (inl e) = rw e (
  λ h. rw (lt→ltb h) (ap (λ x. some (some x)) (take_all 1023 t (omega arith))),
  λ h. let n : ltb (length t) 1024 ≡ false = le→ltb (omega arith) in rw (n, lt→leb h) refl,
)
Puts-publish t o (inr h) = let l = h.1 in (λ k. absurd (omega (arith, k, l)), λ _. rw (h.0) refl)

-- A ready client publishes the JSON text of the bytes, the topic and the address if it has at most
-- 1023 characters; with more than 1024 the array is overrun.
pub publish_debug_message_lem :
    (bytes topic address : List ℕ)
    → Publishes (publish_debug_message true bytes topic address) (json_text bytes topic address)
unfolding publish_debug_message json_text
publish_debug_message_lem bytes topic address =
    let k =
      Puts-put (opening ++ joined bytes) (ending topic address) _
        (Puts-put_numbers bytes opening _ opening-Puts) in
    rw (append_assoc opening (joined bytes) (ending topic address)) at
      (Puts-publish ((opening ++ joined bytes) ++ ending topic address) _ k)
