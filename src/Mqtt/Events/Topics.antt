-- ===== src/Mqtt/Events/Topics.antt =====
-- The topics on which the app writes, and the comparison that src/mqtt_app.c makes of them.
use aelebdwif01_dongle.Prelude.{
  ℕ, zero, suc, ◌+◌, ◌≡◌, ◌≢◌, ◌≤◌, refl, sym, ap, ◌∙◌, List, [], ◌∷◌, ◌++◌, Bool, true, false,
  arith, length, length-append, take, take_all, take-append_left, All, All-append, codes, c_string,
  drop, inl, inr, Bool-cases, eq→==, ne→==, ◌==◌, if◌then◌else◌,
}
use aelebdwif01_dongle.Prelude.Latest.{append_assoc}
use aelebdwif01_dongle.Eeprom.{offset_of}
use aelebdwif01_dongle.Mqtt.{mqtt_build_topic}
use aelebdwif01_dongle.Mqtt.Events.{address_of, strncmp_zero}

-- Every part of a text, from its start, compares as equal.
pub strncmp_zero-take : (n : ℕ) (text : List ℕ) → strncmp_zero (take n text) text ≡ true
strncmp_zero-take zero text = refl
strncmp_zero-take (suc n) [] = refl
strncmp_zero-take (suc n) (x ∷ xs) =
    rw (eq→== {a = x} {b = x} refl, strncmp_zero-take n xs) (same (x == 0))
  where
    same : (b : Bool) → (if b then true else true) ≡ true
    same true = refl
    same false = refl

-- Texts that part behind a common start without a NUL are told apart.
pub strncmp_zero_apart :
    (p xs ys : List ℕ) (x y : ℕ)
    → All (λ c. c ≢ 0) p
    → x ≢ y
    → strncmp_zero (p ++ (x ∷ xs)) (p ++ (y ∷ ys)) ≡ false
strncmp_zero_apart [] xs ys x y h d = rw (ne→== d) refl
strncmp_zero_apart (c ∷ p) xs ys x y h d =
    rw (eq→== {a = c} {b = c} refl, ne→== (h.0), strncmp_zero_apart p xs ys x y h.1 d) refl

c_string-All : (xs : List ℕ) → All (λ c. c ≢ 0) (c_string xs)
c_string-All [] = tt
c_string-All (x ∷ xs) = elim (Bool-cases (x == 0)) [
  | inl e ↦ rw e tt
  | inr e ↦ rw e ((λ z. absurd (cc (e, eq→== z))), c_string-All xs)
]

-- The topics of an image.
unfoldable pub eeprom_topic : List ℕ → List ℕ
eeprom_topic image = mqtt_build_topic 64 (address_of image) (codes "app/eeprom")

unfoldable pub request_topic : List ℕ → List ℕ
request_topic image = mqtt_build_topic 64 (address_of image) (codes "app/request")

-- What the address and the suffixes share.
unfoldable pub stem : List ℕ → List ℕ
stem image = codes "/" ++ (address_of image ++ codes "/app/")

length-stem : (image : List ℕ) → length (stem image) ≡ length (address_of image) + 6
unfolding stem
length-stem image = omega (arith, length-append (address_of image) (codes "/app/"))

suc_ne : (n : ℕ) → suc n ≢ 0
suc_ne n e = absurd (omega arith)

pub stem-All : (image : List ℕ) → All (λ c. c ≢ 0) (stem image)
unfolding stem address_of
stem-All image = (
  suc_ne 46,
  All-append (λ c. c ≢ 0) (c_string (drop (offset_of "SerialString") image)) (codes "/app/")
      (c_string-All (drop (offset_of "SerialString") image))
      (suc_ne 46, (suc_ne 96, (suc_ne 111, (suc_ne 111, (suc_ne 46, tt))))),
)

whole_topic :
    (address suffix : List ℕ)
    → length address + length suffix ≤ 57
    → mqtt_build_topic 64 address (codes "app/" ++ suffix)
      ≡ (codes "/" ++ (address ++ codes "/app/")) ++ suffix
whole_topic address suffix h =
    take_all 63 (codes "/" ++ (address ++ (codes "/app/" ++ suffix)))
      (omega (arith, h, length-append address (codes "/app/" ++ suffix)))
    ∙ ap (λ t. codes "/" ++ t) (sym (append_assoc address (codes "/app/") suffix))

pub eeprom_topic_lem :
    (image : List ℕ)
    → length (address_of image) ≤ 50
    → eeprom_topic image ≡ stem image ++ codes "eeprom"
unfolding eeprom_topic stem
eeprom_topic_lem image h = whole_topic (address_of image) (codes "eeprom") (omega arith)

pub request_topic_lem :
    (image : List ℕ)
    → length (address_of image) ≤ 50
    → request_topic image ≡ stem image ++ codes "request"
unfolding request_topic stem
request_topic_lem image h = whole_topic (address_of image) (codes "request") (omega arith)

pub exact : (t : List ℕ) → strncmp_zero t t ≡ true
exact t = rw (take_all (length t) t (omega arith)) at (strncmp_zero-take (length t) t)

-- The two topics, of images with the same address.
module _ (image next : List ℕ) (short : length (address_of image) ≤ 50)
    (same : address_of next ≡ address_of image) where
  same_stem : request_topic next ≡ stem image ++ codes "request"
  unfolding stem
  same_stem =
      request_topic_lem next (omega (arith, short, ap (λ t. length t) same))
      ∙ ap (λ a. (codes "/" ++ (a ++ codes "/app/")) ++ codes "request") same

  pub topics_apart : strncmp_zero (eeprom_topic image) (request_topic next) ≡ false
  topics_apart =
      ap (λ t. strncmp_zero t (request_topic next)) (eeprom_topic_lem image short)
      ∙ ap (λ t. strncmp_zero (stem image ++ codes "eeprom") t) same_stem
      ∙ strncmp_zero_apart (stem image) (codes "eprom") (codes "equest") 101 114 (stem-All image)
          (λ e. absurd (omega arith))

  pub part_of_both :
      (n : ℕ)
      → n ≤ length (address_of image) + 6
      → strncmp_zero (take n (eeprom_topic image)) (request_topic next) ≡ true
  part_of_both n h =
      let l = length-stem image in
      let e : take n (eeprom_topic image) ≡ take n (request_topic next) =
        ap (λ t. take n t) (eeprom_topic_lem image short)
        ∙ take-append_left n (stem image) (codes "eeprom") (omega (arith, h, l))
        ∙ sym (take-append_left n (stem image) (codes "request") (omega (arith, h, l)))
        ∙ ap (λ t. take n t) (sym same_stem) in
      ap (λ t. strncmp_zero t (request_topic next)) e ∙ strncmp_zero-take n (request_topic next)
