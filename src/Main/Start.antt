-- ===== src/Main/Start.antt =====
-- The board's serial number, which `app_main` of src/main.c composes at the start.
use aelebdwif01_dongle.Prelude.Latest.{append_assoc}
use aelebdwif01_dongle.Prelude.{
  hex_digit, hex_byte, replicate, ne→==, ℕ, zero, suc, ◌+◌, ◌/◌, ◌%◌, ◌≡◌, ◌≢◌, ◌<◌, refl, sym, ap,
  ◌∙◌, List, [], ◌∷◌, ◌++◌, true, false, Option, none, some, arith, length, length-append,
  length-zeros, zeros, drop, All, blit, blit_start, codes, c_string, ltb, lt→ltb, le→ltb,
  if◌then◌else◌, ◌>>=◌,
}

-- `sizeof(Serial_Number)` and `sizeof(buffer)`
abbrev pub serial_number_length : ℕ
serial_number_length = 20

abbrev pub buffer_length : ℕ
buffer_length = 20

-- `strcat`: the text and its NUL go behind the string, `none` if they reach past the array.
unfoldable pub strcat : List ℕ → List ℕ → Option (List ℕ)
strcat dst text =
    let n = length (c_string dst) in
    if ltb (n + length text) (length dst) then some (blit dst n (text ++ (0 ∷ []))) else none

abbrev pub hex_text : List ℕ → List ℕ
hex_text [] = []
hex_text (b ∷ bs) = hex_byte b ++ hex_text bs

-- `sprintf` into an array of a size.
unfoldable pub sprintf : ℕ → List ℕ → Option (List ℕ)
sprintf size text = if ltb (length text) size then some text else none

abbrev pub prefix : List ℕ
prefix = codes "WIFI-WBM-"

-- `Serial_Number`, in an array of a size that holds zeros, from the bytes of the MAC address.
unfoldable pub serial_number_in : ℕ → List ℕ → Option (List ℕ)
unfolding strcat sprintf
serial_number_in size mac = strcat (zeros size) prefix >>= λ s.
    (sprintf buffer_length (hex_text mac) >>= λ text. strcat s text)

unfoldable pub board_serial_number : List ℕ → Option (List ℕ)
unfolding serial_number_in
board_serial_number mac = serial_number_in serial_number_length mac

length-hex_text : (mac : List ℕ) → length (hex_text mac) ≡ length mac + length mac
length-hex_text [] = refl
length-hex_text (b ∷ bs) = let h = length-hex_text bs in omega arith

hex_digit_ne : (d : ℕ) → hex_digit d ≢ 0
hex_digit_ne d = ground arith

-- The array: a text, a NUL and zeros.
unfoldable pub holds : List ℕ → ℕ → List ℕ
holds t k = t ++ zeros (suc k)

c_string-holds : (t : List ℕ) (k : ℕ) → All (λ c. c ≢ 0) t → c_string (holds t k) ≡ t
unfolding holds zeros
c_string-holds [] k h = refl
c_string-holds (x ∷ t) k h = rw (ne→== (h.0)) (ap (λ l. x ∷ l) (c_string-holds t k h.1))

blit_behind : (t dst src : List ℕ) → blit (t ++ dst) (length t) src ≡ t ++ blit dst zero src
blit_behind [] dst src = refl
blit_behind (x ∷ t) dst src = ap (λ l. x ∷ l) (blit_behind t dst src)

drop-zeros : (j k : ℕ) → drop j (zeros (j + k)) ≡ zeros k
unfolding zeros
drop-zeros zero k = let e : 0 + k ≡ k = omega arith in ap (λ m. replicate m 0) e
drop-zeros (suc j) k =
    let e : suc j + k ≡ suc (j + k) = omega arith in
    ap (λ m. drop (suc j) (replicate m 0)) e ∙ drop-zeros j k

length-holds : (t : List ℕ) (k : ℕ) → length (holds t k) ≡ length t + (k + 1)
unfolding holds
length-holds t k = omega (arith, length-append t (zeros (suc k)), length-zeros (suc k))

placed :
    (t text : List ℕ) (k : ℕ)
    → blit (holds t (length text + k)) (length t) (text ++ (0 ∷ [])) ≡ holds (t ++ text) k
unfolding holds zeros
placed t text k =
    let n = length-append text (0 ∷ []) in
    let e : suc (length text + k) ≡ length (text ++ (0 ∷ [])) + k = omega (arith, n) in
    blit_behind t (zeros (suc (length text + k))) (text ++ (0 ∷ []))
    ∙ ap (λ l. t ++ l)
        (blit_start (zeros (suc (length text + k))) (text ++ (0 ∷ []))
            (omega (arith, n, length-zeros (suc (length text + k))))
          ∙ ap (λ m. (text ++ (0 ∷ [])) ++ drop (length (text ++ (0 ∷ []))) (zeros m)) e
          ∙ ap (λ l. (text ++ (0 ∷ [])) ++ l) (drop-zeros (length (text ++ (0 ∷ []))) k)
          ∙ append_assoc text (0 ∷ []) (zeros k))
    ∙ sym (append_assoc t text (zeros (suc k)))

-- A text that fits goes behind the text before; one that does not overruns the array.
strcat_fits :
    (t text : List ℕ) (k : ℕ)
    → All (λ c. c ≢ 0) t
    → strcat (holds t (length text + k)) text ≡ some (holds (t ++ text) k)
unfolding strcat
strcat_fits t text k h =
    let z = length text + k in
    let c = c_string-holds t z h in
    let fits : ltb (length t + length text) (length (holds t z)) ≡ true =
      lt→ltb (omega (arith, length-holds t z)) in
    rw (c, fits) (ap some (placed t text k))

strcat_overruns :
    (t text : List ℕ) (k : ℕ)
    → All (λ c. c ≢ 0) t
    → k < length text
    → strcat (holds t k) text ≡ none
unfolding strcat
strcat_overruns t text k h m =
    let over : ltb (length t + length text) (length (holds t k)) ≡ false =
      le→ltb (omega (arith, length-holds t k, m)) in
    rw (c_string-holds t k h, over) refl

hex_text-All : (mac : List ℕ) → All (λ c. c ≢ 0) (hex_text mac)
hex_text-All [] = tt
hex_text-All (b ∷ bs) = (hex_digit_ne (b / 16 % 16), (hex_digit_ne (b % 16), hex_text-All bs))

prefix-All : All (λ c. c ≢ 0) prefix
prefix-All = all_suc (86 ∷ 72 ∷ 69 ∷ 72 ∷ 44 ∷ 86 ∷ 65 ∷ 76 ∷ 44 ∷ [])
  where
    incremented : List ℕ → List ℕ
    incremented [] = []
    incremented (x ∷ xs) = suc x ∷ incremented xs

    all_suc : (xs : List ℕ) → All (λ c. c ≢ 0) (incremented xs)
    all_suc [] = tt
    all_suc (x ∷ xs) = ((λ e. absurd (omega arith)), all_suc xs)

sprintf_fits :
    (mac : List ℕ) → length mac ≡ 6 → sprintf buffer_length (hex_text mac) ≡ some (hex_text mac)
unfolding sprintf
sprintf_fits mac h =
    let fits : ltb (length (hex_text mac)) 20 ≡ true =
      lt→ltb (omega (arith, length-hex_text mac, h)) in
    rw fits refl

-- An array of a size behind the first text.
prefix_stored : (k : ℕ) → strcat (zeros (10 + k)) prefix ≡ some (holds prefix k)
unfolding holds zeros
prefix_stored k =
    let e : 10 + k ≡ suc (9 + k) = omega arith in
    ap (λ m. strcat (zeros m) prefix) e ∙ strcat_fits [] prefix k tt

module _ (mac : List ℕ) (six : length mac ≡ 6) where
  second_text :
      (size k : ℕ)
      → size ≡ 10 + k
      → serial_number_in size mac ≡ strcat (holds prefix k) (hex_text mac)
  unfolding serial_number_in
  second_text size k e =
      ap
        (λ m. strcat (zeros m) prefix >>= λ s.
          (sprintf buffer_length (hex_text mac) >>= λ text. strcat s text))
        e
      ∙ ap (λ o. o >>= λ s. (sprintf buffer_length (hex_text mac) >>= λ text. strcat s text))
          (prefix_stored k)
      ∙ ap (λ o. o >>= λ text. strcat (holds prefix k) text) (sprintf_fits mac six)

  -- The serial number of any MAC address of six bytes overruns its array of 20 characters; in an
  -- array of at least 22 it would be stored with its NUL, and zeros behind it.
  pub board_serial_number_lem :
      (k : ℕ)
      → (board_serial_number mac ≡ none)
        × (serial_number_in (22 + k) mac ≡ some (holds (prefix ++ hex_text mac) k))
  unfolding board_serial_number
  board_serial_number_lem k =
      let n = length-hex_text mac in
      let e : 22 + k ≡ 10 + (12 + k) = omega arith in
      let m : 12 + k ≡ length (hex_text mac) + k = omega (arith, n, six) in
      (
        second_text 20 10 refl
            ∙ strcat_overruns prefix (hex_text mac) 10 prefix-All (omega (arith, n, six)),
        second_text (22 + k) (12 + k) e
            ∙ ap (λ j. strcat (holds prefix j) (hex_text mac)) m
            ∙ strcat_fits prefix (hex_text mac) k prefix-All,
      )
