-- ===== src/UnitComm/Firmware.antt =====
-- What the boot loader of the unit gets from src/unit_comm.c: the characters of all blocks, and
-- the bytes that they stand for.
use aelebdwif01_dongle.Prelude.{
  ℕ, zero, suc, ◌+◌, ◌-◌, ◌*◌, ◌/◌, ◌≤◌, ◌<◌, ◌≡◌, refl, sym, ap, ◌∙◌, List, [], ◌∷◌, ◌++◌, some,
  false, All, IsByte, arith, length, take, drop, slice, replicate, get_or-take, take-append_left,
  take_all, ltb, lt→ltb, le→ltb, ne→==, ◌==◌, none,
}
use mathlib.Core.List.{append_assoc}
use aelebdwif01_dongle.UnitComm.{Comm, Effect, uart_write, emit, bootloader_state_end, gpio_ready}
use aelebdwif01_dongle.UnitComm.Boot.{digit, encode_words, send_buffer, send_block}

-- The byte that two characters stand for.
abbrev pub byte_of : ℕ → ℕ → ℕ
byte_of hi lo = (hi - 48) * 16 + (lo - 48)

-- What eight characters at a time stand for: the four bytes of a word, in reverse.
abbrev pub decode_words : List ℕ → List ℕ
decode_words (a ∷ b ∷ c ∷ d ∷ e ∷ f ∷ g ∷ h ∷ rest) =
    byte_of g h ∷ byte_of e f ∷ byte_of c d ∷ byte_of a b ∷ decode_words rest
decode_words _ = []

byte_of-digits : (b : ℕ) → b < 256 → byte_of (digit 1 b) (digit 0 b) ≡ b
byte_of-digits b h = omega arith

-- The characters of n words stand for the words' bytes.
pub decode_words-encode_words :
    (n : ℕ) (bytes : List ℕ)
    → All IsByte bytes
    → length bytes ≡ 4 * n
    → decode_words (encode_words n bytes) ≡ bytes
unfolding encode_words
decode_words-encode_words zero [] h e = refl
decode_words-encode_words zero (b ∷ bs) h e = absurd (omega arith)
decode_words-encode_words (suc n) (a ∷ b ∷ c ∷ d ∷ rest) h e = rw (
  byte_of-digits a h.0,
  byte_of-digits b h.1.0,
  byte_of-digits c h.1.1.0,
  byte_of-digits d h.1.1.1.0,
  decode_words-encode_words n rest h.1.1.1.1 (omega arith),
)
decode_words-encode_words (suc n) _ h e = absurd (omega arith)

length-encode_words : (n : ℕ) (bytes : List ℕ) → length (encode_words n bytes) ≡ 8 * n
unfolding encode_words
length-encode_words zero bytes = refl
length-encode_words (suc n) bytes = omega (arith, length-encode_words n (drop 4 bytes))

drop-nil : (n : ℕ) → drop {A = ℕ} n [] ≡ []
drop-nil zero = refl
drop-nil (suc n) = refl

drop-drop : (m n : ℕ) (xs : List ℕ) → drop m (drop n xs) ≡ drop (n + m) xs
drop-drop m zero xs = let e : m ≡ 0 + m = omega arith in ap (λ k. drop k xs) e
drop-drop m (suc n) [] = drop-nil m ∙ sym (drop-nil (suc n + m))
drop-drop m (suc n) (x ∷ xs) =
    let e : suc (n + m) ≡ suc n + m = omega arith in drop-drop m n xs ∙ ap (λ k. drop k (x ∷ xs)) e

take-nil : (n : ℕ) → [] ≡ take {A = ℕ} n []
take-nil zero = refl
take-nil (suc n) = refl

drop-take : (n k : ℕ) (xs : List ℕ) → drop n (take (n + k) xs) ≡ take k (drop n xs)
drop-take zero k xs = let e : 0 + k ≡ k = omega arith in ap (λ j. take j xs) e
drop-take (suc n) k [] =
    let e : suc n + k ≡ suc (n + k) = omega arith in
    ap (λ j. drop (suc n) (take j [])) e ∙ take-nil k
drop-take (suc n) k (x ∷ xs) =
    let e : suc n + k ≡ suc (n + k) = omega arith in
    ap (λ j. drop (suc n) (take j (x ∷ xs))) e ∙ drop-take n k xs

encode_words-split :
    (a b : ℕ) (bytes : List ℕ)
    → encode_words (a + b) bytes ≡ encode_words a bytes ++ encode_words b (drop (4 * a) bytes)
unfolding encode_words
encode_words-split zero b bytes =
    let e : 0 + b ≡ b = omega arith in ap (λ k. encode_words k bytes) e
encode_words-split (suc a) b bytes =
    let e : suc a + b ≡ suc (a + b) = omega arith in
    let d : 4 + 4 * a ≡ 4 * suc a = omega arith in
    rw (e, ← d, ← drop-drop (4 * a) 4 bytes, encode_words-split a b (drop 4 bytes))

-- Only the bytes of the words count.
encode_words-take :
    (n k : ℕ) (bytes : List ℕ) → encode_words n (take (4 * n + k) bytes) ≡ encode_words n bytes
unfolding encode_words
encode_words-take zero k bytes = refl
encode_words-take (suc n) k bytes =
    let e : 4 * suc n + k ≡ 4 + (4 * n + k) = omega arith in
    rw (
      e,
      drop-take 4 (4 * n + k) bytes,
      encode_words-take n k (drop 4 bytes),
      get_or-take (4 + (4 * n + k)) 0 bytes 0 (omega arith),
      get_or-take (4 + (4 * n + k)) 1 bytes 0 (omega arith),
      get_or-take (4 + (4 * n + k)) 2 bytes 0 (omega arith),
      get_or-take (4 + (4 * n + k)) 3 bytes 0 (omega arith),
    )

-- The block of n words: exactly their characters are sent.
send_buffer_lem : (n : ℕ) (bytes : List ℕ) → send_buffer n bytes (8 * n) ≡ encode_words n bytes
unfolding send_buffer
send_buffer_lem n bytes =
    take-append_left (8 * n) (encode_words n bytes) (replicate 100 0)
      (omega (arith, length-encode_words n bytes))
    ∙ take_all (8 * n) (encode_words n bytes) (omega (arith, length-encode_words n bytes))

-- All the characters that the calls put on the wire, in order.
abbrev pub sent : List Effect → List ℕ
sent [] = []
sent (uart_write w ∷ es) = sent es ++ w
sent (_ ∷ es) = sent es

-- The transfer with p bytes of the file sent.
abbrev pub at_position : List ℕ → ℕ → ℕ → Comm → Comm
at_position file start p s = record s {
  boot = record {
    file = some file;
    handle = some p;
    filesize = length file;
    file_start = start;
    bytes_transfered = p;
  };
}

-- n acknowledged blocks.
unfoldable pub send_blocks : ℕ → Comm → Comm
send_blocks zero s = s
send_blocks (suc n) s = send_blocks n (send_block s)

send_block_more :
    (file : List ℕ) (start p : ℕ) (s : Comm)
    → 16 < length file - p
    → send_block (at_position file start p s)
      ≡ at_position file start (p + 16) (emit (uart_write (encode_words 4 (slice file p 16))) s)
unfolding send_block
send_block_more file start p s h = rw (lt→ltb h) (
    ap (λ w. at_position file start (p + 16) (emit (uart_write w) s))
      (send_buffer_lem 4 (slice file p 16)))

-- The last block, of w words.
last_block : List ℕ → ℕ → ℕ → ℕ → Comm → Comm
last_block file start p w s = emit (gpio_ready false) (
    emit (uart_write (encode_words w (slice file p (4 * w)))) (record s {
      boot = record {
        file = some file;
        handle = none;
        filesize = length file;
        file_start = start;
        bytes_transfered = p;
      };
      current_state = bootloader_state_end;
    }))

send_block_last :
    (file : List ℕ) (start p w : ℕ) (s : Comm)
    → length file ≡ p + 4 * w
    → 0 < w
    → w ≤ 4
    → send_block (at_position file start p s) ≡ last_block file start p w s
unfolding send_block last_block
send_block_last file start p w s e lo hi =
    let left : length file - p ≡ 4 * w = omega arith in
    let words : 4 * w / 4 ≡ w = omega arith in
    let chars : 4 * w * 2 ≡ 8 * w = omega arith in
    let fits : ltb 16 (4 * w) ≡ false = le→ltb (omega arith) in
    let some_left : (4 * w == 0) ≡ false = ne→== (omega arith) in
    rw (left, fits, some_left, words, chars, send_buffer_lem w (slice file p (4 * w))) refl

block_chars :
    (w p : ℕ) (file : List ℕ) → encode_words w (slice file p (4 * w)) ≡ encode_words w (drop p file)
block_chars w p file =
    let e : 4 * w ≡ 4 * w + 0 = omega arith in
    ap (λ k. encode_words w (take k (drop p file))) e ∙ encode_words-take w 0 (drop p file)

next_chars :
    (m w p : ℕ) (file : List ℕ)
    → encode_words 4 (slice file p 16) ++ encode_words (4 * m + w) (drop (p + 16) file)
      ≡ encode_words (4 * suc m + w) (drop p file)
next_chars m w p file =
    let e : 4 * suc m + w ≡ 4 + (4 * m + w) = omega arith in
    rw
      (e, encode_words-split 4 (4 * m + w) (drop p file), drop-drop 16 p file, block_chars 4 p file)

sent_from :
    (m start p w : ℕ) (file : List ℕ) (s : Comm)
    → length file ≡ p + 16 * m + 4 * w
    → 0 < w
    → w ≤ 4
    → (sent (send_blocks (suc m) (at_position file start p s)).trace
        ≡ sent s.trace ++ encode_words (4 * m + w) (drop p file))
      × ((send_blocks (suc m) (at_position file start p s)).current_state ≡ bootloader_state_end)
unfolding send_blocks last_block
sent_from zero start p w file s e lo hi =
    let one : w ≡ 4 * 0 + w = omega arith in
    rw (send_block_last file start p w s (omega arith) lo hi) (
      ap (λ x. sent s.trace ++ x)
          (block_chars w p file ∙ ap (λ k. encode_words k (drop p file)) one),
      refl,
    )
sent_from (suc m) start p w file s e lo hi =
    let t : Comm = emit (uart_write (encode_words 4 (slice file p 16))) s in
    let rest = sent_from m start (p + 16) w file t (omega arith) lo hi in
    let next = send_block_more file start p s (omega arith) in
    (
      ap (λ u. sent (send_blocks (suc m) u).trace) next
          ∙ rest.0
          ∙ append_assoc (sent s.trace) (encode_words 4 (slice file p 16))
              (encode_words (4 * m + w) (drop (p + 16) file))
          ∙ ap (λ x. sent s.trace ++ x) (next_chars m w p file),
      ap (λ u. (send_blocks (suc m) u).current_state) next ∙ rest.1,
    )

-- For a file of 16 * m + 4 * w bytes, w from 1 to 4, so a positive multiple of 4: m + 1
-- acknowledged blocks put the characters of its words on the wire, each once and in order; decoded,
-- they are the file, and the transfer is then at its end.
pub firmware_sent :
    (m start w : ℕ) (file : List ℕ) (s : Comm)
    → length file ≡ 16 * m + 4 * w
    → 0 < w
    → w ≤ 4
    → All IsByte file
    → let t = send_blocks (suc m) (at_position file start 0 s) in
      (sent t.trace ≡ sent s.trace ++ encode_words (4 * m + w) file)
      × (decode_words (encode_words (4 * m + w) file) ≡ file)
      × (t.current_state ≡ bootloader_state_end)
firmware_sent m start w file s e lo hi h =
    let run = sent_from m start 0 w file s (omega arith) lo hi in
    (run.0, decode_words-encode_words (4 * m + w) file h (omega arith), run.1)
