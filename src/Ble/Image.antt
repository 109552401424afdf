-- ===== src/Ble/Image.antt =====
-- An image that the app sends in chunks, and what becomes of it.
use aelebdwif01_dongle.Prelude.{
  ℕ, zero, suc, ◌+◌, ◌≤◌, ◌<◌, ◌≡◌, ◌↔◌, inl, inr, refl, sym, ap, ◌∙◌, List, [], ◌∷◌, ◌++◌, Option,
  none, some, true, false, Bool, arith, length, take, blit, memcpy_inside, memcpy_outside,
  length-blit, length-append, length-slice, take-append_left, take_all, take-take, blit_start, ltb,
  leb, slice-blit, memcpy, le→ltb, ◌>>=◌, ◌||◌, ◌&&◌, Bool-cases, ◌==◌, eq→==,
}
use mathlib.Core.List.{append_assoc, append-nil}
use aelebdwif01_dongle.Prelude.Bits.{test_bit, set_bit, test_bit-set_self, test_bit-set_ne}
use aelebdwif01_dongle.Eeprom.{sizeof_eeprom}
use aelebdwif01_dongle.Eeprom.Sections.{sizeof_eeprom_lem}
use aelebdwif01_dongle.Ble.{
  PrepareEnv, Status, gatt_ok, invalid_offset, invalid_attr_len, prepare_write, exec_write,
  request_writes, closed,
}

pub take-blit :
    (dst : List ℕ) (i : ℕ) (src : List ℕ)
    → i + length src ≤ length dst
    → take (i + length src) (blit dst i src) ≡ take i dst ++ src
take-blit dst zero src h =
    let e : zero + length src ≡ length src = omega arith in
    rw (e, blit_start dst src (omega arith))
      (take-append_left (length src) src _ (omega arith) ∙ take_all (length src) src (omega arith))
take-blit [] (suc i) src h = absurd (omega arith)
take-blit (d ∷ ds) (suc i) src h =
    let e : suc i + length src ≡ suc (i + length src) = omega arith in
    rw e (ap (λ t. d ∷ t) (take-blit ds i src (omega arith)))

abbrev accepted : Status × PrepareEnv → Option PrepareEnv
accepted (gatt_ok, p) = some p
accepted (_, p) = none

-- The chunks, each written behind the last from the offset on; `none` if one is not accepted.
unfoldable pub write_chunks : Option (List ℕ) → ℕ → List (List ℕ) → PrepareEnv → Option PrepareEnv
unfolding prepare_write
write_chunks heap offset [] p = some p
write_chunks heap offset (c ∷ cs) p = prepare_write heap offset c p >>= λ r.
    (accepted r >>= λ p'. write_chunks heap (offset + length c) cs p')

abbrev pub concat : List (List ℕ) → List ℕ
concat [] = []
concat (c ∷ cs) = c ++ concat cs

-- An open buffer that starts with the bytes written so far.
abbrev holding : List ℕ → ℕ → PrepareEnv
holding b n = record { prepare_buf = some b; prepare_len = n }

write_open :
    (heap : Option (List ℕ)) (offset : ℕ) (c b : List ℕ) (n : ℕ)
    → length b ≡ 1024
    → offset + length c ≤ 1024
    → prepare_write heap offset c (holding b n)
      ≡ some (gatt_ok, holding (blit b offset c) (n + length c))
unfolding prepare_write
write_open heap offset c b n l h =
    let small : ltb 1024 offset ≡ false = le→ltb (omega arith) in
    rw (
      small,
      le→ltb h,
      memcpy_inside b offset c 0 (length c) (omega arith) (omega arith),
      take_all (length c) c (omega arith),
    )

write_first :
    (heap : List ℕ) (c : List ℕ) (p : PrepareEnv)
    → p.prepare_buf ≡ none
    → length heap ≡ 1024
    → length c ≤ 1024
    → prepare_write (some heap) 0 c p ≡ some (gatt_ok, holding (blit heap 0 c) (length c))
unfolding prepare_write
write_first heap c p e l h =
    let n : 0 + length c ≡ length c = omega arith in
    rw (
      e,
      memcpy_inside heap 0 c 0 (length c) (omega arith) (omega arith),
      take_all (length c) c (omega arith),
      n,
    )

module _ (heap : Option (List ℕ)) where
  -- The buffer behind some chunks: it starts with what it held before the offset, and the chunks.
  abbrev Held : List (List ℕ) → ℕ → List ℕ → ℕ → Type 0
  Held cs offset b n =
      (b' : List ℕ) × (n' : ℕ) × (write_chunks heap offset cs (holding b n) ≡ some (holding b' n'))
      × (length b' ≡ 1024)
      × (take (offset + length (concat cs)) b' ≡ take offset b ++ concat cs)

  chunks-Held :
      (cs : List (List ℕ)) (offset : ℕ) (b : List ℕ) (n : ℕ)
      → length b ≡ 1024
      → offset + length (concat cs) ≤ 1024
      → Held cs offset b n
  unfolding write_chunks
  chunks-Held [] offset b n l h =
      let e : offset + 0 ≡ offset = omega arith in
      (b, n, refl, l, ap (λ k. take k b) e ∙ sym (append-nil (take offset b)))
  chunks-Held (c ∷ cs) offset b n l h =
      let m : length (c ++ concat cs) ≡ length c + length (concat cs) =
        length-append c (concat cs) in
      let (b', n', run, l', e) =
        chunks-Held cs (offset + length c) (blit b offset c) (n + length c)
          (length-blit b offset c ∙ l) (omega (arith, m)) in
      let k : offset + length (c ++ concat cs) ≡ offset + length c + length (concat cs) =
        omega (arith, m) in
      (
        b',
        n',
        ap (λ r. r >>= λ r. (accepted r >>= λ p. write_chunks heap (offset + length c) cs p))
              (write_open heap offset c b n l (omega (arith, m)))
            ∙ run,
        l',
        ap (λ j. take j b') k
            ∙ e
            ∙ ap (λ t. t ++ concat cs) (take-blit b offset c (omega (arith, m)))
            ∙ append_assoc (take offset b) c (concat cs),
      )

copy_whole : (dst src : List ℕ) → length src ≡ length dst → blit dst 0 src ≡ src
copy_whole dst src e =
    sym (take_all (length src) (blit dst 0 src) (omega (arith, length-blit dst 0 src)))
    ∙ slice-blit dst 0 src (omega arith)

pub copy_image :
    (b image : List ℕ)
    → 241 ≤ length b
    → length image ≡ 241
    → memcpy image 0 b 0 sizeof_eeprom ≡ some (take 241 b)
copy_image b image l i =
    let n : length (take 241 b) ≡ 241 = length-slice b 0 241 (omega arith) in
    rw sizeof_eeprom_lem (
      memcpy_inside image 0 b 0 241 (omega arith) (omega arith)
      ∙ ap (λ e. some e) (copy_whole image (take 241 b) (omega (arith, n))))

exec_held :
    (b image all : List ℕ) (n index : ℕ)
    → length b ≡ 1024
    → length image ≡ 241
    → 241 ≤ length all
    → take (length all) b ≡ all
    → exec_write true (holding b n) image index ≡ some (take 241 all, request_writes index, closed)
unfolding exec_write
exec_held b image all n index l i h e =
    let first : take 241 b ≡ take 241 all =
      sym (take-take 241 (length all) b h) ∙ ap (λ t. take 241 t) e in
    ap (λ m. m >>= λ e. some (e, request_writes index, closed))
      (copy_image b image (omega arith) i ∙ ap (λ e. some e) first)

-- An image that the app sends in chunks behind one another, of at least the image's size and at
-- most the buffer's, is stored whole, whatever the memory of the buffer held before: every chunk
-- is accepted, and the execution leaves the image's first 241 bytes, the requests to write its
-- sections, and no buffer.
pub image_stored :
    (heap c : List ℕ) (cs : List (List ℕ)) (image : List ℕ) (index : ℕ)
    → length heap ≡ 1024
    → length image ≡ 241
    → 241 ≤ length (concat (c ∷ cs))
    → length (concat (c ∷ cs)) ≤ 1024
    → (p : PrepareEnv) × (write_chunks (some heap) 0 (c ∷ cs) closed ≡ some p)
      × (exec_write true p image index
          ≡ some (take 241 (concat (c ∷ cs)), request_writes index, closed))
unfolding write_chunks
image_stored heap c cs image index l i lo hi =
    let m : length (c ++ concat cs) ≡ length c + length (concat cs) = length-append c (concat cs) in
    let z : 0 + length c ≡ length c = omega arith in
    let (b, n, run, l', e) =
      chunks-Held (some heap) cs (0 + length c) (blit heap 0 c) (length c)
        (length-blit heap 0 c ∙ l) (omega (arith, m)) in
    let k : length (c ++ concat cs) ≡ 0 + length c + length (concat cs) = omega (arith, m) in
    let all : take (length (c ++ concat cs)) b ≡ c ++ concat cs =
      ap (λ j. take j b) k ∙ e ∙ ap (λ t. t ++ concat cs) (take-blit heap 0 c (omega (arith, m))) in
    (
      holding b n,
      ap (λ r. r >>= λ r. (accepted r >>= λ p. write_chunks (some heap) (0 + length c) cs p))
            (write_first heap c closed refl l (omega (arith, m)))
          ∙ run,
      exec_held b image (c ++ concat cs) n index l' i lo all,
    )

some-none {ℓ} : {A : Type ℓ} (a : A) (o : Option A) → o ≡ some a → o ≡ none → ⊥
some-none a o e h = ground arith

open_accepted :
    (heap : Option (List ℕ)) (offset : ℕ) (c b : List ℕ) (n : ℕ)
    → length b ≡ 1024
    → (r : Status × PrepareEnv) × (prepare_write heap offset c (holding b n) ≡ some r)
unfolding prepare_write
open_accepted heap offset c b n l = elim (Bool-cases (ltb 1024 offset)) [
  | inl far ↦ ((invalid_offset, holding b n), rw far refl)
  | inr near ↦ elim (Bool-cases (ltb 1024 (offset + length c))) [
    | inl long ↦ ((invalid_attr_len, holding b n), rw (near, long) refl)
    | inr fits ↦ (
      (gatt_ok, holding (blit b offset c) (n + length c)),
      write_open heap offset c b n l (ground (arith, fits)),
    )
  ]
]

overruns_from :
    (heap : List ℕ) (offset : ℕ) (c : List ℕ) (buf : Option (List ℕ)) (n : ℕ)
    → length heap ≡ 1024
    → ((b : List ℕ) → buf ≡ some b → length b ≡ 1024)
    → (prepare_write (some heap) offset c (record { prepare_buf = buf; prepare_len = n }) ≡ none)
      ↔ ((buf ≡ none) × (1024 < offset + length c))
unfolding prepare_write
overruns_from heap offset c none n l h = (
  λ e. (
    refl,
    elim (Bool-cases (ltb 1024 (offset + length c))) [
      | inl long ↦ ground (arith, long)
      | inr fits ↦ absurd (
          some-none _ _
            (ap
              (λ m.
                (m >>= λ b'. some (record { prepare_buf = some b'; prepare_len = 0 + length c }))
                >>= λ p'. some (gatt_ok, p'))
              (memcpy_inside heap offset c 0 (length c) (ground (arith, fits)) (omega arith)))
            e)
    ],
  ),
  λ e.
      ap
        (λ m.
          (m >>= λ b'. some (record { prepare_buf = some b'; prepare_len = 0 + length c }))
          >>= λ p'. some (gatt_ok, p'))
        (memcpy_outside heap offset c 0 (length c) (inl (omega (arith, e)))),
)
overruns_from heap offset c (some b) n l h =
    let (r, run) = open_accepted (some heap) offset c b n (h b refl) in
    (λ e. absurd (some-none r _ run e), λ e. absurd (some-none b _ refl e.0))

-- A chunk is written outside of the buffer exactly if it is the first one and reaches past the
-- buffer's end: the offset and the length of a first chunk are not checked.
pub chunk_overruns :
    (heap : List ℕ) (offset : ℕ) (c : List ℕ) (p : PrepareEnv)
    → length heap ≡ 1024
    → ((b : List ℕ) → p.prepare_buf ≡ some b → length b ≡ 1024)
    → (prepare_write (some heap) offset c p ≡ none)
      ↔ ((p.prepare_buf ≡ none) × (1024 < offset + length c))
chunk_overruns heap offset c p l h = overruns_from heap offset c p.prepare_buf p.prepare_len l h

test_bit-set_bit : (j k x : ℕ) → test_bit k (set_bit j x) ≡ ((j == k) || test_bit k x)
test_bit-set_bit j k x = elim (Bool-cases (j == k)) [
  | inl e ↦
      let d : j ≡ k = ground (arith, e) in rw (d, test_bit-set_self k x, eq→== {a = k} refl) refl
  | inr e ↦ rw e (test_bit-set_ne j k x (ground (arith, e)))
]

five_bits :
    (a b c d e k x : ℕ)
    → test_bit k (set_bit e (set_bit d (set_bit c (set_bit b (set_bit a x)))))
      ≡ ((e == k) || ((d == k) || ((c == k) || ((b == k) || ((a == k) || test_bit k x)))))
five_bits a b c d e k x =
    test_bit-set_bit e k _
    ∙ ap (λ t. (e == k) || t)
        (test_bit-set_bit d k _
          ∙ ap (λ t. (d == k) || t)
              (test_bit-set_bit c k _
                ∙ ap (λ t. (c == k) || t)
                    (test_bit-set_bit b k _ ∙ ap (λ t. (b == k) || t) (test_bit-set_bit a k x))))

from_11_to_15 :
    (k : ℕ) (t : Bool)
    → ((15 == k) || ((14 == k) || ((13 == k) || ((12 == k) || ((11 == k) || t)))))
      ≡ ((leb 11 k && leb k 15) || t)
from_11_to_15 k t = ground arith

-- The execution of prepared writes asks for the five sections of bits 11 to 15 to be written, and
-- keeps every request that was pending.
pub request_writes_lem :
    (k index : ℕ) → test_bit k (request_writes index) ≡ ((leb 11 k && leb k 15) || test_bit k index)
unfolding request_writes
request_writes_lem k index = five_bits 11 12 13 14 15 k index ∙ from_11_to_15 k (test_bit k index)
