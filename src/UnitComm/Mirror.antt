-- ===== src/UnitComm/Mirror.antt =====
-- The image of the unit's EEPROM, mirrored by the replies to the reads of its sections.
use aelebdwif01_dongle.Prelude.{
  ℕ, ◌+◌, ◌-◌, ◌≤◌, ◌<◌, ◌≡◌, ◌⊎◌, inl, inr, refl, sym, ap, ◌∙◌, List, [], ◌∷◌, ◌++◌, Option, some,
  arith, length, get_or, take, drop, slice, blit, length-append, length-slice, length-blit,
  get_or-take, get_or-drop, get_or-blit_out, slice-blit, memcpy_inside, memcpy, memcpy_outside,
  none, ◌↔◌, take-append_left, take_all, ◌>>=◌,
}
use aelebdwif01_dongle.Eeprom.{Section, start_address, count, sizeof_eeprom}
use aelebdwif01_dongle.Eeprom.Sections.{InSection, section_fits}
use aelebdwif01_dongle.Serial.{command_read_eeprom}
use aelebdwif01_dongle.Serial.Send.{frame}
use aelebdwif01_dongle.Serial.Transfer.{padded, length-padded}
use aelebdwif01_dongle.Serial.Integrity.{padded-eq-append, get_or-padded, length-frame}
use aelebdwif01_dongle.UnitComm.{Comm}
use aelebdwif01_dongle.UnitComm.Parse.{read_eeprom_data_parse}

-- The reply to a read: the address, the number of bytes, and the bytes.
abbrev pub reply : ℕ → List ℕ → List ℕ
reply address bytes = frame command_read_eeprom (address ∷ length bytes ∷ bytes)

take-append_twice : (xs ys zs : List ℕ) → take (length xs) ((xs ++ ys) ++ zs) ≡ xs
take-append_twice xs ys zs =
    take-append_left (length xs) (xs ++ ys) zs (omega (arith, length-append xs ys))
    ∙ take-append_left (length xs) xs ys (omega arith)
    ∙ take_all (length xs) xs (omega arith)

-- The message in the receiver's buffer.
slice-reply :
    (address : ℕ) (bytes : List ℕ)
    → length bytes ≤ 119
    → slice (padded (reply address bytes)) 6 (length bytes) ≡ bytes
slice-reply address bytes h =
    let fits : length (reply address bytes) ≤ 127 =
      omega (arith, length-frame command_read_eeprom (address ∷ length bytes ∷ bytes)) in
    rw (padded-eq-append (reply address bytes) fits) (take-append_twice bytes _ _)

get_or-blit_in :
    (dst : List ℕ) (i : ℕ) (src : List ℕ) (j : ℕ)
    → i + length src ≤ length dst
    → j < length src
    → get_or (blit dst i src) (i + j) 0 ≡ get_or src j 0
get_or-blit_in dst i src j h k =
    sym (get_or-drop i j (blit dst i src) 0)
    ∙ sym (get_or-take (length src) j (drop i (blit dst i src)) 0 k)
    ∙ ap (λ l. get_or l j 0) (slice-blit dst i src h)

-- Byte i of an image is that of the unit.
abbrev pub Agrees : List ℕ → List ℕ → ℕ → Type 0
Agrees unit image i = get_or image i 0 ≡ get_or unit i 0

-- Byte i is one of the k bytes from a on.
abbrev pub Within : ℕ → ℕ → ℕ → Type 0
Within a k i = (a ≤ i) × (i < a + k)

copied :
    (unit image : List ℕ) (a k j : ℕ)
    → a + k ≤ length unit
    → length image ≡ length unit
    → j < k
    → Agrees unit (blit image a (slice unit a k)) (a + j)
copied unit image a k j h e lt =
    let n : length (slice unit a k) ≡ k = length-slice unit a k h in
    get_or-blit_in image a (slice unit a k) j (omega (arith, n)) (omega (arith, n))
    ∙ get_or-take k j (drop a unit) 0 lt
    ∙ get_or-drop a j unit 0

kept :
    (unit image : List ℕ) (a k i : ℕ)
    → a + k ≤ length unit
    → (i < a) ⊎ (a + k ≤ i)
    → Agrees unit image i
    → Agrees unit (blit image a (slice unit a k)) i
kept unit image a k i h out g =
    let n : length (slice unit a k) ≡ k = length-slice unit a k h in
    get_or-blit_out image a (slice unit a k) i (omega (arith, n, out)) ∙ g

inside_or_out : (a k i : ℕ) → Within a k i ⊎ ((i < a) ⊎ (a + k ≤ i))
inside_or_out a k i = omega arith

-- A copy of the unit's bytes to their place agrees there, and disturbs no byte that agreed.
copy-Agrees :
    (unit image : List ℕ) (a k i : ℕ)
    → a + k ≤ length unit
    → length image ≡ length unit
    → Within a k i ⊎ Agrees unit image i
    → Agrees unit (blit image a (slice unit a k)) i
copy-Agrees unit image a k i h e which = elim (inside_or_out a k i) [
  | inl w ↦
      let at : a + (i - a) ≡ i = omega (arith, w) in
      rw (← at) (copied unit image a k (i - a) h e (omega (arith, w)))
  | inr out ↦ elim which [
    | inl w ↦ absurd (omega (arith, w, out))
    | inr g ↦ kept unit image a k i h out g
  ]
]

module _ (unit : List ℕ) (a k : ℕ) (s : Comm) where
  parse_reply :
      a + k ≤ length unit
      → k ≤ 119
      → length s.eeprom ≡ length unit
      → read_eeprom_data_parse (padded (reply a (slice unit a k))) s
        ≡ some (record s { eeprom = blit s.eeprom a (slice unit a k) })
  unfolding read_eeprom_data_parse
  parse_reply h le e =
      let bytes : List ℕ = slice unit a k in
      let n : length bytes ≡ k = length-slice unit a k h in
      let m : length (reply a bytes) ≡ 8 + k =
        omega (arith, n, length-frame command_read_eeprom (a ∷ length bytes ∷ bytes)) in
      rw (
        get_or-padded (reply a bytes) 4 (omega (arith, m)) (omega (arith, m)),
        get_or-padded (reply a bytes) 5 (omega (arith, m)) (omega (arith, m)),
        memcpy_inside s.eeprom a (padded (reply a bytes)) 6 (length bytes) (omega (arith, n))
            (omega (arith, n, length-padded (reply a bytes))),
        slice-reply a bytes (omega (arith, n)),
      )

-- The replies to the reads of some sections, one after the other.
unfoldable pub parse_replies : List ℕ → List Section → Comm → Option Comm
unfolding read_eeprom_data_parse
parse_replies unit [] s = some s
parse_replies unit (x ∷ xs) s =
    read_eeprom_data_parse
      (padded (reply (start_address x) (slice unit (start_address x) (count x)))) s
    >>= λ t. parse_replies unit xs t

-- Byte i is in one of the sections.
abbrev pub InSome : List Section → ℕ → Type 0
InSome [] i = ⊥
InSome (x ∷ xs) i = InSection x i ⊎ InSome xs i

-- The replies to the reads of any sections are all stored, and behind them the image has the
-- unit's byte at every place of these sections, and at every place where it had it before.
pub replies_mirror :
    (unit : List ℕ) (xs : List Section) (s : Comm)
    → length unit ≡ sizeof_eeprom
    → length s.eeprom ≡ length unit
    → (e : List ℕ) × (parse_replies unit xs s ≡ some (record s { eeprom = e }))
      × (length e ≡ length unit)
      × ((i : ℕ) → InSome xs i ⊎ Agrees unit s.eeprom i → Agrees unit e i)
unfolding parse_replies
replies_mirror unit [] s u e = (s.eeprom, refl, e, λ i h. elim h [ inl b ↦ absurd b | inr g ↦ g ])
replies_mirror unit (x ∷ xs) s u e =
    let (inside, short) = section_fits x in
    let image : List ℕ = blit s.eeprom (start_address x) (slice unit (start_address x) (count x)) in
    let same : length image ≡ length unit = length-blit s.eeprom _ _ ∙ e in
    let place : start_address x + count x ≤ length unit = omega (arith, inside, u) in
    let step : (i : ℕ)
        → InSome (x ∷ xs) i ⊎ Agrees unit s.eeprom i
        → InSome xs i ⊎ Agrees unit image i =
      λ i h. elim h [
        | inl (inl p) ↦
            inr (copy-Agrees unit s.eeprom (start_address x) (count x) i place e (inl p))
        | inl (inr q) ↦ inl q
        | inr g ↦ inr (copy-Agrees unit s.eeprom (start_address x) (count x) i place e (inr g))
      ] in
    let (e', run, n, agree) = replies_mirror unit xs (record s { eeprom = image }) u same in
    (
      e',
      ap (λ m. m >>= λ t. parse_replies unit xs t)
            (parse_reply unit (start_address x) (count x) s place (omega (arith, short)) e)
          ∙ run,
      n,
      λ i h. agree i (step i h),
    )

some-none : {t : Comm} → some t ≡ none → ⊥
some-none h = ground arith

-- The reply to a read overruns memory exactly if its address and number of bytes reach past the
-- image, or its number of bytes past the receiver's buffer: neither is checked.
reply_overruns :
    (rx : List ℕ) (s : Comm)
    → length rx ≡ 128
    → (read_eeprom_data_parse rx s ≡ none)
      ↔ ((length s.eeprom < get_or rx 4 0 + get_or rx 5 0) ⊎ (122 < get_or rx 5 0))
unfolding read_eeprom_data_parse
reply_overruns rx s n = (
  λ h. elim (overruns_or_fits (get_or rx 4 0) (get_or rx 5 0)) [
    | inl o ↦ o
    | inr f ↦ absurd (some-none (sym (inside f) ∙ h))
  ],
  λ h. outside h,
)
  where
    overruns_or_fits :
        (a k : ℕ)
        → ((length s.eeprom < a + k) ⊎ (122 < k)) ⊎ ((a + k ≤ length s.eeprom) × (k ≤ 122))
    overruns_or_fits a k = omega arith

    inside :
        (get_or rx 4 0 + get_or rx 5 0 ≤ length s.eeprom) × (get_or rx 5 0 ≤ 122)
        → (memcpy s.eeprom (get_or rx 4 0) rx 6 (get_or rx 5 0) >>= λ e.
            some (record s { eeprom = e }))
          ≡ some (record s { eeprom = blit s.eeprom (get_or rx 4 0) (slice rx 6 (get_or rx 5 0)) })
    inside f =
        rw (memcpy_inside s.eeprom (get_or rx 4 0) rx 6 (get_or rx 5 0) f.0 (omega (arith, f, n)))
          refl

    outside :
        (length s.eeprom < get_or rx 4 0 + get_or rx 5 0) ⊎ (122 < get_or rx 5 0)
        → (memcpy s.eeprom (get_or rx 4 0) rx 6 (get_or rx 5 0) >>= λ e.
            some (record s { eeprom = e }))
          ≡ none
    outside o =
        rw (memcpy_outside s.eeprom (get_or rx 4 0) rx 6 (get_or rx 5 0) (omega (arith, o, n))) refl
