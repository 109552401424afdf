-- ===== src/Prelude/Bytes.antt =====
-- `memcpy`, slices and the C string functions that the source uses, over lists of bytes.
use Prim.Native.Nat.{ℕ, zero, suc, ◌+◌, ◌/◌, ◌%◌, ◌<◌, ◌≤◌}
use Prim.Native.String.{String}
use Prim.Native.Char.{code}
use mathlib.Core.Path.{◌≡◌, refl, ap}
use mathlib.Core.Logic.{◌⊎◌, inl, inr}
use mathlib.Core.Bool.{Bool, true, false, ◌&&◌, ◌||◌}
use mathlib.Core.Option.{Option, none, some}
use mathlib.Core.List.{List, [], ◌∷◌, ◌++◌}
use native.Mathlib.Omega.{arith}
use aelebdwif01_dongle.Prelude.Tests.{◌==◌, ltb, leb, if◌then◌else◌, le→leb, lt→leb, Bool-cases}
use aelebdwif01_dongle.Prelude.Lists.{
  length, get_or, set, take, drop, replicate, All, length-take, length-drop, length-replicate,
}

-- The bytes of an ASCII text.
abbrev pub codes : String → List ℕ
codes String.[] = []
codes (String.◌∷◌ c s) = code c ∷ codes s

abbrev pub slice : List ℕ → ℕ → ℕ → List ℕ
slice xs i n = take n (drop i xs)

-- `memset(dst, 0, n)` over a whole array.
unfoldable pub zeros : ℕ → List ℕ
zeros n = replicate n 0

pub length-zeros : (n : ℕ) → length (zeros n) ≡ n
unfolding zeros
length-zeros n = length-replicate n 0

-- The destination of `memcpy(dst + i, src, length src)`; what falls outside is cut off.
abbrev pub blit : List ℕ → ℕ → List ℕ → List ℕ
blit [] i src = []
blit (d ∷ ds) zero [] = d ∷ ds
blit (d ∷ ds) zero (x ∷ xs) = x ∷ blit ds zero xs
blit (d ∷ ds) (suc i) src = d ∷ blit ds i src

-- `memcpy(dst + di, src + si, n)`: `none` if it reads or writes out of bounds.
unfoldable pub memcpy : List ℕ → ℕ → List ℕ → ℕ → ℕ → Option (List ℕ)
memcpy dst di src si n =
    if leb (di + n) (length dst) && leb (si + n) (length src)
    then some (blit dst di (slice src si n))
    else none

-- The bytes of an array up to its first NUL.
abbrev pub c_string : List ℕ → List ℕ
c_string [] = []
c_string (x ∷ xs) = let rest = c_string xs in if x == 0 then [] else x ∷ rest

-- `%02X`
abbrev pub hex_digit : ℕ → ℕ
hex_digit d = if ltb d 10 then 48 + d else 55 + d

abbrev pub hex_byte : ℕ → List ℕ
hex_byte b = hex_digit (b / 16 % 16) ∷ hex_digit (b % 16) ∷ []

abbrev pub starts_with : List ℕ → List ℕ → Bool
starts_with [] s = true
starts_with (p ∷ ps) [] = false
starts_with (p ∷ ps) (c ∷ cs) = (p == c) && starts_with ps cs

abbrev pub has_infix : List ℕ → List ℕ → Bool
has_infix p [] = starts_with p []
has_infix p (c ∷ cs) = starts_with p (c ∷ cs) || has_infix p cs

-- `strstr(array, text) != NULL`.
unfoldable pub strstr : List ℕ → String → Bool
strstr a text = has_infix (codes text) (c_string a)

pub length-blit : (dst : List ℕ) (i : ℕ) (src : List ℕ) → length (blit dst i src) ≡ length dst
length-blit [] i src = refl
length-blit (d ∷ ds) zero [] = refl
length-blit (d ∷ ds) zero (x ∷ xs) = ap suc (length-blit ds zero xs)
length-blit (d ∷ ds) (suc i) src = ap suc (length-blit ds i src)

-- A write of one byte, then of the bytes behind it.
pub blit-set :
    (dst : List ℕ) (i b : ℕ) (bs : List ℕ) → blit (set dst i b) (suc i) bs ≡ blit dst i (b ∷ bs)
blit-set [] i b bs = refl
blit-set (d ∷ ds) zero b bs = refl
blit-set (d ∷ ds) (suc i) b bs = ap (λ t. d ∷ t) (blit-set ds i b bs)

pub blit-nil : (dst : List ℕ) (i : ℕ) → blit dst i [] ≡ dst
blit-nil [] i = refl
blit-nil (d ∷ ds) zero = refl
blit-nil (d ∷ ds) (suc i) = ap (λ t. d ∷ t) (blit-nil ds i)

pub slice_step :
    (xs : List ℕ) (i n : ℕ)
    → i < length xs
    → slice xs i (suc n) ≡ get_or xs i 0 ∷ slice xs (suc i) n
slice_step [] i n h = absurd (omega arith)
slice_step (x ∷ xs) zero n h = refl
slice_step (x ∷ xs) (suc i) n h = slice_step xs i n (omega arith)

pub length-slice : (xs : List ℕ) (i n : ℕ) → i + n ≤ length xs → length (slice xs i n) ≡ n
length-slice xs i n h = omega (arith, length-take n (drop i xs), length-drop i xs)

-- Reading back what `memcpy` wrote.
pub slice-blit :
    (dst : List ℕ) (i : ℕ) (src : List ℕ)
    → i + length src ≤ length dst
    → slice (blit dst i src) i (length src) ≡ src
slice-blit [] zero [] h = refl
slice-blit [] zero (x ∷ xs) h = absurd (omega arith)
slice-blit [] (suc i) src h = absurd (omega arith)
slice-blit (d ∷ ds) zero [] h = refl
slice-blit (d ∷ ds) zero (x ∷ xs) h = ap (λ t. x ∷ t) (slice-blit ds zero xs (omega arith))
slice-blit (d ∷ ds) (suc i) src h = slice-blit ds i src (omega arith)

-- `memcpy` at the start of an array.
pub blit_start :
    (dst src : List ℕ) → length src ≤ length dst → blit dst zero src ≡ src ++ drop (length src) dst
blit_start [] [] h = refl
blit_start [] (x ∷ xs) h = absurd (omega arith)
blit_start (d ∷ ds) [] h = refl
blit_start (d ∷ ds) (x ∷ xs) h = ap (λ t. x ∷ t) (blit_start ds xs (omega arith))

-- Outside of the bytes written nothing changes.
pub get_or-blit_out :
    (dst : List ℕ) (i : ℕ) (src : List ℕ) (j : ℕ)
    → (j < i) ⊎ (i + length src ≤ j)
    → get_or (blit dst i src) j 0 ≡ get_or dst j 0
get_or-blit_out [] i src j h = refl
get_or-blit_out (d ∷ ds) zero [] j h = refl
get_or-blit_out (d ∷ ds) zero (x ∷ xs) zero h = absurd (omega arith)
get_or-blit_out (d ∷ ds) zero (x ∷ xs) (suc j) h = get_or-blit_out ds zero xs j (omega arith)
get_or-blit_out (d ∷ ds) (suc i) src zero h = refl
get_or-blit_out (d ∷ ds) (suc i) src (suc j) h = get_or-blit_out ds i src j (omega arith)

module _ {κ} (P : ℕ → Type κ) where
  pub All-blit :
      (dst : List ℕ) (i : ℕ) (src : List ℕ) → All P dst → All P src → All P (blit dst i src)
  All-blit [] i src h k = tt
  All-blit (d ∷ ds) zero [] h k = h
  All-blit (d ∷ ds) zero (x ∷ xs) h k = (k.0, All-blit ds zero xs h.1 k.1)
  All-blit (d ∷ ds) (suc i) src h k = (h.0, All-blit ds i src h.1 k)

-- Inside both arrays `memcpy` copies, and outside of one it does not.
module _ (dst : List ℕ) (di : ℕ) (src : List ℕ) (si n : ℕ) where
  pub memcpy_inside :
      di + n ≤ length dst
      → si + n ≤ length src
      → memcpy dst di src si n ≡ some (blit dst di (slice src si n))
  unfolding memcpy
  memcpy_inside h k = rw (le→leb h, le→leb k)

  pub memcpy_outside : (length dst < di + n) ⊎ (length src < si + n) → memcpy dst di src si n ≡ none
  unfolding memcpy
  memcpy_outside (inl h) = rw (lt→leb h)
  memcpy_outside (inr h) = elim (Bool-cases (leb (di + n) (length dst))) [
    | inl e ↦ rw (e, lt→leb h)
    | inr e ↦ rw e
  ]
