-- ===== src/Serial/Checksum.antt =====
-- `calc_cksum_16` of src/WBM_Serial.c: the ones' complement of the 16-bit sum of the bytes.
use aelebdwif01_dongle.Prelude.{
  ℕ, zero, suc, ◌+◌, ◌-◌, ◌*◌, ◌%◌, ◌^◌, ◌≤◌, ◌<◌, ◌≡◌, refl, List, [], ◌∷◌, ◌++◌, All, IsByte,
  arith, length, get_or, set,
}

-- The loop: the sum of the first n bytes in a uint16_t. The callers pass lengths inside the buffer.
unfoldable pub cksum_loop : ℕ → List ℕ → ℕ → ℕ
cksum_loop zero buffer cksum16_temp = cksum16_temp
cksum_loop (suc n) [] cksum16_temp = cksum16_temp
cksum_loop (suc n) (b ∷ bs) cksum16_temp = cksum_loop n bs ((cksum16_temp + b) % 2 ^ 16)

unfoldable pub calc_cksum_16 : List ℕ → ℕ → ℕ
unfolding cksum_loop
calc_cksum_16 buffer length = 2 ^ 16 - 1 - cksum_loop length buffer 0

-- The sum without a word size.
pub sum_first : ℕ → List ℕ → ℕ
sum_first zero xs = 0
sum_first (suc n) [] = 0
sum_first (suc n) (x ∷ xs) = x + sum_first n xs

cksum_loop-sum_first :
    (n : ℕ) (xs : List ℕ) (acc : ℕ)
    → acc < 65536
    → cksum_loop n xs acc ≡ (acc + sum_first n xs) % 65536
unfolding cksum_loop sum_first
cksum_loop-sum_first zero xs acc h = omega arith
cksum_loop-sum_first (suc n) [] acc h = omega arith
cksum_loop-sum_first (suc n) (x ∷ xs) acc h =
    omega (arith, cksum_loop-sum_first n xs ((acc + x) % 65536) (omega arith))

sum_first-le : (n : ℕ) (xs : List ℕ) → All IsByte xs → sum_first n xs ≤ 255 * n
unfolding sum_first
sum_first-le zero xs h = omega arith
sum_first-le (suc n) [] h = omega arith
sum_first-le (suc n) (x ∷ xs) h = omega (arith, sum_first-le n xs h.1)

-- The checksum of n bytes, n at most 257, and their sum as numbers add up to 65535: the sum of 16
-- bits does not wrap.
pub calc_cksum_16_lem :
    (xs : List ℕ) (n : ℕ) → All IsByte xs → n ≤ 257 → calc_cksum_16 xs n + sum_first n xs ≡ 65535
unfolding calc_cksum_16
calc_cksum_16_lem xs n h le =
    omega (arith, cksum_loop-sum_first n xs 0 (omega arith), sum_first-le n xs h)

pub sum_first-set :
    (n i b : ℕ) (xs : List ℕ)
    → i < n
    → i < length xs
    → sum_first n (set xs i b) + get_or xs i 0 ≡ sum_first n xs + b
unfolding sum_first
sum_first-set zero i b xs h k = absurd (omega arith)
sum_first-set (suc n) i b [] h k = absurd (omega arith)
sum_first-set (suc n) zero b (x ∷ xs) h k = omega arith
sum_first-set (suc n) (suc i) b (x ∷ xs) h k =
    omega (arith, sum_first-set n i b xs (omega arith) (omega arith))

pub sum_first-set_out :
    (n i b : ℕ) (xs : List ℕ) → n ≤ i → sum_first n (set xs i b) ≡ sum_first n xs
unfolding sum_first
sum_first-set_out zero i b xs h = refl
sum_first-set_out (suc n) i b [] h = refl
sum_first-set_out (suc n) zero b (x ∷ xs) h = absurd (omega arith)
sum_first-set_out (suc n) (suc i) b (x ∷ xs) h =
    omega (arith, sum_first-set_out n i b xs (omega arith))

-- The checksum of the first bytes does not see what follows them.
cksum_loop-append :
    (xs ys : List ℕ) (n acc : ℕ) → n ≤ length xs → cksum_loop n (xs ++ ys) acc ≡ cksum_loop n xs acc
unfolding cksum_loop
cksum_loop-append xs ys zero acc h = refl
cksum_loop-append [] ys (suc n) acc h = absurd (omega arith)
cksum_loop-append (x ∷ xs) ys (suc n) acc h = cksum_loop-append xs ys n _ (omega arith)

pub calc_cksum_16-append :
    (xs ys : List ℕ) (n : ℕ) → n ≤ length xs → calc_cksum_16 (xs ++ ys) n ≡ calc_cksum_16 xs n
unfolding calc_cksum_16
calc_cksum_16-append xs ys n h = rw (cksum_loop-append xs ys n 0 h)
