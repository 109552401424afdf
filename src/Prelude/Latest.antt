-- ===== src/Prelude/Latest.antt =====
-- The last items of a list, and that dropping from the front composes.
use Prim.Native.Nat.{ℕ, zero, suc, ◌+◌, ◌-◌, ◌≤◌}
use mathlib.Core.Path.{◌≡◌, refl, sym, ap, ◌∙◌}
use mathlib.Core.List.{List, [], ◌∷◌, ◌++◌}
use native.Mathlib.Omega.{arith}
use aelebdwif01_dongle.Prelude.Lists.{drop, length, length-append, length-drop}

module _ {ℓ} {A : Type ℓ} where
  -- The last items of a list, at most so many.
  unfoldable pub latest : ℕ → List A → List A
  latest n xs = drop (length xs - n) xs

  -- The last item of a list, or the argument.
  abbrev pub last_or : A → List A → A
  last_or a [] = a
  last_or a (x ∷ xs) = last_or x xs

  pub drop-append : (n : ℕ) (xs ys : List A) → n ≤ length xs → drop n (xs ++ ys) ≡ drop n xs ++ ys
  drop-append zero xs ys h = refl
  drop-append (suc n) [] ys h = absurd (omega arith)
  drop-append (suc n) (x ∷ xs) ys h = drop-append n xs ys (omega arith)

  drop_nil : (n : ℕ) → drop {A = A} n [] ≡ []
  drop_nil zero = refl
  drop_nil (suc n) = refl

  pub drop-drop : (n k : ℕ) (xs : List A) → drop n (drop k xs) ≡ drop (k + n) xs
  drop-drop n zero xs = let e : n ≡ 0 + n = omega arith in ap (λ i. drop i xs) e
  drop-drop n (suc k) [] = drop_nil n ∙ sym (drop_nil (suc k + n))
  drop-drop n (suc k) (x ∷ xs) =
      let e : suc (k + n) ≡ suc k + n = omega arith in
      drop-drop n k xs ∙ ap (λ i. drop i (x ∷ xs)) e

  pub last_or-append : (a b : A) (xs : List A) → last_or a (xs ++ (b ∷ [])) ≡ b
  last_or-append a b [] = refl
  last_or-append a b (x ∷ xs) = last_or-append x b xs

  pub append_assoc : (xs ys zs : List A) → (xs ++ ys) ++ zs ≡ xs ++ (ys ++ zs)
  append_assoc [] ys zs = refl
  append_assoc (x ∷ xs) ys zs = ap (λ t. x ∷ t) (append_assoc xs ys zs)

  -- Keeping the last items, and then again with one more, is keeping the last of all.
  pub latest-latest : (n : ℕ) (xs ys : List A) → latest n (latest n xs ++ ys) ≡ latest n (xs ++ ys)
  unfolding latest
  latest-latest n xs ys =
      let k : ℕ = length xs - n in
      let e : drop k xs ++ ys ≡ drop k (xs ++ ys) = sym (drop-append k xs ys (omega arith)) in
      let l : k + (length (drop k (xs ++ ys)) - n) ≡ length (xs ++ ys) - n =
        rw (length-drop k (xs ++ ys), length-append xs ys) (omega arith) in
      ap (λ zs. drop (length zs - n) zs) e
      ∙ drop-drop (length (drop k (xs ++ ys)) - n) k (xs ++ ys)
      ∙ ap (λ i. drop i (xs ++ ys)) l

  pub latest_all : (n : ℕ) (xs : List A) → length xs ≤ n → latest n xs ≡ xs
  unfolding latest
  latest_all n xs h = let e : length xs - n ≡ 0 = omega arith in rw e refl

  pub append_nil : (xs : List A) → xs ++ [] ≡ xs
  append_nil [] = refl
  append_nil (x ∷ xs) = ap (λ t. x ∷ t) (append_nil xs)

  -- The last item is among the latest ones.
  pub latest-last :
      (n : ℕ) (b : A) (xs : List A) → latest (suc n) (xs ++ (b ∷ [])) ≡ latest n xs ++ (b ∷ [])
  unfolding latest
  latest-last n b xs =
      let e : length (xs ++ (b ∷ [])) - suc n ≡ length xs - n =
        rw (length-append xs (b ∷ [])) (omega arith) in
      rw e (drop-append (length xs - n) xs (b ∷ []) (omega arith))

  pub length-latest : (n : ℕ) (xs : List A) → length (latest n xs) ≤ n
  unfolding latest
  length-latest n xs = rw (length-drop (length xs - n) xs) (omega arith)

  -- One item too many: the first is not among the latest.
  pub latest_tail : (x : A) (xs : List A) → latest (length xs) (x ∷ xs) ≡ xs
  unfolding latest
  latest_tail x xs = let e : suc (length xs) - length xs ≡ 1 = omega arith in rw e refl
