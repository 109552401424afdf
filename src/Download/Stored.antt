-- ===== src/Download/Stored.antt =====
-- What a download of src/main.c stores: the pieces, when nothing is stored or another version is.
use aelebdwif01_dongle.Prelude.{
  ℕ, zero, suc, ◌+◌, ◌-◌, ◌%◌, ◌^◌, ◌≡◌, ◌≢◌, ◌≤◌, ◌<◌, refl, sym, ap, ◌∙◌, List, [], ◌∷◌, ◌++◌,
  true, false, Option, some, arith, length, length-append, take, take_all, drop, replicate,
  length-replicate, slice, blit, blit_start, memcpy, memcpy_inside, leb, lt→ltb, le→leb, ne→==,
  ◌>>=◌,
}
use aelebdwif01_dongle.Prelude.Latest.{append_assoc, append_nil}
use aelebdwif01_dongle.Download.{
  Download, FileEnv, buffer_test_size, version_of, forget_versions, load_at, load_piece,
  replace_file, compare_versions, on_data,
}

-- The pieces in one list.
abbrev pub concat : List (List ℕ) → List ℕ
concat [] = []
concat (x ∷ xs) = x ++ concat xs

-- The pieces of a body, one after the other.
unfoldable pub receive : FileEnv → List (List ℕ) → Download → Option Download
receive env [] s = some s
receive env (piece ∷ pieces) s = on_data env piece s >>= receive env pieces

drop-replicate : (n k : ℕ) → drop {A = ℕ} n (replicate k 0) ≡ replicate (k - n) 0
drop-replicate zero k = let e : k ≡ k - 0 = omega arith in ap (λ i. replicate {A = ℕ} i 0) e
drop-replicate (suc n) zero =
    let e : 0 ≡ 0 - suc n = omega arith in ap (λ i. replicate {A = ℕ} i 0) e
drop-replicate (suc n) (suc k) =
    let e : k - n ≡ suc k - suc n = omega arith in
    drop-replicate n k ∙ ap (λ i. replicate {A = ℕ} i 0) e

-- Bytes written behind those that are there.
blit-append :
    (xs ys : List ℕ) (k : ℕ)
    → length ys ≤ k
    → blit (xs ++ replicate k 0) (length xs) ys ≡ (xs ++ ys) ++ replicate (k - length ys) 0
blit-append [] ys k h =
    blit_start (replicate k 0) ys (rw (length-replicate {A = ℕ} k 0) h)
    ∙ ap (λ t. ys ++ t) (drop-replicate (length ys) k)
blit-append (x ∷ xs) ys k h = ap (λ t. x ∷ t) (blit-append xs ys k h)

slice_whole : (xs : List ℕ) → slice xs 0 (length xs) ≡ xs
slice_whole xs = take_all (length xs) xs (omega arith)

-- Zeros behind the bytes are taken as bytes.
take-zeros :
    (xs : List ℕ) (d k : ℕ)
    → d ≤ k
    → take (length xs + d) (xs ++ replicate k 0) ≡ xs ++ replicate d 0
take-zeros [] d k h =
    let e : 0 + d ≡ d = omega arith in ap (λ i. take {A = ℕ} i (replicate k 0)) e ∙ go d k h
  where
    go : (d k : ℕ) → d ≤ k → take {A = ℕ} d (replicate k 0) ≡ replicate d 0
    go zero k h = refl
    go (suc d) zero h = absurd (omega arith)
    go (suc d) (suc k) h = ap (λ t. 0 ∷ t) (go d k (omega arith))
take-zeros (x ∷ xs) d k h =
    let e : suc (length xs) + d ≡ suc (length xs + d) = omega arith in
    ap (λ i. take i (x ∷ (xs ++ replicate k 0))) e ∙ ap (λ t. x ∷ t) (take-zeros xs d k h)

-- A state in which the file is open.
unfoldable pub opened : Download → List ℕ → Download
opened s file = record s { stored = some file; file_opened = true; firmware_version = 0 }

-- A state in which pieces are in the buffer, with a version to compare.
unfoldable pub loaded : Download → ℕ → List ℕ → ℕ → ℕ → Download
loaded s v xs n d = record s {
  file_opened = false;
  firmware_version = v;
  buffer_test = xs ++ replicate (buffer_test_size - length xs) 0;
  pointer = some (length xs);
  load_counter = n;
  data_counter = d;
}

module _ (env : FileEnv) (w : (bs : List ℕ) → env.written bs ≡ bs) where
  pub receive_opened :
      (pieces : List (List ℕ)) (s : Download) (file : List ℕ)
      → receive env pieces (opened s file) ≡ some (opened s (file ++ concat pieces))
  unfolding receive on_data opened
  receive_opened [] s file = ap (λ t. some (opened s t)) (sym (append_nil file))
  receive_opened (x ∷ xs) s file =
      ap (λ t. receive env xs (opened s (file ++ t))) (w x)
      ∙ receive_opened xs s (file ++ x)
      ∙ ap (λ t. some (opened s t)) (append_assoc file x (concat xs))

  pub load_lem :
      (s : Download) (v : ℕ) (xs piece : List ℕ) (n d : ℕ)
      → n < 3
      → length xs + length piece ≤ buffer_test_size
      → d + length piece ≤ buffer_test_size
      → load_piece piece (loaded s v xs n d)
        ≡ some (loaded s v (xs ++ piece) (n + 1) (d + length piece))
  unfolding load_piece load_at loaded
  load_lem s v xs piece n d h1 h2 h3 =
      let k : ℕ = buffer_test_size - length xs in
      let l : length xs + length piece ≡ length (xs ++ piece) = sym (length-append xs piece) in
      let whole : length (xs ++ replicate {A = ℕ} k 0) ≡ buffer_test_size =
        length-append xs (replicate k 0)
        ∙ ap (λ i. length xs + i) (length-replicate {A = ℕ} k 0)
        ∙ omega arith in
      let left : k - length piece ≡ buffer_test_size - length (xs ++ piece) =
        rw⁻¹ l (omega arith) in
      let m : memcpy (xs ++ replicate k 0) (length xs) piece 0 (length piece)
          ≡ some ((xs ++ piece) ++ replicate (buffer_test_size - length (xs ++ piece)) 0) =
        memcpy_inside (xs ++ replicate k 0) (length xs) piece 0 (length piece) (rw whole h2)
          (omega arith)
        ∙ ap (λ t. some (blit (xs ++ replicate k 0) (length xs) t)) (slice_whole piece)
        ∙ ap some (blit-append xs piece k (omega arith))
        ∙ ap (λ i. some ((xs ++ piece) ++ replicate i 0)) left in
      let e1 : (n + 1) % 2 ^ 8 ≡ n + 1 = omega arith in
      let e2 : (d + length piece) % 2 ^ 16 ≡ d + length piece = omega arith in
      rw (lt→ltb h1, m, e1, e2, l) refl

  -- The file that replaces another one.
  replaced :
      (s : Download) (bytes : List ℕ)
      → env.write_opens ≡ true
      → leb s.data_counter (length s.buffer_test) ≡ true
      → take s.data_counter s.buffer_test ≡ bytes
      → replace_file env s ≡ some (opened (forget_versions s) bytes)
  unfolding replace_file opened
  replaced s bytes o fits taken = rw o (
      rw fits (
        ap (λ t. some (opened (forget_versions s) t))
          (w (take s.data_counter s.buffer_test) ∙ taken)))

  module _ (s : Download) (v : ℕ) (v0 : v ≢ 0) where
    pub on_data_lem :
        (xs piece : List ℕ) (n d : ℕ)
        → on_data env piece (loaded s v xs n d)
          ≡ (load_piece piece (loaded s v xs n d) >>= compare_versions env)
    unfolding on_data loaded
    on_data_lem xs piece n d = rw (ne→== v0) refl

    pub compare_short :
        (xs : List ℕ) (n d : ℕ)
        → n ≢ 3
        → compare_versions env (loaded s v xs n d) ≡ some (loaded s v xs n d)
    unfolding compare_versions loaded
    compare_short xs n d h = rw (ne→== h) refl

    -- The third piece: the file is replaced.
    pub compare_other :
        (xs : List ℕ) (d : ℕ)
        → env.write_opens ≡ true
        → length xs + d ≤ buffer_test_size
        → version_of (xs ++ replicate (buffer_test_size - length xs) 0) ≢ v
        → compare_versions env (loaded s v xs 3 (length xs + d))
          ≡ some (opened (forget_versions (loaded s v xs 3 (length xs + d))) (xs ++ replicate d 0))
    unfolding compare_versions replace_file loaded opened
    compare_other xs d o h ne =
        let k : ℕ = buffer_test_size - length xs in
        let whole : length (xs ++ replicate {A = ℕ} k 0) ≡ buffer_test_size =
          length-append xs (replicate k 0)
          ∙ ap (λ i. length xs + i) (length-replicate {A = ℕ} k 0)
          ∙ omega arith in
        let fits : leb (length xs + d) (length (xs ++ replicate {A = ℕ} k 0)) ≡ true =
          le→leb (rw whole h) in
        let taken : take (length xs + d) (xs ++ replicate k 0) ≡ xs ++ replicate d 0 =
          take-zeros xs d k (omega arith) in
        rw (ne→== ne) (
          replaced
            (record (loaded s v xs 3 (length xs + d)) {
              firmware_version_server = version_of (xs ++ replicate k 0);
            })
            (xs ++ replicate d 0) o fits taken)
