-- ===== src/Download/Replaced.antt =====
-- The downloads of src/main.c as a whole: the first one, and one that replaces another version.
use aelebdwif01_dongle.Prelude.{
  ℕ, ◌+◌, ◌-◌, ◌≡◌, ◌≢◌, ◌≤◌, ◌<◌, refl, ap, ◌∙◌, List, [], ◌∷◌, ◌++◌, true, Option, none, some,
  arith, length, length-append, take, replicate, zeros, blit, ◌>>=◌,
}
use aelebdwif01_dongle.Download.{
  Download, FileEnv, buffer_test_size, version_of, compare_versions, on_connected, connect_with,
  on_data, on_finish, forget_versions,
}
use aelebdwif01_dongle.Download.Stored.{
  concat, receive, opened, loaded, receive_opened, load_lem, on_data_lem, compare_short,
  compare_other,
}

-- The download ends, with this in the file and in `Data_Counter`.
unfoldable pub Stores : Option Download → List ℕ → ℕ → Type 0
Stores o file count =
    (s : Download) × (o ≡ some s)
    × ((on_finish s).stored ≡ some file)
    × ((on_finish s).data_counter ≡ count)

module _ (env : FileEnv) (w : (bs : List ℕ) → env.written bs ≡ bs)
    (o : env.write_opens ≡ true) where
  opened-Stores :
      (pieces : List (List ℕ)) (s : Download) (file : List ℕ)
      → Stores (receive env pieces (opened s file)) (file ++ concat pieces) s.data_counter
  unfolding Stores opened on_finish
  opened-Stores pieces s file =
      (opened s (file ++ concat pieces), receive_opened env w pieces s file, refl, refl)

  -- The first three pieces of a body, with a version to compare and a counter.
  three_pieces :
      (s : Download) (v : ℕ) (a b c : List ℕ) (d : ℕ)
      → v ≢ 0
      → length ((a ++ b) ++ c) + d ≤ buffer_test_size
      → version_of (((a ++ b) ++ c) ++ replicate (buffer_test_size - length ((a ++ b) ++ c)) 0) ≢ v
      → (rest : List (List ℕ))
      → receive env (a ∷ b ∷ c ∷ rest) (loaded s v [] 0 d)
        ≡ receive env rest (
            opened
              (forget_versions (loaded s v ((a ++ b) ++ c) 3 (length ((a ++ b) ++ c) + d)))
              (((a ++ b) ++ c) ++ replicate d 0))
  unfolding receive
  three_pieces s v a b c d v0 h ne rest =
      ap (λ x. x >>= receive env (b ∷ c ∷ rest))
        (step [] a 0 d (omega (arith, l1, l2, h)) (omega (arith, l1, l2, h)) (omega arith))
      ∙ ap (λ x. x >>= receive env (c ∷ rest))
          (step a b 1 (d + length a) (omega (arith, l1, l2, h)) (omega (arith, l1, l2, h))
            (omega arith))
      ∙ ap (λ x. x >>= receive env rest)
          (on_data_lem env w s v v0 (a ++ b) c 2 (d + length a + length b)
            ∙ ap (λ x. x >>= compare_versions env)
                (load_lem env w s v (a ++ b) c 2 (d + length a + length b)
                  (omega (arith, l1, l2, h)) (omega (arith, l1, l2, h)) (omega (arith, l1, l2, h)))
            ∙ ap (λ i. compare_versions env (loaded s v ((a ++ b) ++ c) 3 i)) counted
            ∙ compare_other env w s v v0 ((a ++ b) ++ c) d o h ne)
    where
      l1 : length (a ++ b) ≡ length a + length b
      l1 = length-append a b

      l2 : length ((a ++ b) ++ c) ≡ length (a ++ b) + length c
      l2 = length-append (a ++ b) c

      counted : d + length a + length b + length c ≡ length ((a ++ b) ++ c) + d
      counted = rw (l2, l1) (omega arith)

      step :
          (xs piece : List ℕ) (n e : ℕ)
          → length xs + length piece ≤ buffer_test_size
          → e + length piece ≤ buffer_test_size
          → n < 2
          → on_data env piece (loaded s v xs n e)
            ≡ some (loaded s v (xs ++ piece) (n + 1) (e + length piece))
      step xs piece n e h1 h2 n3 =
          on_data_lem env w s v v0 xs piece n e
          ∙ ap (λ x. x >>= compare_versions env)
              (load_lem env w s v xs piece n e (omega arith) h1 h2)
          ∙ compare_short env w s v v0 (xs ++ piece) (n + 1) (e + length piece)
              (λ z. absurd (omega arith))

  connect_none :
      (s : Download) (file : Option (List ℕ)) → file ≡ none → connect_with env s file ≡ opened s []
  unfolding connect_with opened
  connect_none s (some file) h = absurd (cc h)
  connect_none s none h = rw o refl

  connect_some :
      (s : Download) (old : List ℕ) (file : Option (List ℕ))
      → file ≡ some old
      → s.load_counter ≡ 0
      → connect_with env s file
        ≡ loaded s
            (version_of (blit s.buffer_test 0 (take buffer_test_size old)))
            []
            0
            s.data_counter
  unfolding connect_with loaded zeros
  connect_some s old none h l = absurd (cc h)
  connect_some s old (some file) h l =
      let same : file ≡ old = cc h in
      ap
        (λ x.
          loaded s (version_of (blit s.buffer_test 0 (take buffer_test_size x))) [] s.load_counter
            s.data_counter)
        same
      ∙ ap
          (λ n.
            loaded s (version_of (blit s.buffer_test 0 (take buffer_test_size old))) [] n
              s.data_counter)
          l

  -- When the file opens for writing and is written in full: without a stored file, a download that
  -- ends stores its pieces in order, and keeps the counter of bytes.
  pub first-Stores :
      (s : Download) (pieces : List (List ℕ))
      → s.stored ≡ none
      → Stores (receive env pieces (on_connected env s)) (concat pieces) s.data_counter
  unfolding on_connected
  first-Stores s pieces h = rw (connect_none s s.stored h) (opened-Stores pieces s [])

  -- When the file opens for writing and is written in full, `Load_Counter` is 0, and the stored
  -- file's version is not 0: a download of at least three pieces, the first three of which have
  -- another version and make, with what `Data_Counter` says before, at most 1536 bytes, stores these
  -- three, then as many zeros as `Data_Counter` said before, then the other pieces; `Data_Counter`
  -- grows by the length of the three pieces.
  pub replaced-Stores :
      (s : Download) (old a b c : List ℕ) (rest : List (List ℕ))
      → s.stored ≡ some old
      → s.load_counter ≡ 0
      → version_of (blit s.buffer_test 0 (take buffer_test_size old)) ≢ 0
      → length ((a ++ b) ++ c) + s.data_counter ≤ buffer_test_size
      → version_of (((a ++ b) ++ c) ++ replicate (buffer_test_size - length ((a ++ b) ++ c)) 0)
        ≢ version_of (blit s.buffer_test 0 (take buffer_test_size old))
      → Stores
          (receive env (a ∷ b ∷ c ∷ rest) (on_connected env s))
          ((((a ++ b) ++ c) ++ replicate s.data_counter 0) ++ concat rest)
          (length ((a ++ b) ++ c) + s.data_counter)
  unfolding on_connected loaded
  replaced-Stores s old a b c rest h0 l v0 fits ne = rw (connect_some s old s.stored h0 l) (
      rw
        (three_pieces s (version_of (blit s.buffer_test 0 (take buffer_test_size old))) a b c
          s.data_counter v0 fits ne rest)
        (opened-Stores rest
          (forget_versions (
            loaded s (version_of (blit s.buffer_test 0 (take buffer_test_size old))) ((a ++ b) ++ c)
              3 (length ((a ++ b) ++ c) + s.data_counter)))
          (((a ++ b) ++ c) ++ replicate s.data_counter 0)))
