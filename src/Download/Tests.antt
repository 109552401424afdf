-- ===== src/Download/Tests.antt =====
-- Examples of downloads: a first one, and a second one of another version.
use aelebdwif01_dongle.Prelude.{
  ℕ, ◌+◌, ◌-◌, ◌≡◌, ◌≢◌, refl, sym, ◌∙◌, List, [], ◌∷◌, ◌++◌, true, false, none, some, arith,
  length, take, replicate, blit,
}
use aelebdwif01_dongle.Download.{Download, FileEnv, buffer_test_size, version_of, on_connected}
use aelebdwif01_dongle.Download.Stored.{concat, receive}
use aelebdwif01_dongle.Download.Replaced.{Stores, first-Stores, replaced-Stores}

abbrev with_room : FileEnv
with_room = record { write_opens = true; written = λ bs. bs }

abbrev empty : Download
empty = record {
  stored = none;
  file_opened = false;
  buffer_test = replicate 1536 0;
  firmware_version = 0;
  firmware_version_server = 0;
  load_counter = 0;
  pointer = none;
  data_counter = 0;
  no_update = false;
}

first-Stores_example :
    Stores
      (receive with_room ((1 ∷ 2 ∷ []) ∷ (3 ∷ []) ∷ []) (on_connected with_room empty))
      (1 ∷ 2 ∷ 3 ∷ [])
      0
first-Stores_example =
    first-Stores with_room (λ bs. refl) refl empty ((1 ∷ 2 ∷ []) ∷ (3 ∷ []) ∷ []) refl

-- A file of version 101, and pieces of version 202.
abbrev old_file : List ℕ
old_file = replicate 1200 1

abbrev piece : List ℕ
piece = replicate 400 2

-- An earlier download has left 4 in the counter.
abbrev second : Download
second = record empty { stored = some old_file; data_counter = 4 }

old_version : version_of (blit second.buffer_test 0 (take buffer_test_size old_file)) ≡ 101
unfolding version_of
old_version = refl

new_version :
    version_of (
      ((piece ++ piece) ++ piece)
      ++ replicate (buffer_test_size - length ((piece ++ piece) ++ piece)) 0)
    ≡ 202
unfolding version_of
new_version = refl

-- Numbers that are equal to different ones.
apart : {a b m n : ℕ} → a ≡ m → b ≡ n → m ≢ n → a ≢ b
apart p q h e = h (sym p ∙ e ∙ q)

replaced-Stores_example :
    Stores
      (receive with_room (piece ∷ piece ∷ piece ∷ (9 ∷ []) ∷ []) (on_connected with_room second))
      ((((piece ++ piece) ++ piece) ++ replicate 4 0) ++ concat ((9 ∷ []) ∷ []))
      (length ((piece ++ piece) ++ piece) + 4)
replaced-Stores_example =
    replaced-Stores with_room (λ bs. refl) refl second old_file piece piece piece ((9 ∷ []) ∷ [])
      refl refl (apart old_version refl (λ e. absurd (omega arith))) (omega arith)
      (apart new_version old_version (λ e. absurd (omega arith)))
