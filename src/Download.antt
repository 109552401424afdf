-- ===== src/Download.antt =====
-- The download of the unit's firmware in src/main.c: the events of the HTTP client, which store the
-- file unless it has the version that is stored.
pub mod Stored
pub mod Replaced
mod Tests
use aelebdwif01_dongle.Prelude.{
  ℕ, suc, ◌+◌, ◌*◌, ◌/◌, ◌%◌, ◌^◌, List, [], ◌++◌, Bool, true, false, Option, none, some, length,
  take, zeros, get_or, blit, memcpy, leb, ltb, ◌==◌, not, if◌then◌else◌, ◌>>=◌,
}

-- `sizeof(Buffer_Test)`
abbrev pub buffer_test_size : ℕ
buffer_test_size = 1536

-- The variables of the handler, and the file firmware.bin with what was written to it.
pub record Download : Type 0 where
  pub stored : Option (List ℕ)
  pub file_opened : Bool
  pub buffer_test : List ℕ
  pub firmware_version : ℕ
  pub firmware_version_server : ℕ
  pub load_counter : ℕ
  pub pointer : Option ℕ
  pub data_counter : ℕ
  pub no_update : Bool

-- Whether `fopen` opens the file for writing, and what `fwrite` adds of some bytes.
pub record FileEnv : Type 0 where
  pub write_opens : Bool
  pub written : List ℕ → List ℕ

-- The version in the bytes 1172 and 1173.
unfoldable pub version_of : List ℕ → ℕ
version_of b = get_or b 1173 0 * 100 + get_or b 1172 0 / 16 * 10 + get_or b 1172 0 % 16

-- `fwrite`
abbrev pub fwrite : FileEnv → List ℕ → Download → Download
fwrite env bytes s = record s {
  stored = elim s.stored [ none ↦ none | some file ↦ some (file ++ env.written bytes) ];
}

-- The end of a comparison of versions.
abbrev pub forget_versions : Download → Download
forget_versions s = record s { load_counter = 0; firmware_version = 0; firmware_version_server = 0 }

-- `HTTP_EVENT_ERROR`
unfoldable pub on_error : Download → Download
on_error s =
    let s1 = record s { no_update = false } in
    if s.file_opened then forget_versions (record s1 { file_opened = false; stored = none }) else s1

-- A new file, or the version of the one that is stored.
unfoldable pub connect_with : FileEnv → Download → Option (List ℕ) → Download
connect_with env s none = record s {
  stored = if env.write_opens then some [] else none;
  file_opened = env.write_opens;
  firmware_version = 0;
}
connect_with env s (some file) = record s {
  file_opened = false;
  firmware_version = version_of (blit s.buffer_test 0 (take buffer_test_size file));
  buffer_test = zeros buffer_test_size;
  pointer = some 0;
}

-- `HTTP_EVENT_ON_CONNECTED`. The file opens for reading exactly if it is stored.
unfoldable pub on_connected : FileEnv → Download → Download
on_connected env s = connect_with env s s.stored

-- One of the first three pieces goes to the buffer; nothing checks that it fits.
unfoldable pub load_at : List ℕ → Download → Option ℕ → Option Download
load_at piece s none = none
load_at piece s (some p) = memcpy s.buffer_test p piece 0 (length piece) >>= λ b. some (record s {
  buffer_test = b;
  pointer = some (p + length piece);
  load_counter = (s.load_counter + 1) % 2 ^ 8;
  data_counter = (s.data_counter + length piece) % 2 ^ 16;
})

unfoldable pub load_piece : List ℕ → Download → Option Download
unfolding load_at
load_piece piece s = if ltb s.load_counter 3 then load_at piece s s.pointer else some s

-- The old file is replaced by the first `Data_Counter` bytes of the buffer.
unfoldable pub replace_file : FileEnv → Download → Option Download
replace_file env s =
    let s1 = record s {
      stored = if env.write_opens then some [] else none;
      file_opened = env.write_opens;
    } in
    if env.write_opens
    then (if leb s.data_counter (length s.buffer_test)
        then some (forget_versions (fwrite env (take s.data_counter s.buffer_test) s1))
        else none)
    else some (forget_versions s1)

-- After the third piece the versions are compared.
unfoldable pub compare_versions : FileEnv → Download → Option Download
compare_versions env s =
    let s1 = record s { firmware_version_server = version_of s.buffer_test } in
    if s.load_counter == 3
    then (if version_of s.buffer_test == s.firmware_version
        then some (forget_versions (record s1 { no_update = true }))
        else replace_file env s1)
    else some s

-- `HTTP_EVENT_ON_DATA`
unfoldable pub on_data : FileEnv → List ℕ → Download → Option Download
on_data env piece s =
    if s.firmware_version == 0
    then some (if s.file_opened then fwrite env piece s else s)
    else load_piece piece s >>= compare_versions env

-- `HTTP_EVENT_ON_FINISH`
unfoldable pub on_finish : Download → Download
on_finish s =
    let s1 = record s { no_update = false } in
    if s.file_opened
    then record s1 { file_opened = false; firmware_version = 0; firmware_version_server = 0 }
    else s1
