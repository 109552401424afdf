-- ===== src/Wifi/Storage.antt =====
-- The storage of the credentials: nvs_read_string, nvs_write_string and their callers in
-- src/main.c. Of the NVS, what was committed is kept; the answers of its calls are arguments.
use aelebdwif01_dongle.Prelude.{
  ℕ, ◌≡◌, refl, ◌+◌, List, Bool, true, false, Option, none, some, ◌&&◌, if◌then◌else◌, leb, length,
}
use aelebdwif01_dongle.Wifi.{
  EspErr, esp_ok, nvs_not_found, is_ok, check, check_holds, max_ssid_length, max_password_length,
}

-- The two keys, and the values under them.
pub data Key : Type 0 where
  wifi_ssid wifi_pass : Key

pub record Nvs : Type 0 where
  pub stored_ssid : Option (List ℕ)
  pub stored_pass : Option (List ℕ)

abbrev pub lookup : Key → Nvs → Option (List ℕ)
lookup wifi_ssid v = v.stored_ssid
lookup wifi_pass v = v.stored_pass

abbrev pub insert : Key → List ℕ → Nvs → Nvs
insert wifi_ssid s v = record v { stored_ssid = some s }
insert wifi_pass s v = record v { stored_pass = some s }

-- What nvs_open, nvs_set_str, nvs_commit and the second nvs_get_str answer.
pub record NvsEnv : Type 0 where
  pub open_answer : EspErr
  pub set_answer : EspErr
  pub commit_answer : EspErr
  pub get_answer : EspErr

-- `nvs_write_string`
unfoldable pub nvs_write_string : NvsEnv → Key → List ℕ → Nvs → EspErr × Nvs
unfolding check
nvs_write_string env key value v =
    check env.open_answer v
      (check env.set_answer v (check env.commit_answer v (esp_ok, insert key value v)))

-- The second call of nvs_get_str, which fills the array if the string fits.
abbrev pub get_str : NvsEnv → ℕ → Option (List ℕ) → List ℕ → EspErr × List ℕ
get_str env max_len none value = (nvs_not_found, value)
get_str env max_len (some stored) value =
    if leb (length stored + 1) max_len
    then (env.get_answer, if is_ok env.get_answer then stored else value)
    else (esp_ok, value)

-- `nvs_read_string`: the answer and the string in the array.
unfoldable pub nvs_read_string : NvsEnv → Key → ℕ → List ℕ → Nvs → EspErr × List ℕ
unfolding check
nvs_read_string env key max_len value v =
    check env.open_answer value (get_str env max_len (lookup key v) value)

-- `WIFI_SSID` and `WIFI_PASSWORD`
pub record Credentials : Type 0 where
  pub ssid : List ℕ
  pub password : List ℕ

-- `read_wifi_credentials_from_nvs`
unfoldable pub read_wifi_credentials_from_nvs : NvsEnv → NvsEnv → Nvs → Credentials → Credentials
unfolding nvs_read_string
read_wifi_credentials_from_nvs env_ssid env_pass v c = record {
  ssid = (nvs_read_string env_ssid wifi_ssid (max_ssid_length + 1) c.ssid v).1;
  password = (nvs_read_string env_pass wifi_pass (max_password_length + 1) c.password v).1;
}

-- Every call of a write works.
abbrev pub writable : NvsEnv → Bool
writable env = is_ok env.open_answer && (is_ok env.set_answer && is_ok env.commit_answer)

-- A write that works stores the string; one that fails answers an error and keeps the storage.
pub nvs_write_string_lem :
    (env : NvsEnv) (key : Key) (value : List ℕ) (v : Nvs)
    → (writable env ≡ true → nvs_write_string env key value v ≡ (esp_ok, insert key value v))
      × (writable env ≡ false
          → (is_ok (nvs_write_string env key value v).0 ≡ false)
            × ((nvs_write_string env key value v).1 ≡ v))
unfolding nvs_write_string
nvs_write_string_lem env key value v =
    check_holds (P (writable env)) env.open_answer _ _
      (λ f. rw f (λ t. absurd (cc t), λ _. (refl, refl)))
      λ i.
        check_holds (P (writable env)) env.set_answer _ _
          (λ f. rw (i, f) (λ t. absurd (cc t), λ _. (refl, refl)))
          λ j.
            check_holds (P (writable env)) env.commit_answer _ _
              (λ f. rw (i, j, f) (λ t. absurd (cc t), λ _. (refl, refl)))
              (λ k. rw (i, j, k) (λ _. refl, λ t. absurd (cc t)))
  where
    P : Bool → EspErr × Nvs → Type 0
    P w r =
        (w ≡ true → r ≡ (esp_ok, insert key value v))
        × (w ≡ false → (is_ok r.0 ≡ false) × (r.1 ≡ v))
