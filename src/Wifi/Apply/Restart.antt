-- ===== src/Wifi/Apply/Restart.antt =====
-- Credentials that `apply_wifi_request` of src/mqtt_app.c stores are those that a restart reads.
use aelebdwif01_dongle.Prelude.{
  ℕ, ◌+◌, ◌≡◌, ◌≤◌, refl, sym, ap, ◌∙◌, List, Bool, true, false, ◌&&◌, some, arith, length,
  take_all, le→leb, if◌then◌else◌,
}
use aelebdwif01_dongle.Wifi.{is_ok, check_holds, max_ssid_length, max_password_length}
use aelebdwif01_dongle.Wifi.Storage.{
  Nvs, NvsEnv, Key, Credentials, lookup, wifi_ssid, wifi_pass, writable, nvs_read_string,
  read_wifi_credentials_from_nvs,
}
use aelebdwif01_dongle.Wifi.Release.{IsSettled}
use aelebdwif01_dongle.Wifi.Manager.{Manager, Request}
use aelebdwif01_dongle.Wifi.Apply.{ApplyEnv, apply_wifi_request, unchanged, cool_down}
use aelebdwif01_dongle.Wifi.Apply.Branches.{
  stored, Tried, and_left, and_right, apply_wifi_request_lem,
}

-- Every call of a read works.
abbrev pub readable : NvsEnv → Bool
readable env = is_ok env.open_answer && is_ok env.get_answer

nvs_read_string_lem :
    (env : NvsEnv) (key : Key) (max_len : ℕ) (value s : List ℕ) (v : Nvs)
    → readable env ≡ true
    → lookup key v ≡ some s
    → length s + 1 ≤ max_len
    → (nvs_read_string env key max_len value v).1 ≡ s
unfolding nvs_read_string
nvs_read_string_lem env key max_len value s v r l h =
    let o = and_left (is_ok env.open_answer) (is_ok env.get_answer) r in
    let g = and_right (is_ok env.open_answer) (is_ok env.get_answer) r in
    check_holds (λ x. x.1 ≡ s) env.open_answer _ _ (λ f. absurd (cc (o, f)))
      (λ _. rw (l, le→leb h, g) refl)

pair :
    {a b c d : List ℕ}
    → a ≡ c
    → b ≡ d
    → Path Credentials (record { ssid = a; password = b }) (record { ssid = c; password = d })
pair {b} {c} e f =
    ap (λ x. record { ssid = x; password = b }) e ∙ ap (λ y. record { ssid = c; password = y }) f

-- A request that is stored and tried, of strings that fit, without a connection or with a station
-- that runs before it: a restart whose storage can be read sets
-- the credentials that the request has set.
pub read-apply_wifi_request :
    {Queue : Type 0} (env : ApplyEnv) (r : Request) (m : Manager Queue)
    (read_ssid read_pass : NvsEnv) (c : Credentials)
    → IsSettled m.net
    → unchanged r m ≡ false
    → r.persist_to_nvs ≡ true
    → (writable env.write_ssid && writable env.write_pass) ≡ true
    → length r.ssid ≤ max_ssid_length
    → length r.password ≤ max_password_length
    → readable read_ssid ≡ true
    → readable read_pass ≡ true
    → read_wifi_credentials_from_nvs read_ssid read_pass (apply_wifi_request env r m).1.nvs c
      ≡ (apply_wifi_request env r m).1.credentials
unfolding read_wifi_credentials_from_nvs
read-apply_wifi_request env r m read_ssid read_pass c s u p w h1 h2 r1 r2 =
    pair
      (nvs_read_string_lem read_ssid wifi_ssid _ c.ssid r.ssid v r1 (ap (λ n. n.stored_ssid) e)
          (omega arith)
        ∙ sym (take_all max_ssid_length r.ssid h1))
      (nvs_read_string_lem read_pass wifi_pass _ c.password r.password v r2
          (ap (λ n. n.stored_pass) e) (omega arith)
        ∙ sym (take_all max_password_length r.password h2))
    ∙ sym t.credentials_set
  where
    v : Nvs
    v = (apply_wifi_request env r m).1.nvs

    t :
        Tried env r m.connects
          (cool_down env m).waits
          (if r.persist_to_nvs then stored r m.nvs else m.nvs)
          (apply_wifi_request env r m)
    t = apply_wifi_request_lem env r m s u (λ _. w)

    e : v ≡ stored r m.nvs
    e = t.nvs_set ∙ ap (λ b. if b then stored r m.nvs else m.nvs) p
