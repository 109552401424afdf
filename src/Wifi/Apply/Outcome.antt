-- ===== src/Wifi/Apply/Outcome.antt =====
-- What `apply_wifi_request` of src/mqtt_app.c does, said of the circumstances of the attempts alone.
use aelebdwif01_dongle.Prelude.{
  if_holds, ℕ, zero, suc, ◌+◌, ◌*◌, ◌≡◌, refl, sym, ◌∙◌, List, ◌∷◌, Bool, true, false, ◌||◌, some,
  inl, inr, if◌then◌else◌,
}
use aelebdwif01_dongle.Wifi.{EspErr, esp_ok, is_ok}
use aelebdwif01_dongle.Wifi.Storage.{Nvs, Credentials}
use aelebdwif01_dongle.Wifi.Resources.{IsUp}
use aelebdwif01_dongle.Wifi.Release.{IsIdle, IsSettled, Connection, wifi_connect_lem}
use aelebdwif01_dongle.Wifi.Works.{works, is_ok-wifi_connect}
use aelebdwif01_dongle.Wifi.Manager.{Manager, connected, failed}
use aelebdwif01_dongle.Wifi.Apply.{
  ApplyEnv, attempt, connect_loop, applied, note_failure, wifi_retry_base_ms,
}

-- The answer, the attempts, the waits and the credentials after a loop over the attempts.
pub record Reconnected {Queue : Type 0} (answer : Bool) (connects : ℕ) (waits : List ℕ)
    (c : Credentials) (v : Nvs) (r : EspErr × Manager Queue) : Type 0 where
  pub answers : is_ok r.0 ≡ answer
  pub tried : r.1.connects ≡ connects
  pub waited : r.1.waits ≡ waits
  pub credentials_set : r.1.credentials ≡ c
  pub nvs_set : r.1.nvs ≡ v
  pub state_reached : r.1.manager_state ≡ (if answer then connected else failed)
  pub station_up : answer ≡ true → IsUp r.1.net × (r.1.net.wifi_connected_flag ≡ true)
  pub station_idle : answer ≡ false → IsIdle r.1.net
  pub settled : IsSettled r.1.net

-- The loop's answer, its number of attempts and its waits, from the attempts that work.
abbrev pub any_of : (ℕ → Bool) → ℕ → ℕ → Bool
any_of w zero i = w i
any_of w (suc more) i = w i || any_of w more (i + 1)

abbrev pub count_of : (ℕ → Bool) → ℕ → ℕ → ℕ → ℕ
count_of w zero i n = n + 1
count_of w (suc more) i n = if w i then n + 1 else count_of w more (i + 1) (n + 1)

abbrev pub waits_of : (ℕ → ℕ) → (ℕ → Bool) → ℕ → ℕ → List ℕ → List ℕ
waits_of ticks w zero i ws = ws
waits_of ticks w (suc more) i ws =
    if w i then ws else waits_of ticks w more (i + 1) (ticks (wifi_retry_base_ms * (i + 1)) ∷ ws)

-- The attempt of a number works.
unfoldable pub works_at : ApplyEnv → ℕ → Bool
works_at env i = works (env.attempts i)

module _ {Queue : Type 0} (env : ApplyEnv) where
  attempt-works :
      (i : ℕ) (m : Manager Queue) → IsIdle m.net → is_ok (attempt env i m).0 ≡ works_at env i
  unfolding attempt works_at
  attempt-works i m d =
      is_ok-wifi_connect (env.attempts i) m.credentials.ssid m.credentials.password m.net d

  attempt_lem :
      (i : ℕ) (m : Manager Queue)
      → IsIdle m.net
      → (is_ok (attempt env i m).0 ≡ true
          → IsUp (attempt env i m).1.net
            × ((attempt env i m).1.net.connect_event_group ≡ some false)
            × ((attempt env i m).1.net.wifi_connected_flag ≡ true))
        × (is_ok (attempt env i m).0 ≡ false → IsIdle (attempt env i m).1.net)
  unfolding attempt Connection
  attempt_lem i m d =
      let c = wifi_connect_lem (env.attempts i) m.credentials.ssid m.credentials.password m.net d in
      (c.0, λ f. record { no_group = (c.1 f).0; down = (c.1 f).1 })

  succeeded :
      (i : ℕ) (m : Manager Queue)
      → IsIdle m.net
      → is_ok (attempt env i m).0 ≡ true
      → Reconnected true
          (m.connects + 1)
          m.waits
          m.credentials
          m.nvs
          (esp_ok, applied env i (attempt env i m).1)
  unfolding attempt
  succeeded i m d k =
      let c = (attempt_lem i m d).0 k in
      record {
        answers = refl;
        tried = refl;
        waited = refl;
        credentials_set = refl;
        nvs_set = refl;
        state_reached = refl;
        station_up = λ _. (c.0, c.2);
        station_idle = λ t. absurd (cc t);
        settled = inr (c.0, (false, c.1));
      }

  failed_last :
      (i : ℕ) (m : Manager Queue)
      → IsIdle m.net
      → is_ok (attempt env i m).0 ≡ false
      → Reconnected false
          (m.connects + 1)
          m.waits
          m.credentials
          m.nvs
          ((attempt env i m).0, note_failure env zero i (attempt env i m).1)
  unfolding attempt
  failed_last i m d k =
      let c = (attempt_lem i m d).1 k in
      record {
        answers = k;
        tried = refl;
        waited = refl;
        credentials_set = refl;
        nvs_set = refl;
        state_reached = refl;
        station_up = λ t. absurd (cc t);
        station_idle = λ _. c;
        settled = inl c;
      }

  pub connect_loop_lem :
      (more i : ℕ) (m : Manager Queue)
      → IsIdle m.net
      → Reconnected
          (any_of (works_at env) more i)
          (count_of (works_at env) more i m.connects)
          (waits_of env.ms_to_ticks (works_at env) more i m.waits)
          m.credentials
          m.nvs
          (connect_loop env more i m)
  unfolding connect_loop
  connect_loop_lem zero i m d =
      if_holds (Reconnected _ _ _ m.credentials m.nvs) (is_ok (attempt env i m).0) _ _
        (λ k. rw (same k) (succeeded i m d k)) (λ k. rw (same k) (failed_last i m d k))
    where
      same : {b : Bool} → is_ok (attempt env i m).0 ≡ b → works_at env i ≡ b
      same k = sym (attempt-works i m d) ∙ k
  connect_loop_lem (suc more) i m d =
      let rest =
        connect_loop_lem more (i + 1) (note_failure env (suc more) i (attempt env i m).1) in
      if_holds (Reconnected _ _ _ m.credentials m.nvs) (is_ok (attempt env i m).0) _ _
        (λ k. rw (same k) (succeeded i m d k)) (λ k. rw (same k) (rest ((attempt_lem i m d).1 k)))
    where
      same : {b : Bool} → is_ok (attempt env i m).0 ≡ b → works_at env i ≡ b
      same k = sym (attempt-works i m d) ∙ k
