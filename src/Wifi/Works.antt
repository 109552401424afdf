-- ===== src/Wifi/Works.antt =====
-- When a connection of src/wifi_connect.c works, said of the answers of the ESP-IDF alone.
use aelebdwif01_dongle.Prelude.{
  ℕ, ◌+◌, ◌≡◌, refl, ap, ◌∙◌, List, Bool, true, false, Option, none, some, ◌&&◌, Bool-cases, inl,
  inr, if◌then◌else◌,
}
use aelebdwif01_dongle.Wifi.{EspErr, esp_ok, no_mem, is_ok, check}
use aelebdwif01_dongle.Wifi.Connect.{
  Net, ConnectEnv, connect_if, connect_anew, await_ip, after_start, start, attach, start_station,
  start_radio, with_wifi, with_ip, wifi_connect,
}
use aelebdwif01_dongle.Wifi.Release.{IsIdle}

-- The radio is configured and started, and connects.
abbrev radio_starts : ConnectEnv → Bool
radio_starts env =
    is_ok env.set_storage
    && (is_ok env.set_mode
        && (is_ok env.set_config && (is_ok env.wifi_start && is_ok env.sta_connect)))

-- Everything that is asked for is done, and the address arrives in time.
abbrev pub works : ConnectEnv → Bool
works env =
    env.group_created
    && ((is_ok env.wifi_init
          && (env.netif_new
              && (is_ok env.attach_wifi_station
                  && (is_ok env.set_default_wifi_sta_handlers
                      && (is_ok env.register_wifi
                          && (is_ok env.register_ip && radio_starts env))))))
        && env.got_ip)

-- The answer is ESP_OK exactly if the argument says so.
unfoldable Answers {ℓ} : {A : Type ℓ} → EspErr × A → Bool → Type 0
Answers r b = is_ok r.0 ≡ b

is_ok-check {ℓ} :
    {A : Type ℓ} (e : EspErr) (failed : A) (next : EspErr × A)
    → is_ok (check e failed next).0 ≡ (is_ok e && is_ok next.0)
unfolding check
is_ok-check esp_ok failed next = refl
is_ok-check _ failed next = refl

is_ok-if :
    (b : Bool) (x : EspErr × Net) (e : EspErr) (s : Net)
    → is_ok e ≡ false
    → (c : Bool) → Answers x c
    → Answers (if b then x else (e, s)) (b && c)
unfolding Answers
is_ok-if true x e s h c a = a
is_ok-if false x e s h c a = h

-- A check in front of what is known.
checked {ℓ} :
    {A : Type ℓ} (e : EspErr) (failed : A) (next : EspErr × A) (b : Bool)
    → Answers next b
    → Answers (check e failed next) (is_ok e && b)
unfolding Answers
checked e failed next b h = is_ok-check e failed next ∙ ap (λ c. is_ok e && c) h

checked_last {ℓ} :
    {A : Type ℓ} (e : EspErr) (failed next : A) → Answers (check e failed (esp_ok, next)) (is_ok e)
unfolding check Answers
checked_last esp_ok failed next = refl
checked_last _ failed next = refl

module _ (env : ConnectEnv) (ssid passwd : List ℕ) where
  is_ok-start_radio : (s : Net) → Answers (start_radio env ssid passwd s) (radio_starts env)
  unfolding start_radio
  is_ok-start_radio s = checked env.set_storage _ _ _ (
      checked env.set_mode _ _ _ (
        checked env.set_config _ _ _
          (checked env.wifi_start _ _ _ (checked_last env.sta_connect _ _))))

  is_ok-start_station :
      (s : Net)
      → Answers
          (start_station env ssid passwd s)
          (is_ok env.register_wifi && (is_ok env.register_ip && radio_starts env))
  unfolding start_station
  is_ok-start_station s =
      checked env.register_wifi _ _ _
        (checked env.register_ip _ _ _ (is_ok-start_radio (with_ip (with_wifi s))))

  starts : Bool
  starts =
      is_ok env.wifi_init
      && (env.netif_new
          && (is_ok env.attach_wifi_station
              && (is_ok env.set_default_wifi_sta_handlers
                  && (is_ok env.register_wifi && (is_ok env.register_ip && radio_starts env)))))

  is_ok-start : (s : Net) → Answers (start env ssid passwd s) starts
  unfolding start attach starts
  is_ok-start s = checked env.wifi_init _ _ _ (
      is_ok-if env.netif_new _ no_mem _ refl _ (
        checked env.attach_wifi_station _ _ _ (
          checked env.set_default_wifi_sta_handlers _ _ _
            (is_ok-start_station (record made { wifi_esp_netif = true })))))
    where
      made : Net
      made = record s { driver = true; netifs = s.netifs + 1 }

  is_ok-after_start :
      (r : EspErr × Net) (c : Bool) → Answers r c → Answers (after_start env r) (c && env.got_ip)
  unfolding await_ip Answers
  is_ok-after_start (esp_ok, s) c a =
      rw⁻¹ a (elim (Bool-cases (env.got_ip)) [ inl e ↦ rw e refl | inr e ↦ rw e refl ])
  is_ok-after_start (e, s) c a = rw⁻¹ a refl

  is_ok-connect_if :
      (s : Net) (g : Option Bool) → g ≡ none → Answers (connect_if env ssid passwd s g) (works env)
  unfolding connect_anew starts
  is_ok-connect_if s (some b) e = absurd (cc e)
  is_ok-connect_if s none e =
      is_ok-if env.group_created _ no_mem s refl _
        (is_ok-after_start _ _ (is_ok-start (record s { connect_event_group = some false })))

  -- Without a connection, the call answers ESP_OK exactly if everything works.
  pub is_ok-wifi_connect :
      (s : Net) → IsIdle s → is_ok (wifi_connect env ssid passwd s).0 ≡ works env
  unfolding wifi_connect Answers
  is_ok-wifi_connect s i = is_ok-connect_if s s.connect_event_group i.no_group
