-- ===== src/Wifi/Release.antt =====
-- What a whole connection of src/wifi_connect.c leaves, and that closing it releases everything.
use aelebdwif01_dongle.Prelude.{
  if_holds, ℕ, ◌≡◌, refl, List, Bool, true, false, Option, none, some, ◌⊎◌, inl, inr, if◌then◌else◌,
}
use aelebdwif01_dongle.Wifi.{EspErr, esp_ok, is_ok}
use aelebdwif01_dongle.Wifi.Connect.{
  Net, ConnectEnv, StopEnv, connect_if, disconnect_if, connect_anew, await_ip, after_start, start,
  register_shutdown, wifi_connect, wifi_disconnect,
}
use aelebdwif01_dongle.Wifi.Resources.{
  IsDown, IsUp, Outcome, kept_driver, leaks_driver, start_lem, stop-IsDown,
}

-- No connection: no group, no interface and no handler.
pub record IsIdle (s : Net) : Type 0 where
  pub no_group : s.connect_event_group ≡ none
  pub down : IsDown s

-- Between two calls: no connection, or a station that runs.
abbrev pub IsSettled : Net → Type 0
IsSettled s = IsIdle s ⊎ (IsUp s × ((b : Bool) × (s.connect_event_group ≡ some b)))

-- A connection: the station runs and the flag is set, or only the driver may be left.
unfoldable pub Connection : Bool → EspErr × Net → Type 0
Connection leak r =
    (is_ok r.0 ≡ true
      → IsUp r.1 × (r.1.connect_event_group ≡ some false) × (r.1.wifi_connected_flag ≡ true))
    × (is_ok r.0 ≡ false → (r.1.connect_event_group ≡ none) × IsDown r.1 × (r.1.driver ≡ leak))

moved-IsUp :
    (s : Net) (g : Option Bool) (c r : Bool)
    → IsUp s
    → IsUp (record s {
      connect_event_group = g;
      wifi_connected_flag = c;
      shutdown_handler_registered = r;
    })
moved-IsUp s g c r u = record {
  kept_netif = u.kept_netif;
  one_interface = u.one_interface;
  wifi_handler_set = u.wifi_handler_set;
  ip_handler_set = u.ip_handler_set;
  driver_set = u.driver_set;
}

moved-IsDown :
    (s : Net) (g : Option Bool) (n : Option (List ℕ))
    → IsDown s
    → IsDown (record s { connect_event_group = g; connection_name = n })
moved-IsDown s g n d = record {
  no_netif = d.no_netif;
  no_interface = d.no_interface;
  no_wifi_handler = d.no_wifi_handler;
  no_ip_handler = d.no_ip_handler;
  not_connected = d.not_connected;
}

disconnect_if_lem :
    (p : StopEnv) (s : Net) (b : Bool) (g : Option Bool)
    → g ≡ some b
    → IsUp s
    → is_ok (disconnect_if p s g).0 ≡ true
      × IsIdle (disconnect_if p s g).1
      × ((disconnect_if p s g).1.driver ≡ kept_driver p)
unfolding disconnect_if
disconnect_if_lem p s b none e u = absurd (cc e)
disconnect_if_lem p s b (some _) e u =
    let d =
      stop-IsDown p (record s { connect_event_group = none }) u.kept_netif u.one_interface
        u.driver_set in
    (refl, record { no_group = rw u.kept_netif refl; down = moved-IsDown _ _ none d.0 }, d.1)

module _ (env : ConnectEnv) where
  await_ip_lem : (s : Net) → IsUp s → Connection (kept_driver env.stopping) (await_ip env s)
  unfolding await_ip Connection
  await_ip_lem s u =
      if_holds (Connection (kept_driver env.stopping)) env.got_ip _ _
        (λ _. (λ _. (moved-IsUp s (some false) true _ u, refl, refl), λ t. absurd (cc t)))
        (λ _. (
          λ t. absurd (cc t),
          λ _.
              let d =
                stop-IsDown env.stopping (record s { wifi_connected_flag = false }) u.kept_netif
                  u.one_interface u.driver_set in
              (refl, moved-IsDown _ none none d.0, d.1),
        ))

  register_shutdown-IsUp : (s : Net) → IsUp s → IsUp (register_shutdown env s)
  register_shutdown-IsUp s u =
      if_holds IsUp s.shutdown_handler_registered _ _ (λ _. u)
        (λ _. moved-IsUp s s.connect_event_group s.wifi_connected_flag _ u)

  failed_start :
      (leak : Bool) (e : EspErr) (s : Net)
      → is_ok e ≡ false
      → Outcome env.stopping leak (e, s)
      → Connection leak (e, record s { connect_event_group = none })
  unfolding Connection
  failed_start leak e s f o = (
    λ t. absurd (cc (t, f)),
    λ _. (refl, moved-IsDown s none s.connection_name (o.1 f).0, (o.1 f).1),
  )

  after_start_lem :
      (leak : Bool) (r : EspErr × Net)
      → Outcome env.stopping leak r
      → Connection leak (after_start env r)
  after_start_lem leak (esp_ok, s) o =
      rw ((o.0 refl).1)
        (await_ip_lem (register_shutdown env s) (register_shutdown-IsUp s (o.0 refl).0))
  after_start_lem leak (e, s) o = failed_start leak e s refl o

  module _ (ssid passwd : List ℕ) where
    -- The driver after a failure.
    abbrev pub left_driver : Net → Bool
    left_driver s = if env.group_created then leaks_driver env s.driver else s.driver

    connect_if_lem :
        (s : Net) (g : Option Bool)
        → g ≡ none
        → IsIdle s
        → Connection (left_driver s) (connect_if env ssid passwd s g)
    unfolding connect_anew Connection
    connect_if_lem s (some b) e r = absurd (cc e)
    connect_if_lem s none e r =
        if_holds (Connection (left_driver s)) env.group_created _ _
          (λ g. rw⁻¹ (same g) (
            after_start_lem (leaks_driver env s.driver) (start env ssid passwd grouped)
              (start_lem env ssid passwd grouped (moved-IsDown s _ _ r.down))))
          (λ g. (λ t. absurd (cc t), λ _. (r.no_group, r.down, rw g refl)))
      where
        grouped : Net
        grouped = record s { connect_event_group = some false }

        same : env.group_created ≡ true → leaks_driver env s.driver ≡ left_driver s
        same g = rw g refl

    -- Without a connection, a call that works leaves one interface, the driver and both handlers,
    -- and sets the flag; one that fails leaves the group, the interface and the handlers released
    -- and the flag down. The failure leaves the driver as it was when the group was not made or the
    -- driver not initialised, else initialised when the interface was not made, not attached or not
    -- given its handlers; otherwise it is released, unless `esp_wifi_deinit` fails in `stop`.
    pub wifi_connect_lem :
        (s : Net) → IsIdle s → Connection (left_driver s) (wifi_connect env ssid passwd s)
    unfolding wifi_connect
    wifi_connect_lem s r = connect_if_lem s s.connect_event_group r.no_group r

    -- Closing a connection that worked answers ESP_OK and releases everything, the driver too
    -- unless `esp_wifi_deinit` fails.
    wifi_disconnect-wifi_connect :
        (p : StopEnv) (s : Net)
        → IsIdle s
        → is_ok (wifi_connect env ssid passwd s).0 ≡ true
        → is_ok (wifi_disconnect p (wifi_connect env ssid passwd s).1).0 ≡ true
          × IsIdle (wifi_disconnect p (wifi_connect env ssid passwd s).1).1
          × ((wifi_disconnect p (wifi_connect env ssid passwd s).1).1.driver ≡ kept_driver p)
    unfolding wifi_disconnect Connection
    wifi_disconnect-wifi_connect p s r k =
        let c = (wifi_connect_lem s r).0 k in
        disconnect_if_lem p (wifi_connect env ssid passwd s).1 false _ c.1 c.0

disconnect_if-IsIdle :
    (p : StopEnv) (s : Net) (g : Option Bool) → g ≡ none → IsIdle s → IsIdle (disconnect_if p s g).1
unfolding disconnect_if
disconnect_if-IsIdle p s none e i = i
disconnect_if-IsIdle p s (some b) e i = absurd (cc e)

-- After a disconnection nothing is connected.
pub wifi_disconnect-IsIdle : (p : StopEnv) (s : Net) → IsSettled s → IsIdle (wifi_disconnect p s).1
unfolding wifi_disconnect
wifi_disconnect-IsIdle p s (inl i) = disconnect_if-IsIdle p s s.connect_event_group i.no_group i
wifi_disconnect-IsIdle p s (inr u) = (disconnect_if_lem p s u.1.0 s.connect_event_group u.1.1 u.0).1
