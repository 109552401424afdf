-- ===== src/Wifi/Resources.antt =====
-- What a connection of src/wifi_connect.c holds when it works, and what it leaves when it fails.
use aelebdwif01_dongle.Prelude.{
  if_holds, ℕ, ◌+◌, ◌≡◌, refl, List, Bool, true, false, ◌&&◌, if◌then◌else◌,
}
use aelebdwif01_dongle.Wifi.{EspErr, check_holds, no_mem, is_ok}
use aelebdwif01_dongle.Wifi.Connect.{
  Net, ConnectEnv, StopEnv, stop, with_radio, start, start_station, start_radio, attach, configured,
  with_wifi, with_ip, netif_destroy,
}

-- No interface and no handler is held, and nobody is told that the station is connected.
pub record IsDown (s : Net) : Type 0 where
  pub no_netif : s.wifi_esp_netif ≡ false
  pub no_interface : s.netifs ≡ 0
  pub no_wifi_handler : s.wifi_handler ≡ false
  pub no_ip_handler : s.ip_handler ≡ false
  pub not_connected : s.wifi_connected_flag ≡ false

-- The station runs: one interface, kept, with the driver and both handlers.
pub record IsUp (s : Net) : Type 0 where
  pub kept_netif : s.wifi_esp_netif ≡ true
  pub one_interface : s.netifs ≡ 1
  pub wifi_handler_set : s.wifi_handler ≡ true
  pub ip_handler_set : s.ip_handler ≡ true
  pub driver_set : s.driver ≡ true

-- The driver after `stop`.
abbrev pub kept_driver : StopEnv → Bool
kept_driver e = if e.wifi_deinit then false else true

-- The driver after a failure: a failure behind its initialisation and before the interface is kept
-- leaves it initialised, one that comes later as `stop` leaves it, one that comes before as it was.
unfoldable pub leaks_driver : ConnectEnv → Bool → Bool
leaks_driver env driver =
    if is_ok env.wifi_init
    then (if env.netif_new
        then (if is_ok env.attach_wifi_station && is_ok env.set_default_wifi_sta_handlers
            then kept_driver env.stopping
            else true)
        else true)
    else driver

pub stop-IsDown :
    (e : StopEnv) (s : Net)
    → s.wifi_esp_netif ≡ true
    → s.netifs ≡ 1
    → s.driver ≡ true
    → IsDown (stop e s) × ((stop e s).driver ≡ kept_driver e)
unfolding stop
stop-IsDown e s k n d = (
  record {
    no_netif = refl;
    no_interface = rw (k, n) refl;
    no_wifi_handler = rw k refl;
    no_ip_handler = rw k refl;
    not_connected = refl;
  },
  rw (k, d) refl,
)

-- The outcome of a part of `start`: everything is up, or everything is down and the driver is as
-- the argument says, which after a part that works is what `stop` leaves.
abbrev pub Outcome : StopEnv → Bool → EspErr × Net → Type 0
Outcome p leak r =
    (is_ok r.0 ≡ true → IsUp r.1 × (leak ≡ kept_driver p))
    × (is_ok r.0 ≡ false → IsDown r.1 × (r.1.driver ≡ leak))

stopped :
    (p : StopEnv) (e : EspErr) (s : Net)
    → s.wifi_esp_netif ≡ true
    → s.netifs ≡ 1
    → s.driver ≡ true
    → is_ok e ≡ false
    → Outcome p (kept_driver p) (e, stop p s)
stopped p e s k n d f = (λ t. absurd (cc (t, f)), λ t. stop-IsDown p s k n d)

start_radio_lem :
    (env : ConnectEnv) (ssid passwd : List ℕ) (s : Net)
    → IsUp s
    → Outcome env.stopping (kept_driver env.stopping) (start_radio env ssid passwd s)
unfolding start_radio configured with_radio
start_radio_lem env ssid passwd s u = check_holds P env.set_storage _ _ (stopped q _ s k n d) λ _.
    check_holds P env.set_mode _ _ (stopped q _ s k n d) λ _.
      check_holds P env.set_config _ _ (stopped q _ s k n d) λ _.
        check_holds P env.wifi_start _ _ (stopped q _ c k n d) λ _.
          check_holds P env.sta_connect _ _ (stopped q _ (with_radio c) k n d) λ _. (
            λ t. (
              record {
                kept_netif = k;
                one_interface = n;
                wifi_handler_set = u.wifi_handler_set;
                ip_handler_set = u.ip_handler_set;
                driver_set = u.driver_set;
              },
              refl,
            ),
            λ t. absurd (cc t),
          )
  where
    q : StopEnv
    q = env.stopping

    P : EspErr × Net → Type 0
    P = Outcome q (kept_driver q)

    k : s.wifi_esp_netif ≡ true
    k = u.kept_netif

    n : s.netifs ≡ 1
    n = u.one_interface

    d : s.driver ≡ true
    d = u.driver_set

    c : Net
    c = configured env ssid passwd s

start_station_lem :
    (env : ConnectEnv) (ssid passwd : List ℕ) (s : Net)
    → s.wifi_esp_netif ≡ true
    → s.netifs ≡ 1
    → s.driver ≡ true
    → Outcome env.stopping (kept_driver env.stopping) (start_station env ssid passwd s)
unfolding start_station with_wifi with_ip
start_station_lem env ssid passwd s k n d =
    check_holds P env.register_wifi _ _ (stopped q _ s k n d) λ _.
      check_holds P env.register_ip _ _ (stopped q _ (with_wifi s) k n d) λ _.
        start_radio_lem env ssid passwd (with_ip (with_wifi s)) record {
          kept_netif = k;
          one_interface = n;
          wifi_handler_set = refl;
          ip_handler_set = refl;
          driver_set = d;
        }
  where
    q : StopEnv
    q = env.stopping

    P : EspErr × Net → Type 0
    P = Outcome q (kept_driver q)

-- A failure that leaves the interface released and the driver as the argument says.
destroyed :
    (p : StopEnv) (leak : Bool) (e : EspErr) (s : Net)
    → IsDown s
    → s.driver ≡ leak
    → is_ok e ≡ false
    → Outcome p leak (e, s)
destroyed p leak e s d n f = (λ t. absurd (cc (t, f)), λ _. (d, n))

module _ (env : ConnectEnv) (ssid passwd : List ℕ) where
  attach_lem :
      (s : Net)
      → IsDown (netif_destroy s)
      → s.netifs ≡ 1
      → s.driver ≡ true
      → Outcome env.stopping
          (if is_ok env.attach_wifi_station && is_ok env.set_default_wifi_sta_handlers
            then kept_driver env.stopping
            else true)
          (attach env ssid passwd s)
  unfolding attach
  attach_lem s d one n =
      check_holds P env.attach_wifi_station _ _
        (λ f. destroyed env.stopping leak _ (netif_destroy s) d (rw f n) f)
        λ a.
          check_holds P env.set_default_wifi_sta_handlers _ _
            (λ f. destroyed env.stopping leak _ (netif_destroy s) d (rw (a, f) n) f)
            λ b.
              let all : leak ≡ kept_driver env.stopping = rw (a, b) refl in
              rw all
                (start_station_lem env ssid passwd (record s { wifi_esp_netif = true }) refl one n)
    where
      leak : Bool
      leak =
          if is_ok env.attach_wifi_station && is_ok env.set_default_wifi_sta_handlers
          then kept_driver env.stopping
          else true

      P : EspErr × Net → Type 0
      P = Outcome env.stopping leak

  pub start_lem :
      (s : Net)
      → IsDown s
      → Outcome env.stopping (leaks_driver env s.driver) (start env ssid passwd s)
  unfolding start leaks_driver
  start_lem s d =
      check_holds P env.wifi_init _ _ (λ f. destroyed env.stopping leak _ s d (rw f refl) f)
        λ i.
          if_holds P env.netif_new _ _
            (λ k.
              let same : rest ≡ leak = rw (i, k) refl in
              rw⁻¹ same (attach_lem made down (rw d.no_interface refl) refl))
            (λ k.
              destroyed env.stopping leak no_mem (record s { driver = true }) with_driver
                (rw (i, k) refl) refl)
    where
      leak : Bool
      leak = leaks_driver env s.driver

      rest : Bool
      rest =
          if is_ok env.attach_wifi_station && is_ok env.set_default_wifi_sta_handlers
          then kept_driver env.stopping
          else true

      P : EspErr × Net → Type 0
      P = Outcome env.stopping leak

      made : Net
      made = record s { driver = true; netifs = s.netifs + 1 }

      with_driver : IsDown (record s { driver = true })
      with_driver = record {
        no_netif = d.no_netif;
        no_interface = d.no_interface;
        no_wifi_handler = d.no_wifi_handler;
        no_ip_handler = d.no_ip_handler;
        not_connected = d.not_connected;
      }

      down : IsDown (netif_destroy made)
      down = record {
        no_netif = d.no_netif;
        no_interface = rw d.no_interface refl;
        no_wifi_handler = d.no_wifi_handler;
        no_ip_handler = d.no_ip_handler;
        not_connected = d.not_connected;
      }
