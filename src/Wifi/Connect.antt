-- ===== src/Wifi/Connect.antt =====
-- src/wifi_connect.c: the station is started, waits for an address, and is stopped again.
use aelebdwif01_dongle.Prelude.{
  ℕ, ◌+◌, ◌-◌, List, Bool, true, false, Option, none, some, if◌then◌else◌,
}
use aelebdwif01_dongle.Wifi.{EspErr, esp_ok, invalid_state, no_mem, timeout, strlcpy, is_ok, check}

-- The file's variables, `Wifi_Connected_Flag`, and what was asked of the ESP-IDF and not undone:
-- the driver initialised, the radio started, the interfaces that exist, the handlers that are
-- registered, and the configuration of the station. `connect_event_group` is the group with its bit, or NULL.
pub record Net : Type 0 where
  pub connect_event_group : Option Bool
  pub connection_name : Option (List ℕ)
  pub wifi_esp_netif : Bool
  pub shutdown_handler_registered : Bool
  pub wifi_connected_flag : Bool
  pub driver : Bool
  pub radio : Bool
  pub netifs : ℕ
  pub wifi_handler : Bool
  pub ip_handler : Bool
  pub sta_config : Option (List ℕ × List ℕ)

-- Whether `esp_wifi_stop` and `esp_wifi_deinit` do what they are called for; a failure is logged.
pub record StopEnv : Type 0 where
  pub wifi_stop : Bool
  pub wifi_deinit : Bool

-- What the calls of the ESP-IDF answer in one connection, and the sizes of the station's arrays.
pub record ConnectEnv : Type 0 where
  pub group_created : Bool
  pub wifi_init : EspErr
  pub netif_new : Bool
  pub attach_wifi_station : EspErr
  pub set_default_wifi_sta_handlers : EspErr
  pub register_wifi : EspErr
  pub register_ip : EspErr
  pub set_storage : EspErr
  pub set_mode : EspErr
  pub set_config : EspErr
  pub wifi_start : EspErr
  pub sta_connect : EspErr
  pub register_shutdown_handler : EspErr
  pub got_ip : Bool
  pub stopping : StopEnv
  pub sta_ssid_size : ℕ
  pub sta_password_size : ℕ

-- `esp_netif_destroy`
abbrev pub netif_destroy : Net → Net
netif_destroy s = record s { netifs = s.netifs - 1 }

-- `stop`: what is not stopped or not released stays as it is.
unfoldable pub stop : StopEnv → Net → Net
stop e s =
    let s1 = record s {
      wifi_handler = false;
      ip_handler = false;
      radio = if e.wifi_stop then false else s.radio;
      driver = if e.wifi_deinit then false else s.driver;
    } in
    let s2 = if s.wifi_esp_netif then netif_destroy s1 else s1 in
    record s2 { wifi_esp_netif = false; wifi_connected_flag = false }

-- Both handlers registered, and the configuration of the station given.
unfoldable pub with_wifi : Net → Net
with_wifi s = record s { wifi_handler = true }

unfoldable pub with_ip : Net → Net
with_ip s = record s { ip_handler = true }

unfoldable pub configured : ConnectEnv → List ℕ → List ℕ → Net → Net
configured env ssid passwd s = record s {
  sta_config = some (strlcpy env.sta_ssid_size ssid, strlcpy env.sta_password_size passwd);
}

unfoldable pub with_radio : Net → Net
with_radio s = record s { radio = true }

-- The end of `start`, with both handlers registered.
unfoldable pub start_radio : ConnectEnv → List ℕ → List ℕ → Net → EspErr × Net
unfolding check stop
start_radio env ssid passwd s =
    let e = env.stopping in
    let c = configured env ssid passwd s in
    check env.set_storage (stop e s) (
      check env.set_mode (stop e s) (
        check env.set_config (stop e s) (
          check env.wifi_start (stop e c) (
            check env.sta_connect (stop e (with_radio c))
              (esp_ok, record (with_radio c) { connection_name = some ssid })))))

-- The part of `start` in which the interface is kept: every failure stops the station.
unfoldable pub start_station : ConnectEnv → List ℕ → List ℕ → Net → EspErr × Net
unfolding check stop start_radio
start_station env ssid passwd s = check env.register_wifi (stop env.stopping s) (
    check env.register_ip (stop env.stopping (with_wifi s))
      (start_radio env ssid passwd (with_ip (with_wifi s))))

-- `start`, once the interface is made.
unfoldable pub attach : ConnectEnv → List ℕ → List ℕ → Net → EspErr × Net
unfolding check start_station
attach env ssid passwd s = check env.attach_wifi_station (netif_destroy s) (
    check env.set_default_wifi_sta_handlers (netif_destroy s)
      (start_station env ssid passwd (record s { wifi_esp_netif = true })))

-- `start`
unfoldable pub start : ConnectEnv → List ℕ → List ℕ → Net → EspErr × Net
unfolding check attach
start env ssid passwd s =
    let s1 = record s { driver = true } in
    check env.wifi_init s (
      if env.netif_new
      then attach env ssid passwd (record s1 { netifs = s1.netifs + 1 })
      else (no_mem, s1))

abbrev pub delete_group : Net → Net
delete_group s = record s { connect_event_group = none }

-- `on_got_ip`
abbrev pub on_got_ip : Net → Net
on_got_ip s = record s {
  connect_event_group = elim s.connect_event_group [ none ↦ none | some b ↦ some true ];
  wifi_connected_flag = true;
}

-- The registration of the shutdown handler, which is tried until it works.
abbrev pub register_shutdown : ConnectEnv → Net → Net
register_shutdown env s =
    if s.shutdown_handler_registered
    then s
    else record s { shutdown_handler_registered = is_ok env.register_shutdown_handler }

-- The wait for an address; the bit is cleared on the way out.
unfoldable pub await_ip : ConnectEnv → Net → EspErr × Net
unfolding stop
await_ip env s =
    if env.got_ip then (esp_ok, record (on_got_ip s) { connect_event_group = some false }) else (
      timeout,
      record (delete_group (stop env.stopping (record s { wifi_connected_flag = false }))) {
        connection_name = none;
      },
    )

abbrev pub after_start : ConnectEnv → EspErr × Net → EspErr × Net
after_start env (esp_ok, s) = await_ip env (register_shutdown env s)
after_start env (e, s) = (e, delete_group s)

-- `wifi_connect`, from the creation of the group on.
unfoldable pub connect_anew : ConnectEnv → List ℕ → List ℕ → Net → EspErr × Net
unfolding start await_ip
connect_anew env ssid passwd s =
    if env.group_created
    then after_start env (start env ssid passwd (record s { connect_event_group = some false }))
    else (no_mem, s)

abbrev pub connect_if : ConnectEnv → List ℕ → List ℕ → Net → Option Bool → EspErr × Net
connect_if env ssid passwd s (some b) = (invalid_state, s)
connect_if env ssid passwd s none = connect_anew env ssid passwd s

-- `wifi_connect`
unfoldable pub wifi_connect : ConnectEnv → List ℕ → List ℕ → Net → EspErr × Net
unfolding connect_anew
wifi_connect env ssid passwd s = connect_if env ssid passwd s s.connect_event_group

unfoldable pub disconnect_if : StopEnv → Net → Option Bool → EspErr × Net
unfolding stop
disconnect_if e s (some b) = (
  esp_ok,
  record (stop e (delete_group s)) { wifi_connected_flag = false; connection_name = none },
)
disconnect_if e s none = (invalid_state, s)

-- `wifi_disconnect`
unfoldable pub wifi_disconnect : StopEnv → Net → EspErr × Net
unfolding disconnect_if
wifi_disconnect e s = disconnect_if e s s.connect_event_group

-- `on_wifi_disconnect`: the station is asked to connect again, and the flag falls.
unfoldable pub on_wifi_disconnect : Net → Net
on_wifi_disconnect s = record s { wifi_connected_flag = false }
