-- ===== src/Wifi/Tests.antt =====
-- Examples of the Wi-Fi side: a station that gets an address, and one without an interface.
use aelebdwif01_dongle.Prelude.{refl, true, false, none, codes}
use aelebdwif01_dongle.Wifi.{esp_ok}
use aelebdwif01_dongle.Wifi.Connect.{Net, ConnectEnv, wifi_connect}
use aelebdwif01_dongle.Wifi.Release.{IsIdle, Connection, left_driver, wifi_connect_lem}

abbrev pub idle : Net
idle = record {
  connect_event_group = none;
  connection_name = none;
  wifi_esp_netif = false;
  shutdown_handler_registered = false;
  wifi_connected_flag = false;
  driver = false;
  radio = false;
  netifs = 0;
  wifi_handler = false;
  ip_handler = false;
  sta_config = none;
}

pub idle-IsIdle : IsIdle idle
idle-IsIdle = record {
  no_group = refl;
  down = record {
    no_netif = refl;
    no_interface = refl;
    no_wifi_handler = refl;
    no_ip_handler = refl;
    not_connected = refl;
  };
}

-- Every call works, and the address arrives.
abbrev pub reachable : ConnectEnv
reachable = record {
  group_created = true;
  wifi_init = esp_ok;
  netif_new = true;
  attach_wifi_station = esp_ok;
  set_default_wifi_sta_handlers = esp_ok;
  register_wifi = esp_ok;
  register_ip = esp_ok;
  set_storage = esp_ok;
  set_mode = esp_ok;
  set_config = esp_ok;
  wifi_start = esp_ok;
  sta_connect = esp_ok;
  register_shutdown_handler = esp_ok;
  got_ip = true;
  stopping = record { wifi_stop = true; wifi_deinit = false };
  sta_ssid_size = 32;
  sta_password_size = 64;
}

-- The interface is not made.
abbrev pub without_netif : ConnectEnv
without_netif = record reachable { netif_new = false }

wifi_connect_lem_example :
    Connection
      (left_driver without_netif (codes "home") (codes "secret") idle)
      (wifi_connect without_netif (codes "home") (codes "secret") idle)
wifi_connect_lem_example =
    wifi_connect_lem without_netif (codes "home") (codes "secret") idle idle-IsIdle
