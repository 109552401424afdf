-- ===== src/Ble/Provision/Tests.antt =====
-- Examples of the provisioning: an app that writes its credentials in two chunks each.
use aelebdwif01_dongle.Prelude.{
  ℕ, ◌≡◌, refl, List, [], ◌∷◌, true, false, none, some, inl, arith, codes,
}
use aelebdwif01_dongle.Wifi.Connect.{wifi_connect, wifi_disconnect}
use aelebdwif01_dongle.Wifi.Apply.{apply_wifi_request, reconnect}
use aelebdwif01_dongle.Wifi.Manager.{Request, queue_or}
use aelebdwif01_dongle.Wifi.Tests.{idle, idle-IsIdle}
use aelebdwif01_dongle.Wifi.Apply.Tests.{list_queue, list_queue_laws, started, environment, guest}
use aelebdwif01_dongle.Ble.Provision.{
  Provision, EventEnv, ProvState, wifi_ssid, wifi_password, connect_to_cloud,
}
use aelebdwif01_dongle.Ble.Provision.Events.{event, write}
use aelebdwif01_dongle.Ble.Provision.Packets.{write_all}
use aelebdwif01_dongle.Ble.Provision.Requested.{IsComplete, Requested, ble_request}
use aelebdwif01_dongle.Ble.Provision.Skipped.{Skips, event-Skips}
use aelebdwif01_dongle.Ble.Provision.Overwritten.{after_apply, event-overwritten}
use aelebdwif01_dongle.Ble.Provision.Collected.{IsEntry}
use aelebdwif01_dongle.Ble.Provision.Provisioned.{Provisioned, event-Provisioned}

abbrev pub app_env : EventEnv (List Request)
app_env = record {
  api = list_queue;
  created_queue = some [];
  tick = 500;
  timer_created = true;
  allocated = true;
}

abbrev pub waiting : Provision (List Request)
waiting = record {
  ssid_packet = none;
  password_packet = none;
  prov_state = ProvState.idle;
  status_notify = true;
  conn_id = 0;
  gatts_if = some 3;
  prov_timer = none;
  is_runtime_ready = false;
  sent = [];
  responses = 0;
  manager = started;
}

-- Credentials are written, and the station is connected with others.
abbrev rewritten : Provision (List Request)
rewritten = record waiting {
  ssid_packet = some (codes "new");
  password_packet = some (codes "key");
  manager = record started {
    credentials = record { ssid = codes "new"; password = codes "key" };
    net = record idle {
      connect_event_group = some false;
      wifi_esp_netif = true;
      wifi_connected_flag = true;
      driver = true;
      netifs = 1;
      wifi_handler = true;
      ip_handler = true;
    };
  };
}

abbrev ssids : List (List ℕ)
ssids = codes "ho" ∷ codes "me" ∷ []

abbrev passwords : List (List ℕ)
passwords = codes "swe" ∷ codes "et" ∷ []

abbrev rewriting : Provision (List Request)
rewriting = record rewritten { manager = started }

ssids-IsEntry : IsEntry 32 ssids
ssids-IsEntry = record { fits = omega arith; nonempty = omega arith; text = ground arith }

passwords-IsEntry : IsEntry 64 passwords
passwords-IsEntry = record { fits = omega arith; nonempty = omega arith; text = ground arith }

event-Provisioned_example : Provisioned app_env list_queue_laws (codes "home") (codes "sweet") (
    event app_env
      (write connect_to_cloud [] true)
      (write_all app_env wifi_password passwords (write_all app_env wifi_ssid ssids waiting)))
event-Provisioned_example =
    event-Provisioned app_env list_queue_laws ssids passwords waiting refl ([], refl) refl refl
      ssids-IsEntry passwords-IsEntry

rewritten-IsComplete : IsComplete rewritten
rewritten-IsComplete = record {
  ssid_nonempty = omega arith;
  password_nonempty = omega arith;
  ssid_given = refl;
}

event-Skips_example :
    Skips app_env list_queue_laws environment 8
      (event app_env (write connect_to_cloud [] true) rewritten).manager
event-Skips_example =
    event-Skips app_env list_queue_laws environment 8 [] true rewritten [] rewritten-IsComplete refl
      refl (omega arith) (omega arith) (omega arith)

no_queue_yet :
    queue_or (after_apply environment guest rewriting).manager.req_queue app_env.created_queue
    ≡ some []
unfolding after_apply apply_wifi_request reconnect wifi_connect wifi_disconnect
no_queue_yet = refl

-- The app's packets hold new credentials when the request of a guest is applied.
event-overwritten_example :
    Requested app_env list_queue_laws []
      (after_apply environment guest rewriting)
      (event app_env (write connect_to_cloud [] true) (after_apply environment guest rewriting))
    × ((ble_request app_env list_queue_laws (after_apply environment guest rewriting)).ssid
        ≡ codes "guest")
    × ((ble_request app_env list_queue_laws (after_apply environment guest rewriting)).password
        ≡ codes "sweet")
event-overwritten_example =
    event-overwritten app_env list_queue_laws environment guest [] true rewriting []
      (inl idle-IsIdle) refl (λ t. absurd (cc t)) (omega arith) (omega arith) refl no_queue_yet
