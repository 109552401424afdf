-- ===== src/Main/Tests.antt =====
-- The application at examples.
use aelebdwif01_dongle.Prelude.{
  ℕ, suc, ◌+◌, ◌*◌, ◌%◌, ◌≡◌, ◌≤◌, ◌<◌, refl, [], ◌∷◌, ◌++◌, true, false, none, some, arith, zeros,
  length-zeros, codes, leb,
}
use aelebdwif01_dongle.UnitComm.{com_error, init}
use aelebdwif01_dongle.Main.Init.{StartEnv, nvs_ok, new_version_found, app_main}
use aelebdwif01_dongle.Main.Init.Order.{starts, app_main_lem}
use aelebdwif01_dongle.Main.Led.{Conditions, Led}
use aelebdwif01_dongle.Main.Led.Signals.{signal_of, period, bright, led_after}
use aelebdwif01_dongle.Main.Led.Shown.{led_over, led_shows_signal}
use aelebdwif01_dongle.Main.Update.{Update, UpdateEnv, check_update_task}
use aelebdwif01_dongle.Main.Update.Joined.{arrivals}
use aelebdwif01_dongle.Main.Update.Text.{Checked, check_update_task_lem}
use aelebdwif01_dongle.Main.Boot.{
  BootEnv, ota_boot_task, check_created, Ends, passed, ota_boot_task_lem,
}
use aelebdwif01_dongle.Main.Start.{
  board_serial_number, serial_number_in, holds, prefix, hex_text, board_serial_number_lem,
}

abbrev lost : Conditions
lost = record {
  unit_update_task_flag = false;
  current_state = init;
  ota_in_progress = false;
  com_state = com_error;
}

abbrev upgrading : Conditions
upgrading = record lost { ota_in_progress = true }

abbrev dark : Led
dark = record {
  millis_tick = 0;
  unit_update_counter = 0;
  counter_led = 0;
  counter_led1 = 0;
  wifi_led1 = false;
}

led_shows_signal_example :
    (k : ℕ) × (k ≤ period (signal_of upgrading))
    × ((n : ℕ)
        → (led_after upgrading (k + suc n) (led_over (lost ∷ lost ∷ upgrading ∷ []) dark)).wifi_led1
          ≡ bright (signal_of upgrading) (suc n % period (signal_of upgrading)))
led_shows_signal_example = led_shows_signal upgrading (lost ∷ lost ∷ upgrading ∷ []) dark refl refl

-- A server that offers one version, and an upgrade that works.
abbrev offered : UpdateEnv
offered = record {
  parse = λ t. some (record { version = some (codes "1.0.2"); url = some t });
  esp_https_ota = λ u. true;
}

abbrev waiting : Update
waiting = record {
  ota_in_progress = false;
  counter_led1 = 0;
  json_response = none;
  total_len = 0;
  unit_partition_state = true;
  unit_update_task_flag = false;
  bootloader_state_flag = false;
  update_tasks = 0;
  asked = [];
  restarted = false;
}

check_update_task_lem_example :
    (t : Update) × (check_update_task offered
        (arrivals false (zeros 1024) ((97 ∷ []) ∷ (98 ∷ []) ∷ []))
        true
        waiting
      ≡ some t)
    × Checked offered (some (97 ∷ 98 ∷ [])) waiting t
check_update_task_lem_example =
    check_update_task_lem offered (zeros 1024) (97 ∷ []) ((98 ∷ []) ∷ []) waiting false
      (length-zeros 1024) refl refl refl
      ((λ e. absurd (omega arith)), ((λ e. absurd (omega arith)), tt)) (omega arith)

-- A connection at the fourth reading.
abbrev boot_env : BootEnv
boot_env = record {
  wifi_connected = λ n. leb 3 n;
  tick_count = λ n. 250 * n;
  ms_to_ticks = λ ms. ms;
  created = true;
}

boot_delays :
    (n : ℕ) → passed boot_env 0 n < 90000 → passed boot_env 0 n + 250 ≤ passed boot_env 0 (suc n)
boot_delays n h = omega arith

ota_boot_task_lem_example :
    (m : ℕ) × (m ≤ 360)
    × (ota_boot_task 361 boot_env 0 ≡ some (check_created boot_env (suc m)))
    × Ends boot_env 0 0 m
ota_boot_task_lem_example = ota_boot_task_lem boot_env 0 250 boot_delays (omega arith)

board_serial_number_lem_example :
    (board_serial_number (36 ∷ 10 ∷ 196 ∷ 1 ∷ 2 ∷ 3 ∷ []) ≡ none)
    × (serial_number_in (22 + 2) (36 ∷ 10 ∷ 196 ∷ 1 ∷ 2 ∷ 3 ∷ [])
        ≡ some (holds (prefix ++ hex_text (36 ∷ 10 ∷ 196 ∷ 1 ∷ 2 ∷ 3 ∷ [])) 2))
board_serial_number_lem_example = board_serial_number_lem (36 ∷ 10 ∷ 196 ∷ 1 ∷ 2 ∷ 3 ∷ []) refl 2

abbrev working : StartEnv
working = record {
  nvs_init = new_version_found;
  nvs_erase = true;
  nvs_init_again = nvs_ok;
  spiffs_check = true;
  spiffs_info = true;
  netif_init = true;
  event_loop_create = true;
  ble = record {
    mem_release = true;
    controller_init = true;
    controller_enable = true;
    bluedroid_init = true;
    bluedroid_enable = true;
    register_gatts = true;
    register_gap = true;
    app_register = true;
  };
  mac = 36 ∷ 10 ∷ 196 ∷ 1 ∷ 2 ∷ 3 ∷ [];
  initialize_gpio = true;
  uart_param_config = true;
  uart_set_pin = true;
  uart_driver_install = true;
  uart_enable_rx_intr = true;
}

app_main_lem_example :
    (starts (app_main 20 working) ≡ false) × (starts (app_main (22 + 2) working) ≡ true)
app_main_lem_example = app_main_lem working refl 2
