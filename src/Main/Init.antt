-- ===== src/Main/Init.antt =====
-- The order of the start: `app_main` of src/main.c with `ble_app_init` of src/ble_app.c,
-- `unit_comm_start` of src/unit_comm.c and `Uart1_Initialize` of src/Uart1.c. The answers of the
-- ESP-IDF are arguments.
pub mod Order
use aelebdwif01_dongle.Prelude.{
  ℕ, ◌≡◌, ◌↔◌, refl, List, [], ◌∷◌, Bool, true, false, ◌&&◌, Option, none, some, if◌then◌else◌,
  ◌>>=◌,
}
use aelebdwif01_dongle.Main.Start.{serial_number_in}

-- What `nvs_flash_init` returns.
pub data NvsInit : Type 0 where
  nvs_ok no_free_pages new_version_found nvs_error : NvsInit

-- What the calls of `ble_app_init` return, in order; the abort is that of `ESP_ERROR_CHECK`.
pub record BleEnv : Type 0 where
  pub mem_release : Bool
  pub controller_init : Bool
  pub controller_enable : Bool
  pub bluedroid_init : Bool
  pub bluedroid_enable : Bool
  pub register_gatts : Bool
  pub register_gap : Bool
  pub app_register : Bool

pub record StartEnv : Type 0 where
  pub nvs_init : NvsInit
  pub nvs_erase : Bool
  pub nvs_init_again : NvsInit
  pub spiffs_check : Bool
  pub spiffs_info : Bool
  pub netif_init : Bool
  pub event_loop_create : Bool
  pub ble : BleEnv
  pub mac : List ℕ
  pub initialize_gpio : Bool
  pub uart_param_config : Bool
  pub uart_set_pin : Bool
  pub uart_driver_install : Bool
  pub uart_enable_rx_intr : Bool

-- How the start ends.
pub data Ending : Type 0 where
  aborted returned tasks_started : Ending

-- What was done: the latest first.
pub data Done : Type 0 where
  nvs_erased credentials_read spiffs_formatted partition_found light_started mqtt_task_created
        ota_boot_task_created uart_task_created unit_comm_started :
      Done

abbrev pub is_nvs_ok : NvsInit → Bool
is_nvs_ok nvs_ok = true
is_nvs_ok _ = false

-- `ESP_ERROR_CHECK`, and a test that returns.
abbrev pub or_abort : Bool → List Done → Option (Ending × List Done) → Option (Ending × List Done)
or_abort ok d next = if ok then next else some (aborted, d)

abbrev pub or_return : Bool → List Done → Option (Ending × List Done) → Option (Ending × List Done)
or_return ok d next = if ok then next else some (returned, d)

-- `ble_app_init`, with what follows it.
unfoldable pub ble_app_init :
    BleEnv → List Done → Option (Ending × List Done) → Option (Ending × List Done)
ble_app_init b d next = or_abort b.mem_release d (
    or_return
      (b.controller_init
        && (b.controller_enable
            && (b.bluedroid_init
                && (b.bluedroid_enable
                    && (b.register_gatts && (b.register_gap && b.app_register))))))
      d next)

-- `Uart1_Initialize`, that is `uart1_apply_config` of src/Uart1.c in full, with what follows it.
unfoldable pub uart1_initialize :
    StartEnv → List Done → (List Done → Option (Ending × List Done)) → Option (Ending × List Done)
uart1_initialize env d next = or_abort env.uart_param_config d (
    or_abort env.uart_set_pin d (
      or_abort env.uart_driver_install d
        (let d1 = uart_task_created ∷ d in or_abort env.uart_enable_rx_intr d1 (next d1))))

-- `unit_comm_start`
unfoldable pub unit_comm_start : StartEnv → List Done → Option (Ending × List Done)
unfolding uart1_initialize
unit_comm_start env d = uart1_initialize env d (λ d1. some (tasks_started, unit_comm_started ∷ d1))

-- The timer of the light, and the tasks.
unfoldable pub create_tasks : StartEnv → List Done → Option (Ending × List Done)
unfolding unit_comm_start
create_tasks env d =
    unit_comm_start env (ota_boot_task_created ∷ mqtt_task_created ∷ light_started ∷ d)

-- The end of `app_main`, in which the serial number is composed in an array of a size.
unfoldable pub start_tasks : ℕ → StartEnv → List Done → Option (Ending × List Done)
unfolding serial_number_in create_tasks
start_tasks size env d =
    serial_number_in size env.mac >>= λ serial. or_abort env.initialize_gpio d (create_tasks env d)

unfoldable pub after_storage : ℕ → StartEnv → List Done → Option (Ending × List Done)
unfolding start_tasks ble_app_init
after_storage size env d = or_return env.spiffs_check d (
    if env.spiffs_info
    then (let d1 = partition_found ∷ d in
        or_abort (env.netif_init && env.event_loop_create) d1
          (ble_app_init env.ble d1 (start_tasks size env d1)))
    else some (returned, spiffs_formatted ∷ d))

-- Behind `nvs_flash_init`: the credentials are read before its last answer is checked.
unfoldable pub after_nvs : ℕ → StartEnv → NvsInit → List Done → Option (Ending × List Done)
unfolding after_storage
after_nvs size env r d =
    let d1 = credentials_read ∷ d in or_abort (is_nvs_ok r) d1 (after_storage size env d1)

unfoldable pub erase_nvs : ℕ → StartEnv → Option (Ending × List Done)
unfolding after_nvs
erase_nvs size env =
    or_abort env.nvs_erase [] (after_nvs size env env.nvs_init_again (nvs_erased ∷ []))

-- `app_main`
unfoldable pub app_main : ℕ → StartEnv → Option (Ending × List Done)
unfolding erase_nvs
app_main size env = elim env.nvs_init [
  | no_free_pages ↦ erase_nvs size env
  | new_version_found ↦ erase_nvs size env
  | nvs_ok ↦ after_nvs size env nvs_ok []
  | nvs_error ↦ after_nvs size env nvs_error []
]
