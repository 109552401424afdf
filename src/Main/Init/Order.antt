-- ===== src/Main/Init/Order.antt =====
-- When the tasks of src/main.c are started.
use aelebdwif01_dongle.Prelude.{
  ℕ, ◌+◌, ◌≡◌, refl, ap, ◌∙◌, List, [], ◌∷◌, Bool, true, false, ◌&&◌, Option, some, if◌then◌else◌,
  ◌>>=◌, length,
}
use aelebdwif01_dongle.Main.Start.{
  serial_number_length, board_serial_number, board_serial_number_lem,
}
use aelebdwif01_dongle.Main.Init.{
  NvsInit, nvs_ok, no_free_pages, new_version_found, nvs_error, BleEnv, StartEnv, Ending, returned,
  tasks_started, Done, partition_found, spiffs_formatted, is_nvs_ok, or_abort, or_return,
  ble_app_init, start_tasks, create_tasks, unit_comm_start, uart1_initialize, after_storage,
  after_nvs, erase_nvs, app_main,
}

-- Whether the start ends with the tasks.
abbrev pub starts : Option (Ending × List Done) → Bool
starts (some (tasks_started, d)) = true
starts _ = false

-- What has to work before the serial number is composed.
abbrev pub nvs_ready : StartEnv → NvsInit → Bool
nvs_ready env nvs_ok = true
nvs_ready env nvs_error = false
nvs_ready env _ = env.nvs_erase && is_nvs_ok env.nvs_init_again

abbrev pub ble_ready : BleEnv → Bool
ble_ready b =
    b.controller_init
    && (b.controller_enable
        && (b.bluedroid_init
            && (b.bluedroid_enable && (b.register_gatts && (b.register_gap && b.app_register)))))

abbrev pub uart_ready : StartEnv → Bool
uart_ready env =
    env.uart_param_config
    && (env.uart_set_pin && (env.uart_driver_install && env.uart_enable_rx_intr))

abbrev pub tasks_ready : StartEnv → Bool
tasks_ready env = env.initialize_gpio && uart_ready env

abbrev pub storage_ready : StartEnv → Bool → Bool
storage_ready env b =
    env.spiffs_check
    && (env.spiffs_info
        && ((env.netif_init && env.event_loop_create)
            && (env.ble.mem_release && (ble_ready env.ble && b))))

starts-or_abort :
    (ok : Bool) (d : List Done) (next : Option (Ending × List Done))
    → starts (or_abort ok d next) ≡ (ok && starts next)
starts-or_abort true d next = refl
starts-or_abort false d next = refl

starts-or_return :
    (ok : Bool) (d : List Done) (next : Option (Ending × List Done))
    → starts (or_return ok d next) ≡ (ok && starts next)
starts-or_return true d next = refl
starts-or_return false d next = refl

starts-formatted :
    (ok : Bool) (d : List Done) (next : Option (Ending × List Done))
    → starts (if ok then next else some (returned, d)) ≡ (ok && starts next)
starts-formatted true d next = refl
starts-formatted false d next = refl

and_assoc : (a b c : Bool) → (a && (b && c)) ≡ ((a && b) && c)
and_assoc true b c = refl
and_assoc false b c = refl

-- With what the tasks' part comes to, whatever was done before.
module _ (size : ℕ) (env : StartEnv) (b : Bool)
    (h : (d : List Done) → starts (start_tasks size env d) ≡ b) where
  starts-after_storage : (d : List Done) → starts (after_storage size env d) ≡ storage_ready env b
  unfolding after_storage ble_app_init
  starts-after_storage d =
      let d1 = partition_found ∷ d in
      let e = env.ble in
      starts-or_return env.spiffs_check d _
      ∙ ap (λ c. env.spiffs_check && c)
          (starts-formatted env.spiffs_info (spiffs_formatted ∷ d) _
            ∙ ap (λ c. env.spiffs_info && c)
                (starts-or_abort (env.netif_init && env.event_loop_create) d1 _
                  ∙ ap (λ c. (env.netif_init && env.event_loop_create) && c)
                      (starts-or_abort e.mem_release d1 _
                        ∙ ap (λ c. e.mem_release && c)
                            (starts-or_return (ble_ready e) d1 _
                              ∙ ap (λ c. ble_ready e && c) (h d1)))))

  starts-after_nvs :
      (r : NvsInit) (d : List Done)
      → starts (after_nvs size env r d) ≡ (is_nvs_ok r && storage_ready env b)
  unfolding after_nvs
  starts-after_nvs r d =
      starts-or_abort (is_nvs_ok r) _ _ ∙ ap (λ c. is_nvs_ok r && c) (starts-after_storage _)

  starts-erase_nvs :
      starts (erase_nvs size env)
      ≡ ((env.nvs_erase && is_nvs_ok env.nvs_init_again) && storage_ready env b)
  unfolding erase_nvs
  starts-erase_nvs =
      starts-or_abort env.nvs_erase _ _
      ∙ ap (λ c. env.nvs_erase && c) (starts-after_nvs env.nvs_init_again _)
      ∙ and_assoc env.nvs_erase (is_nvs_ok env.nvs_init_again) (storage_ready env b)

  starts-app_main : starts (app_main size env) ≡ (nvs_ready env env.nvs_init && storage_ready env b)
  unfolding app_main
  starts-app_main = by_answer env.nvs_init
    where
      by_answer :
          (r : NvsInit)
          → starts (elim r [
            | no_free_pages ↦ erase_nvs size env
            | new_version_found ↦ erase_nvs size env
            | nvs_ok ↦ after_nvs size env nvs_ok []
            | nvs_error ↦ after_nvs size env nvs_error []
          ])
            ≡ (nvs_ready env r && storage_ready env b)
      by_answer no_free_pages = starts-erase_nvs
      by_answer new_version_found = starts-erase_nvs
      by_answer nvs_ok = starts-after_nvs nvs_ok []
      by_answer nvs_error = starts-after_nvs nvs_error []

and_false : (b : Bool) → (b && false) ≡ false
and_false true = refl
and_false false = refl

and_true : (b : Bool) → (b && true) ≡ b
and_true true = refl
and_true false = refl

storage_unready : (env : StartEnv) → storage_ready env false ≡ false
storage_unready env =
    ap
      (λ c.
        env.spiffs_check
        && (env.spiffs_info
            && ((env.netif_init && env.event_loop_create) && (env.ble.mem_release && c))))
      (and_false (ble_ready env.ble))
    ∙ ap
        (λ c.
          env.spiffs_check && (env.spiffs_info && ((env.netif_init && env.event_loop_create) && c)))
        (and_false env.ble.mem_release)
    ∙ ap (λ c. env.spiffs_check && (env.spiffs_info && c))
        (and_false (env.netif_init && env.event_loop_create))
    ∙ ap (λ c. env.spiffs_check && c) (and_false env.spiffs_info)
    ∙ and_false env.spiffs_check

module _ (env : StartEnv) (six : length env.mac ≡ 6) where
  overrun : (d : List Done) → starts (start_tasks serial_number_length env d) ≡ false
  unfolding start_tasks board_serial_number
  overrun d =
      ap (λ o. starts (o >>= λ serial. or_abort env.initialize_gpio d (create_tasks env d)))
        (board_serial_number_lem env.mac six 0).0

  starts-create_tasks : (d : List Done) → starts (create_tasks env d) ≡ uart_ready env
  unfolding create_tasks unit_comm_start uart1_initialize
  starts-create_tasks d =
      starts-or_abort env.uart_param_config _ _
      ∙ ap (λ c. env.uart_param_config && c)
          (starts-or_abort env.uart_set_pin _ _
            ∙ ap (λ c. env.uart_set_pin && c)
                (starts-or_abort env.uart_driver_install _ _
                  ∙ ap (λ c. env.uart_driver_install && c)
                      (starts-or_abort env.uart_enable_rx_intr _ _
                        ∙ and_true env.uart_enable_rx_intr)))

  stored : (k : ℕ) (d : List Done) → starts (start_tasks (22 + k) env d) ≡ tasks_ready env
  unfolding start_tasks
  stored k d =
      ap (λ o. starts (o >>= λ serial. or_abort env.initialize_gpio d (create_tasks env d)))
        (board_serial_number_lem env.mac six k).1
      ∙ starts-or_abort env.initialize_gpio d (create_tasks env d)
      ∙ ap (λ c. env.initialize_gpio && c) (starts-create_tasks d)

  -- With the array of 20 characters no start gets as far as the tasks in a defined way: either an
  -- earlier call fails or the serial number overruns the array. In an array of at least 22 the tasks
  -- are started exactly if every call works that the start checks, those of
  -- the UART's set-up among them.
  pub app_main_lem :
      (k : ℕ)
      → (starts (app_main serial_number_length env) ≡ false)
        × (starts (app_main (22 + k) env)
            ≡ (nvs_ready env env.nvs_init && storage_ready env (tasks_ready env)))
  app_main_lem k = (
    starts-app_main serial_number_length env false overrun
        ∙ ap (λ c. nvs_ready env env.nvs_init && c) (storage_unready env)
        ∙ and_false (nvs_ready env env.nvs_init),
    starts-app_main (22 + k) env (tasks_ready env) (stored k),
  )
