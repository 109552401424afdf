-- ===== src/Ble/Provision/Events.antt =====
-- The events of src/ble.c that the provisioning depends on: `gatts_profile_event_handler` and the timer.
use aelebdwif01_dongle.Prelude.{ℕ, ◌+◌, ◌*◌, ◌^◌, List, Bool, false, some, get_or, ◌==◌}
use aelebdwif01_dongle.Ble.Provision.{
  Provision, EventEnv, Handle, ble_prov_timer_reset, stop_timer, ble_prov_reset,
  ble_prov_timeout_callback, handle_write_event,
}

module _ {Queue : Type 0} (env : EventEnv Queue) where
  -- The write of two bytes to the configuration of the status.
  abbrev pub configure_status : List ℕ → Provision Queue → Provision Queue
  configure_status value p = record p {
    status_notify = get_or value 1 0 * 2 ^ 8 + get_or value 0 0 == 1;
  }

  -- `ESP_GATTS_CONNECT_EVT`
  unfoldable pub connected_event : ℕ → ℕ → Provision Queue → Provision Queue
  connected_event gatts_if conn_id p =
      ble_prov_timer_reset env (record p { conn_id = conn_id; gatts_if = some gatts_if })

  -- `ESP_GATTS_DISCONNECT_EVT`
  unfoldable pub disconnected_event : Provision Queue → Provision Queue
  unfolding ble_prov_reset
  disconnected_event p = ble_prov_reset env (stop_timer env (record p { status_notify = false }))

-- The events of src/ble.c that the provisioning depends on, after the start.
pub data Event : Type 0 where
  write : Handle → List ℕ → Bool → Event
  write_configuration : List ℕ → Event
  connect : ℕ → ℕ → Event
  disconnect timeout : Event

-- The branches of `gatts_profile_event_handler` for them, and the timer.
unfoldable pub event : {Queue : Type 0} → EventEnv Queue → Event → Provision Queue → Provision Queue
unfolding handle_write_event connected_event disconnected_event ble_prov_timeout_callback
event env (write handle value need_rsp) p = handle_write_event env handle value need_rsp p
event env (write_configuration value) p = configure_status env value p
event env (connect gatts_if conn_id) p = connected_event env gatts_if conn_id p
event env disconnect p = disconnected_event env p
event env timeout p = ble_prov_timeout_callback env p
