-- ===== src/Ble/Service/Handles.antt =====
-- The handles that src/ble.c keeps: behind a complete table each attribute has its own.
use aelebdwif01_dongle.Prelude.{
  ℕ, ◌≡◌, ◌<◌, ap, ◌∙◌, sym, List, true, false, eq→==, if◌then◌else◌, length, get_or,
}
use aelebdwif01_dongle.Ble.Provision.{Provision, EventEnv, ble_set_runtime_ready}
use aelebdwif01_dongle.Ble.Attributes.{Index, position, hrs_idx_nb, position_lt, position-injective}
use aelebdwif01_dongle.Ble.Service.{
  Service, handle_of, table_created, serve_table, ble_init_runtime_placeholders,
}

-- The ESP-IDF gives different handles to different attributes.
abbrev pub AreDistinct : List ℕ → Type 0
AreDistinct handles =
    (m n : ℕ) → m < hrs_idx_nb → n < hrs_idx_nb → get_or handles m 0 ≡ get_or handles n 0 → m ≡ n

module _ {Queue : Type 0} (env : EventEnv Queue) (sizeof_data sizeof_debug_data : ℕ) where
  handle_of-created :
      (handles : List ℕ) (r : Service × Provision Queue) (i : Index)
      → length handles ≡ hrs_idx_nb
      → handle_of i (table_created env sizeof_data sizeof_debug_data true handles r).0
        ≡ get_or handles (position i) 0
  unfolding table_created serve_table ble_init_runtime_placeholders
  handle_of-created handles (s, p) i l =
      ap
        (λ b.
          let t : Service × Provision Queue =
            if b
            then (
              serve_table sizeof_data sizeof_debug_data handles s,
              ble_set_runtime_ready env false p,
            )
            else (s, p) in
          handle_of i t.0)
        (eq→== l)

  -- Behind the event of a complete table, with different handles: a handle tells its attribute.
  handle_of-injective :
      (handles : List ℕ) (r : Service × Provision Queue) (i j : Index)
      → length handles ≡ hrs_idx_nb
      → AreDistinct handles
      → handle_of i (table_created env sizeof_data sizeof_debug_data true handles r).0
        ≡ handle_of j (table_created env sizeof_data sizeof_debug_data true handles r).0
      → i ≡ j
  handle_of-injective handles r i j l d e = position-injective i j (
      d (position i) (position j) (position_lt i) (position_lt j)
        (sym (handle_of-created handles r i l) ∙ e ∙ handle_of-created handles r j l))
