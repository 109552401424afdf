-- ===== src/Ble/Tests.antt =====
-- The prepared writes at examples.
use aelebdwif01_dongle.Ble.Provision.Tests.{app_env, waiting}
use aelebdwif01_dongle.Ble.Service.{Service, registered, scan_rsp_data_set}
use aelebdwif01_dongle.Ble.Service.Advertising.{
  of_gap, app_leaves, occur_all, is_advertised, advertised-registered,
}
use aelebdwif01_dongle.Prelude.{
  refl, false, ltb, ℕ, ◌+◌, ◌<◌, ◌≡◌, ◌↔◌, List, [], ◌∷◌, ◌++◌, true, none, some, arith, length,
  take, zeros, replicate, length-zeros, length-append, length-replicate,
}
use aelebdwif01_dongle.Ble.{PrepareEnv, prepare_write, exec_write, request_writes, closed}
use aelebdwif01_dongle.Ble.Image.{concat, write_chunks, image_stored, chunk_overruns}

abbrev heap : List ℕ
heap = replicate 1024 165

length-heap : length heap ≡ 1024
length-heap = length-replicate {A = ℕ} 1024 165

-- An image in two chunks.
abbrev first : List ℕ
first = zeros 200

abbrev second : List ℕ
second = replicate 41 1

length-chunks : length (concat (first ∷ second ∷ [])) ≡ 241
length-chunks = omega (
  arith,
  length-append first (second ++ []),
  length-append second [],
  length-zeros 200,
  length-replicate {A = ℕ} 41 1,
)

image_stored_example :
    (p : PrepareEnv) × (write_chunks (some heap) 0 (first ∷ second ∷ []) closed ≡ some p)
    × (exec_write true p (zeros 241) 1
        ≡ some (take 241 (concat (first ∷ second ∷ [])), request_writes 1, closed))
image_stored_example =
    image_stored heap first (second ∷ []) (zeros 241) 1 length-heap (length-zeros 241)
      (omega (arith, length-chunks)) (omega (arith, length-chunks))

chunk_overruns_example :
    (prepare_write (some heap) 1020 (1 ∷ 2 ∷ 3 ∷ 4 ∷ 5 ∷ []) closed ≡ none)
    ↔ ((closed.prepare_buf ≡ none) × (1024 < 1020 + 5))
chunk_overruns_example =
    chunk_overruns heap 1020 (1 ∷ 2 ∷ 3 ∷ 4 ∷ 5 ∷ []) closed length-heap
      (λ b e. absurd (ground (arith, e)))

-- A service before its registration.
abbrev unregistered : Service
unregistered = record {
  adv_config_done = 0;
  ble_handle_table = [];
  gatts_if = 255;
  eeprom = [];
  names = [];
  tables = 0;
  started = [];
  advertised = 0;
  values = [];
}

advertised-registered_example :
    ltb 0
      (occur_all app_env
        (of_gap scan_rsp_data_set ∷ app_leaves ∷ [])
        (registered (1 ∷ 2 ∷ 3 ∷ 4 ∷ 5 ∷ 6 ∷ []) unregistered, waiting)).0.advertised
    ≡ is_advertised (of_gap scan_rsp_data_set ∷ app_leaves ∷ []) false false
advertised-registered_example =
    advertised-registered app_env (1 ∷ 2 ∷ 3 ∷ 4 ∷ 5 ∷ 6 ∷ [])
      (of_gap scan_rsp_data_set ∷ app_leaves ∷ []) unregistered waiting refl refl
