-- ===== src/Wifi.antt =====
-- The Wi-Fi side of the firmware: src/wifi_connect.c, the manager of src/mqtt_app.c, and what they
-- share. A C string is the list of its characters, without the NUL.
pub mod Connect
pub mod Storage
pub mod Resources
pub mod Release
pub mod Works
pub mod Queue
pub mod Manager
pub mod Apply
pub mod Tests
use aelebdwif01_dongle.Prelude.{ℕ, ◌≡◌, refl, ◌-◌, List, Bool, true, false, take}

-- `MAX_SSID_LENGTH` and `MAX_PASSWORD_LENGTH`; the arrays have one place more.
abbrev pub max_ssid_length : ℕ
max_ssid_length = 32

abbrev pub max_password_length : ℕ
max_password_length = 64

-- What `strlcpy` leaves in an array of a size.
abbrev pub strlcpy : ℕ → List ℕ → List ℕ
strlcpy size s = take (size - 1) s

-- `esp_err_t`, as far as the code tells its values apart.
pub data EspErr : Type 0 where
  esp_ok invalid_state no_mem timeout nvs_not_found : EspErr
  other : ℕ → EspErr

abbrev pub is_ok : EspErr → Bool
is_ok esp_ok = true
is_ok _ = false

-- `err = call; if (err != ESP_OK) { ...; return err; }`: the state of the return, and what follows.
unfoldable pub check {ℓ} : {A : Type ℓ} → EspErr → A → EspErr × A → EspErr × A
check esp_ok failed next = next
check e failed next = (e, failed)

pub check_holds {ℓ κ} :
    {A : Type ℓ} (P : EspErr × A → Type κ) (e : EspErr) (failed : A) (next : EspErr × A)
    → (is_ok e ≡ false → P (e, failed))
    → (is_ok e ≡ true → P next)
    → P (check e failed next)
unfolding check
check_holds P esp_ok failed next f n = n refl
check_holds P _ failed next f n = f refl
