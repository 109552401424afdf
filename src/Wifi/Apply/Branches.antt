-- ===== src/Wifi/Apply/Branches.antt =====
-- The branches of `apply_wifi_request` of src/mqtt_app.c: a request that is skipped, one that cannot
-- be stored, and one that is tried.
use aelebdwif01_dongle.Prelude.{
  if_holds, ℕ, ◌+◌, ◌≡◌, refl, sym, ap, ◌∙◌, List, ◌∷◌, Bool, true, false, ◌||◌, ◌&&◌, inl, inr,
  Bool-cases, if◌then◌else◌,
}
use aelebdwif01_dongle.Wifi.{EspErr, is_ok, check, check_holds}
use aelebdwif01_dongle.Wifi.Storage.{
  Nvs, insert, wifi_ssid, wifi_pass, writable, nvs_write_string_lem,
}
use aelebdwif01_dongle.Wifi.Release.{IsSettled, wifi_disconnect-IsIdle}
use aelebdwif01_dongle.Wifi.Manager.{Manager, Request, connected, failed, applying}
use aelebdwif01_dongle.Wifi.Connect.{wifi_disconnect}
use aelebdwif01_dongle.Wifi.Apply.{
  ApplyEnv, reconnect, store_and_reconnect, apply_wifi_request, unchanged, cool_down,
  credentials_of,
}
use aelebdwif01_dongle.Wifi.Apply.Outcome.{Reconnected, works_at, connect_loop_lem}

-- The storage with both strings of a request.
abbrev pub stored : Request → Nvs → Nvs
stored r v = insert wifi_pass r.password (insert wifi_ssid r.ssid v)

pub and_left : (a b : Bool) → (a && b) ≡ true → a ≡ true
and_left true b h = refl
and_left false b h = h

pub and_right : (a b : Bool) → (a && b) ≡ true → b ≡ true
and_right true b h = h
and_right false b h = absurd (cc h)

module _ {Queue : Type 0} (env : ApplyEnv) (r : Request) where
  -- The answer, the number of attempts and the waits of three attempts, from a number of attempts
  -- and waits on, with the request's credentials.
  abbrev pub Tried : ℕ → List ℕ → Nvs → EspErr × Manager Queue → Type 0
  Tried n ws =
      Reconnected (works_at env 0 || (works_at env 1 || works_at env 2))
        (if works_at env 0 then n + 1 else (if works_at env 1 then n + 1 + 1 else n + 1 + 1 + 1))
        (if works_at env 0
          then ws
          else (if works_at env 1
              then env.ms_to_ticks 500 ∷ ws
              else env.ms_to_ticks 1000 ∷ env.ms_to_ticks 500 ∷ ws))
        (credentials_of r)

  reconnect_lem :
      (m : Manager Queue) → IsSettled m.net → Tried m.connects m.waits m.nvs (reconnect env r m)
  unfolding reconnect
  reconnect_lem m s =
      connect_loop_lem env 2 0
        (record m {
          credentials = credentials_of r;
          manager_state = applying;
          net = (wifi_disconnect env.disconnecting m.net).1;
        })
        (wifi_disconnect-IsIdle env.disconnecting m.net s)

  store_works :
      (m : Manager Queue)
      → writable env.write_ssid ≡ true
      → writable env.write_pass ≡ true
      → store_and_reconnect env r m ≡ reconnect env r (record m { nvs = stored r m.nvs })
  unfolding store_and_reconnect check
  store_works m a b = rw ((nvs_write_string_lem env.write_ssid wifi_ssid r.ssid m.nvs).0 a) (
      rw
        ((nvs_write_string_lem env.write_pass wifi_pass r.password
            (insert wifi_ssid r.ssid m.nvs)).0
          b)
        refl)

  -- Without a connection or with a station that runs: a request whose credentials are not those of
  -- the connection, and that need not be stored or can be, is tried until an attempt works, at most three times, half a second after the first failure
  -- and a second after the second; ESP_OK, CONNECTED and a running station if one worked, FAILED and
  -- no connection if none. The credentials are the request's, and they are stored if it says so.
  pub apply_wifi_request_lem :
      (m : Manager Queue)
      → IsSettled m.net
      → unchanged r m ≡ false
      → (r.persist_to_nvs ≡ true → (writable env.write_ssid && writable env.write_pass) ≡ true)
      → Tried m.connects
          (cool_down env m).waits
          (if r.persist_to_nvs then stored r m.nvs else m.nvs)
          (apply_wifi_request env r m)
  unfolding apply_wifi_request
  apply_wifi_request_lem m s u w =
      if_holds P (unchanged r m) _ _ (λ t. absurd (cc (t, u)))
        λ _.
          if_holds P r.persist_to_nvs _ _
            (λ p.
              let w1 : writable env.write_ssid ≡ true = and_left _ _ (w p) in
              let w2 : writable env.write_pass ≡ true = and_right _ _ (w p) in
              rw (kept true p, store_works (cool_down env m) w1 w2)
                (reconnect_lem (record (cool_down env m) { nvs = stored r m.nvs }) s))
            (λ p. rw (kept false p) (reconnect_lem (cool_down env m) s))
    where
      P : EspErr × Manager Queue → Type 0
      P =
          Tried m.connects (cool_down env m).waits
            (if r.persist_to_nvs then stored r m.nvs else m.nvs)

      kept :
          (b : Bool)
          → r.persist_to_nvs ≡ b
          → (if r.persist_to_nvs then stored r m.nvs else m.nvs)
            ≡ (if b then stored r m.nvs else m.nvs)
      kept b p = ap (λ c. if c then stored r m.nvs else m.nvs) p

  store_fails :
      (m : Manager Queue)
      → (writable env.write_ssid && writable env.write_pass) ≡ false
      → (is_ok (store_and_reconnect env r m).0 ≡ false)
        × ((store_and_reconnect env r m).1 ≡ record m {
          nvs = if writable env.write_ssid then insert wifi_ssid r.ssid m.nvs else m.nvs;
        })
  unfolding store_and_reconnect check
  store_fails m f = elim (Bool-cases (writable env.write_ssid)) [
    | inl a ↦
        let n : writable env.write_pass ≡ false = rw a at f in
        let k =
          (nvs_write_string_lem env.write_pass wifi_pass r.password
              (insert wifi_ssid r.ssid m.nvs)).1
            n in
        rw (a, (nvs_write_string_lem env.write_ssid wifi_ssid r.ssid m.nvs).0 a)
          (check_holds (P (insert wifi_ssid r.ssid m.nvs)) _ _ _
            (λ _. (k.0, ap (λ v. record m { nvs = v }) k.1)) (λ t. absurd (cc (t, k.0))))
    | inr a ↦
        let k = (nvs_write_string_lem env.write_ssid wifi_ssid r.ssid m.nvs).1 a in
        rw a (
          check_holds (P m.nvs) _ _ _ (λ _. (k.0, ap (λ v. record m { nvs = v }) k.1))
            (λ t. absurd (cc (t, k.0))))
  ]
    where
      P : Nvs → EspErr × Manager Queue → Type 0
      P v result = (is_ok result.0 ≡ false) × (result.1 ≡ record m { nvs = v })

  -- A request that should be stored and cannot be is answered with an error, and nothing is tried:
  -- credentials, state and station stay. If the password alone cannot be stored, the new SSID stays
  -- in the storage beside the old password.
  pub apply_wifi_request-unstored :
      (m : Manager Queue)
      → unchanged r m ≡ false
      → r.persist_to_nvs ≡ true
      → (writable env.write_ssid && writable env.write_pass) ≡ false
      → (is_ok (apply_wifi_request env r m).0 ≡ false)
        × ((apply_wifi_request env r m).1 ≡ record (cool_down env m) {
          nvs = if writable env.write_ssid then insert wifi_ssid r.ssid m.nvs else m.nvs;
        })
  unfolding apply_wifi_request
  apply_wifi_request-unstored m u p f =
      if_holds P (unchanged r m) _ _ (λ t. absurd (cc (t, u)))
        λ _.
          if_holds P r.persist_to_nvs _ _ (λ _. store_fails (cool_down env m) f)
            (λ t. absurd (cc (t, p)))
    where
      P : EspErr × Manager Queue → Type 0
      P result =
          (is_ok result.0 ≡ false)
          × (result.1 ≡ record (cool_down env m) {
            nvs = if writable env.write_ssid then insert wifi_ssid r.ssid m.nvs else m.nvs;
          })

  -- What holds between two requests: there is no connection or a station that runs, and after
  -- ESP_OK the state is CONNECTED and the flag is set.
  abbrev pub Kept : EspErr × Manager Queue → Type 0
  Kept result =
      IsSettled result.1.net
      × (is_ok result.0 ≡ true
          → (result.1.manager_state ≡ connected) × (result.1.net.wifi_connected_flag ≡ true))

  reconnect-Kept : (m : Manager Queue) → IsSettled m.net → Kept (reconnect env r m)
  reconnect-Kept m s =
      let t = reconnect_lem m s in
      (
        t.settled,
        λ k.
            let a = sym t.answers ∙ k in
            (t.state_reached ∙ ap (λ b. if b then connected else failed) a, (t.station_up a).1),
      )

  store-Kept : (m : Manager Queue) → IsSettled m.net → Kept (store_and_reconnect env r m)
  store-Kept m s = elim (Bool-cases (writable env.write_ssid && writable env.write_pass)) [
    | inl w ↦
        let w1 = and_left (writable env.write_ssid) (writable env.write_pass) w in
        let w2 = and_right (writable env.write_ssid) (writable env.write_pass) w in
        rw (store_works m w1 w2) (reconnect-Kept (record m { nvs = stored r m.nvs }) s)
    | inr f ↦ let k = store_fails m f in (rw (k.1) s, λ t. absurd (cc (t, k.0)))
  ]

  -- Every request keeps that there is no connection or a station that runs, and ESP_OK means that
  -- the state is CONNECTED and the flag is set.
  pub apply_wifi_request-Kept :
      (m : Manager Queue) → IsSettled m.net → Kept (apply_wifi_request env r m)
  unfolding apply_wifi_request
  apply_wifi_request-Kept m s =
      if_holds Kept (unchanged r m) _ _ (λ u. (s, λ _. (refl, and_left _ _ u)))
        λ _.
          if_holds Kept r.persist_to_nvs _ _ (λ _. store-Kept (cool_down env m) s)
            (λ _. reconnect-Kept (cool_down env m) s)
