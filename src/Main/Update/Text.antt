-- ===== src/Main/Update/Text.antt =====
-- The text of the server in src/main.c: what the joined pieces lead to, and that chunked
-- ones lead to nothing.
use aelebdwif01_dongle.Prelude.{
  ℕ, ◌+◌, ◌≡◌, ◌≢◌, ◌≤◌, ◌<◌, ◌⊎◌, inl, inr, refl, sym, ap, ◌∙◌, List, ◌∷◌, ◌++◌, Bool, true, false,
  Option, none, some, arith, length, length-append, take, if_holds, set, get_or, All, c_string,
  blit, memcpy, if◌then◌else◌, ◌>>=◌, Bool-cases,
}
use aelebdwif01_dongle.Ble.Image.{concat}
use aelebdwif01_dongle.Wifi.Apply.{strcmp_zero}
use aelebdwif01_dongle.Main.Update.{
  Update, UpdateEnv, Reply, append_data, data_arrived, http_event_handler, http_perform,
  current_version, upgrade, compare_version, read_reply, read_response, check_update_task,
}
use aelebdwif01_dongle.Main.Update.Joined.{
  arrivals, holding, append_fits, append-Joined, perform_joins, perform_chunked, perform_overruns,
  c_string-take,
}

-- What the text asks for: the address, if it has another version and an address.
abbrev pub wanted : Option Reply → Option (List ℕ)
wanted none = none
wanted (some r) = elim r.version [
  | none ↦ none
  | some v ↦ if strcmp_zero current_version v then none else r.url
]

abbrev pub asks : Option (List ℕ) → List (List ℕ) → List (List ℕ)
asks none us = us
asks (some u) us = u ∷ us

abbrev pub restarts : UpdateEnv → Option (List ℕ) → Bool
restarts env none = false
restarts env (some u) = env.esp_https_ota u

-- What a check leaves: the upgrade that the text asks for, the restart if it works, and the memory
-- freed unless the dongle restarts.
abbrev pub Checked : UpdateEnv → Option (List ℕ) → Update → Update → Type 0
Checked env w s t =
    (t.asked ≡ asks w s.asked)
    × (t.restarted ≡ restarts env w)
    × ((t.restarted ≡ true) ⊎ (t.json_response ≡ none))
    × (t.ota_in_progress ≡ false)

upgrade-Checked :
    (env : UpdateEnv) (url : List ℕ) (s : Update)
    → s.restarted ≡ false
    → Checked env (some url) s (upgrade env url s)
unfolding upgrade
upgrade-Checked env url s r =
    if_holds (Checked env (some url) s) (env.esp_https_ota url) _ _
      (λ e. (refl, sym e, inl refl, refl)) (λ e. (refl, r ∙ sym e, inr refl, refl))

compare_version-Checked :
    (env : UpdateEnv) (v u : Option (List ℕ)) (s : Update)
    → s.restarted ≡ false
    → Checked env (wanted (some (record { version = v; url = u }))) s (compare_version env v u s)
unfolding compare_version
compare_version-Checked env none u s r = (refl, r, inr refl, refl)
compare_version-Checked env (some v) none s r = elim (Bool-cases (strcmp_zero current_version v)) [
  | inl e ↦ rw e (refl, r, inr refl, refl)
  | inr e ↦ rw e (refl, r, inr refl, refl)
]
compare_version-Checked env (some v) (some u) s r =
    elim (Bool-cases (strcmp_zero current_version v)) [
      | inl e ↦ rw e (refl, r, inr refl, refl)
      | inr e ↦ rw e (upgrade-Checked env u s r)
    ]

read_reply-Checked :
    (env : UpdateEnv) (r : Option Reply) (s : Update)
    → s.restarted ≡ false
    → s.ota_in_progress ≡ false
    → Checked env (wanted r) s (read_reply env r s)
unfolding read_reply
read_reply-Checked env none s r o = (refl, r, inr refl, o)
read_reply-Checked env (some q) s r o = compare_version-Checked env q.version q.url s r

module _ (env : UpdateEnv) (heap : List ℕ) (p : List ℕ) (ps : List (List ℕ)) (s : Update) where
  first_piece :
      s.json_response ≡ none
      → http_perform (arrivals false heap (p ∷ ps)) s
        ≡ (append_data p (some heap) 0 s >>= http_perform (arrivals false heap ps))
  unfolding http_perform arrivals http_event_handler data_arrived
  first_piece n =
      ap (λ o. data_arrived (some heap) p o s >>= http_perform (arrivals false heap ps)) n

  -- The pieces of a response that is not chunked decide by their joined text.
  check_update_task-text :
      length heap ≡ 1024
      → s.json_response ≡ none
      → s.restarted ≡ false
      → s.ota_in_progress ≡ false
      → All (λ c. c ≢ 0) (concat (p ∷ ps))
      → length (concat (p ∷ ps)) < 1024
      → (t : Update) × (check_update_task env (arrivals false heap (p ∷ ps)) true s ≡ some t)
        × Checked env (wanted (env.parse (concat (p ∷ ps)))) s t
  unfolding check_update_task read_response holding
  check_update_task-text l n r o a h =
      let k = length-append p (concat ps) in
      let j = append-Joined p heap 0 (omega (arith, k, h, l)) in
      let q =
        perform_joins heap s ps (set (blit heap 0 p) (0 + length p) 0) (0 + length p)
          (omega (arith, k, h, l, j.0)) j.2 in
      let b = q.0 in
      let m : 0 + length p + length (concat ps) ≡ length (p ++ concat ps) = omega (arith, k) in
      let text : c_string b ≡ p ++ concat ps =
        c_string-take b (p ++ concat ps) (omega (arith, h, l, q.2.0, j.0))
          (ap (λ i. take i b) (sym m) ∙ q.2.1 ∙ ap (λ t. t ++ concat ps) j.1)
          (ap (λ i. get_or b i 0) (sym m) ∙ q.2.2) a in
      let run =
        first_piece n
        ∙ ap (λ o. o >>= http_perform (arrivals false heap ps))
            (append_fits p heap 0 s (omega (arith, k, h, l)))
        ∙ q.1 in
      let s1 = holding b (0 + length p + length (concat ps)) s in
      (
        read_reply env (env.parse (p ++ concat ps)) s1,
        ap (λ (o : Option Update). o >>= λ t. some (read_response env t.json_response t)) run
            ∙ ap (λ c. some (read_reply env (env.parse c) s1)) text,
        read_reply-Checked env (env.parse (p ++ concat ps)) s1 r o,
      )

  -- A chunked response is not looked at.
  check_update_task-chunked :
      s.json_response ≡ none
      → s.restarted ≡ false
      → (t : Update) × (check_update_task env (arrivals true heap (p ∷ ps)) true s ≡ some t)
        × Checked env none s t
  unfolding check_update_task read_response
  check_update_task-chunked n r = (
    record s { ota_in_progress = false },
    ap (λ (o : Option Update). o >>= λ t. some (read_response env t.json_response t))
          (perform_chunked heap s (p ∷ ps))
        ∙ ap (λ o. some (read_response env o s)) n,
    (refl, r, inr n, refl),
  )

  -- With no response held before, no restart and no upgrade in progress, a response in pieces, of
  -- fewer than 1024 characters and without a NUL, to a request that succeeds: if it is not chunked,
  -- the pieces are joined, and the joined text decides about the upgrade and the restart; if it is
  -- chunked, it is not looked at, and nothing is asked for. No upgrade is then in progress, and the
  -- memory is freed unless the dongle restarts.
  pub check_update_task_lem :
      (chunked : Bool)
      → length heap ≡ 1024
      → s.json_response ≡ none
      → s.restarted ≡ false
      → s.ota_in_progress ≡ false
      → All (λ c. c ≢ 0) (concat (p ∷ ps))
      → length (concat (p ∷ ps)) < 1024
      → (t : Update) × (check_update_task env (arrivals chunked heap (p ∷ ps)) true s ≡ some t)
        × Checked env (if chunked then none else wanted (env.parse (concat (p ∷ ps)))) s t
  check_update_task_lem true l n r o a h = check_update_task-chunked n r
  check_update_task_lem false l n r o a h = check_update_task-text l n r o a h

  -- With at least 1024 characters the buffer is overrun.
  check_update_task-overruns :
      (succeeded : Bool)
      → length heap ≡ 1024
      → s.json_response ≡ none
      → 1024 ≤ length (concat (p ∷ ps))
      → check_update_task env (arrivals false heap (p ∷ ps)) succeeded s ≡ none
  unfolding check_update_task holding append_data arrivals memcpy http_event_handler
  check_update_task-overruns succeeded l n h =
      ap
        (λ (o : Option Update). o >>= λ t. some (
          if succeeded
          then read_response env t.json_response t
          else record t { ota_in_progress = false }))
        (first_piece n
          ∙ perform_overruns heap s (p ∷ ps) heap 0 (omega (arith, l)) (omega (arith, l, h)))
