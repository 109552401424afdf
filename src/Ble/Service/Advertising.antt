-- ===== src/Ble/Service/Advertising.antt =====
-- When src/ble.c advertises: after the two parts of the advertisement are set and after a
-- connection, and under which name.
use aelebdwif01_dongle.Prelude.{
  ℕ, ◌+◌, ◌*◌, ◌≡◌, ◌≢◌, ◌<◌, refl, sym, ap, ◌∙◌, List, [], ◌∷◌, ◌++◌, Bool, true, false, ◌&&◌, ltb,
  lt→ltb, eq→==, ◌==◌, arith, length, take, take_all, codes, if_holds, ==_iff,
}
use aelebdwif01_dongle.Prelude.Bits.{set_bit, clear_bit}
use aelebdwif01_dongle.Ble.Provision.{Provision, EventEnv}
use aelebdwif01_dongle.Ble.Service.{
  Service, registered, device_name, colon_hex, GapEvent, adv_data_set, scan_rsp_data_set,
  other_gap_event, gap_event_handler, start_if_done, app_disconnected,
}

-- The events that can start the advertising: those of the GAP, and the end of the app's connection.
pub data Occurrence : Type 0 where
  of_gap : GapEvent → Occurrence
  app_leaves : Occurrence

unfoldable pub occur :
    {Queue : Type 0}
    → EventEnv Queue
    → Occurrence
    → Service × Provision Queue
    → Service × Provision Queue
unfolding app_disconnected
occur env (of_gap e) (s, p) = (gap_event_handler e s, p)
occur env app_leaves r = app_disconnected env r

-- The handlers over events, in order.
unfoldable pub occur_all :
    {Queue : Type 0}
    → EventEnv Queue
    → List Occurrence
    → Service × Provision Queue
    → Service × Provision Queue
occur_all env [] r = r
occur_all env (e ∷ es) r = occur_all env es (occur env e r)

-- Whether the two parts were reported as set, behind what was reported before, or the app left.
unfoldable pub is_advertised : List Occurrence → Bool → Bool → Bool
is_advertised [] a r = a && r
is_advertised (of_gap adv_data_set ∷ es) a r = is_advertised es true r
is_advertised (of_gap scan_rsp_data_set ∷ es) a r = is_advertised es a true
is_advertised (of_gap other_gap_event ∷ es) a r = is_advertised es a r
is_advertised (app_leaves ∷ es) a r = true

-- The flags that are left.
abbrev pending : Bool → Bool → ℕ
pending true true = 0
pending false true = 1
pending true false = 2
pending false false = 3

abbrev Agrees : Bool → Bool → Service → Type 0
Agrees a r s = (s.adv_config_done ≡ pending a r) × (ltb 0 s.advertised ≡ (a && r))

pending_ne : (s : Service) (n : ℕ) → s.adv_config_done ≡ n → n ≢ 0 → (s.adv_config_done == 0) ≢ true
pending_ne s n h k e = k (sym h ∙ (==_iff s.adv_config_done 0).0 e)

unstarted :
    (a r : Bool) (s : Service) → Agrees a r s → pending a r ≢ 0 → Agrees a r (start_if_done s)
unfolding start_if_done
unstarted a r s h k =
    if_holds (Agrees a r) (s.adv_config_done == 0) _ _
      (λ e. absurd (pending_ne s (pending a r) h.0 k e)) (λ _. h)

complete : (s : Service) → s.adv_config_done ≡ 0 → Agrees true true (start_if_done s)
unfolding start_if_done
complete s h =
    if_holds (Agrees true true) (s.adv_config_done == 0) _ _ (λ _. (h, lt→ltb (omega arith)))
      (λ e. absurd (cc (e, eq→== h)))

adv_data_set-Agrees :
    (a r : Bool) (s : Service) → Agrees a r s → Agrees true r (gap_event_handler adv_data_set s)
unfolding gap_event_handler
adv_data_set-Agrees true true s h =
    complete (record s { adv_config_done = clear_bit 0 s.adv_config_done })
      (ap (λ n. clear_bit 0 n) h.0)
adv_data_set-Agrees true false s h =
    unstarted true false (record s { adv_config_done = clear_bit 0 s.adv_config_done })
      (ap (λ n. clear_bit 0 n) h.0, h.1) (λ e. absurd (omega arith))
adv_data_set-Agrees false true s h =
    complete (record s { adv_config_done = clear_bit 0 s.adv_config_done })
      (ap (λ n. clear_bit 0 n) h.0)
adv_data_set-Agrees false false s h =
    unstarted true false (record s { adv_config_done = clear_bit 0 s.adv_config_done })
      (ap (λ n. clear_bit 0 n) h.0, h.1) (λ e. absurd (omega arith))

scan_rsp_data_set-Agrees :
    (a r : Bool) (s : Service)
    → Agrees a r s
    → Agrees a true (gap_event_handler scan_rsp_data_set s)
unfolding gap_event_handler
scan_rsp_data_set-Agrees true true s h =
    complete (record s { adv_config_done = clear_bit 1 s.adv_config_done })
      (ap (λ n. clear_bit 1 n) h.0)
scan_rsp_data_set-Agrees true false s h =
    complete (record s { adv_config_done = clear_bit 1 s.adv_config_done })
      (ap (λ n. clear_bit 1 n) h.0)
scan_rsp_data_set-Agrees false true s h =
    unstarted false true (record s { adv_config_done = clear_bit 1 s.adv_config_done })
      (ap (λ n. clear_bit 1 n) h.0, h.1) (λ e. absurd (omega arith))
scan_rsp_data_set-Agrees false false s h =
    unstarted false true (record s { adv_config_done = clear_bit 1 s.adv_config_done })
      (ap (λ n. clear_bit 1 n) h.0, h.1) (λ e. absurd (omega arith))

start_if_done_grows : (s : Service) → 0 < s.advertised → 0 < (start_if_done s).advertised
unfolding start_if_done
start_if_done_grows s h =
    if_holds (λ (t : Service). 0 < t.advertised) (s.adv_config_done == 0) _ _ (λ _. omega arith)
      (λ _. h)

gap_event_handler_grows :
    (e : GapEvent) (s : Service) → 0 < s.advertised → 0 < (gap_event_handler e s).advertised
unfolding gap_event_handler
gap_event_handler_grows adv_data_set s h = start_if_done_grows _ h
gap_event_handler_grows scan_rsp_data_set s h = start_if_done_grows _ h
gap_event_handler_grows other_gap_event s h = h

module _ {Queue : Type 0} (env : EventEnv Queue) where
  occur_all_grows :
      (es : List Occurrence) (s : Service) (p : Provision Queue)
      → 0 < s.advertised
      → ltb 0 (occur_all env es (s, p)).0.advertised ≡ true
  unfolding occur_all occur app_disconnected
  occur_all_grows [] s p h = lt→ltb h
  occur_all_grows (of_gap e ∷ es) s p h =
      occur_all_grows es (gap_event_handler e s) p (gap_event_handler_grows e s h)
  occur_all_grows (app_leaves ∷ es) s p h = occur_all_grows es _ _ (omega arith)

  occur_all-Agrees :
      (es : List Occurrence) (a r : Bool) (s : Service) (p : Provision Queue)
      → Agrees a r s
      → ltb 0 (occur_all env es (s, p)).0.advertised ≡ is_advertised es a r
  unfolding occur_all occur is_advertised gap_event_handler app_disconnected
  occur_all-Agrees [] a r s p h = h.1
  occur_all-Agrees (of_gap adv_data_set ∷ es) a r s p h =
      occur_all-Agrees es true r _ p (adv_data_set-Agrees a r s h)
  occur_all-Agrees (of_gap scan_rsp_data_set ∷ es) a r s p h =
      occur_all-Agrees es a true _ p (scan_rsp_data_set-Agrees a r s h)
  occur_all-Agrees (of_gap other_gap_event ∷ es) a r s p h = occur_all-Agrees es a r s p h
  occur_all-Agrees (app_leaves ∷ es) a r s p h = occur_all_grows es _ _ (omega arith)

  -- From a service that has no flag set and has not advertised: after its registration, whatever
  -- events of the GAP and whatever ends of a connection follow, advertising has been started exactly
  -- if both the advertisement and the scan response were reported as set, in either order, or a
  -- connection ended.
  pub advertised-registered :
      (mac : List ℕ) (es : List Occurrence) (s : Service) (p : Provision Queue)
      → s.adv_config_done ≡ 0
      → s.advertised ≡ 0
      → ltb 0 (occur_all env es (registered mac s, p)).0.advertised ≡ is_advertised es false false
  unfolding registered
  advertised-registered mac es s p h k =
      occur_all-Agrees es false false _ p (ap (λ n. set_bit 1 (set_bit 0 n)) h, ap (λ n. ltb 0 n) k)

length-colon_hex : (b : ℕ) (bs : List ℕ) → length (colon_hex (b ∷ bs)) ≡ 2 + 3 * length bs
length-colon_hex b [] = refl
length-colon_hex b (c ∷ cs) = let h = length-colon_hex c cs in omega (arith, h)

-- The name of a device with an address of six bytes fits into both arrays.
device_name_lem :
    (mac : List ℕ)
    → length mac ≡ 6
    → device_name mac ≡ codes "AVENSYS" ++ (codes "_" ++ colon_hex mac)
unfolding device_name
device_name_lem [] h = absurd (omega arith)
device_name_lem (b ∷ bs) h =
    let l = length-colon_hex b bs in
    ap (λ t. take 29 (codes "AVENSYS" ++ t))
      (take_all 18 (codes "_" ++ colon_hex (b ∷ bs)) (omega (arith, l, h)))
    ∙ take_all 29 (codes "AVENSYS" ++ (codes "_" ++ colon_hex (b ∷ bs))) (omega (arith, l, h))
