-- ===== src/Main/Update/Joined.antt =====
-- The buffer for the server's text in src/main.c: the pieces stand in it one behind the other, with a
-- NUL.
use aelebdwif01_dongle.Prelude.{
  ℕ, zero, suc, ◌+◌, ◌≡◌, ◌≢◌, ◌≤◌, ◌<◌, inl, inr, refl, sym, ap, ◌∙◌, List, [], ◌∷◌, ◌++◌, Bool,
  true, false, none, some, arith, length, length-append, length-set, length-blit, take, take_all,
  drop, ◌==◌, set, get_or, get_or-set_self, All, c_string, blit, memcpy_inside, memcpy_outside,
  lt_or_le, ltb, lt→ltb, le→ltb, ne→==, ◌>>=◌,
}
use aelebdwif01_dongle.Prelude.Latest.{append_assoc, append_nil}
use aelebdwif01_dongle.Ble.Image.{concat, take-blit}
use aelebdwif01_dongle.Main.Update.{
  Update, HttpEvent, data_event, append_data, data_arrived, http_event_handler, http_perform,
}

-- The pieces of a response, which is chunked or not.
unfoldable pub arrivals : Bool → List ℕ → List (List ℕ) → List HttpEvent
arrivals chunked heap [] = []
arrivals chunked heap (p ∷ ps) = data_event chunked (some heap) p ∷ arrivals chunked heap ps

unfoldable pub holding : List ℕ → ℕ → Update → Update
holding b len s = record s { json_response = some b; total_len = len }

take-set {ℓ} : {A : Type ℓ} (n : ℕ) (xs : List A) (v : A) → take n (set xs n v) ≡ take n xs
take-set zero xs v = refl
take-set (suc n) [] v = refl
take-set (suc n) (x ∷ xs) v = ap (λ t. x ∷ t) (take-set n xs v)

-- One piece that fits, with the NUL.
pub append_fits :
    (p b : List ℕ) (len : ℕ) (s : Update)
    → len + length p < length b
    → append_data p (some b) len s
      ≡ some (holding (set (blit b len p) (len + length p) 0) (len + length p) s)
unfolding append_data holding
append_fits p b len s h =
    let l = length-blit b len p in
    let nul : ltb (len + length p) (length (blit b len p)) ≡ true = lt→ltb (omega (arith, l, h)) in
    rw
      (
        memcpy_inside b len p 0 (length p) (omega arith) (omega arith),
        take_all (length p) p (omega arith),
        nul,
      )
      refl

append_overruns :
    (p b : List ℕ) (len : ℕ) (s : Update)
    → length b ≤ len + length p
    → append_data p (some b) len s ≡ none
unfolding append_data
append_overruns p b len s h = elim (lt_or_le (length b) (len + length p)) [
  | inl m ↦ rw (memcpy_outside b len p 0 (length p) (inl m)) refl
  | inr m ↦
      let l = length-blit b len p in
      let nul : ltb (len + length p) (length (blit b len p)) ≡ false =
        le→ltb (omega (arith, l, h)) in
      rw
        (
          memcpy_inside b len p 0 (length p) (omega arith) (omega arith),
          take_all (length p) p (omega arith),
          nul,
        )
        refl
]

-- The buffer behind some pieces: the text before, the pieces, and a NUL.
abbrev pub Joined : List ℕ → ℕ → List (List ℕ) → List ℕ → Type 0
Joined b len ps b' =
    (length b' ≡ length b)
    × (take (len + length (concat ps)) b' ≡ take len b ++ concat ps)
    × (get_or b' (len + length (concat ps)) 0 ≡ 0)

pub append-Joined :
    (p b : List ℕ) (len : ℕ)
    → len + length p < length b
    → let b' = set (blit b len p) (len + length p) 0 in
      (length b' ≡ length b)
      × (take (len + length p) b' ≡ take len b ++ p)
      × (get_or b' (len + length p) 0 ≡ 0)
append-Joined p b len h =
    let l = length-blit b len p in
    (
      length-set (blit b len p) (len + length p) 0 ∙ l,
      take-set (len + length p) (blit b len p) 0 ∙ take-blit b len p (omega arith),
      get_or-set_self (blit b len p) (len + length p) 0 0 (omega (arith, l, h)),
    )

module _ (heap : List ℕ) (s : Update) where
  -- The pieces of a chunked response are not looked at.
  pub perform_chunked : (ps : List (List ℕ)) → http_perform (arrivals true heap ps) s ≡ some s
  unfolding http_perform arrivals http_event_handler
  perform_chunked [] = refl
  perform_chunked (p ∷ ps) = perform_chunked ps

  pub perform_joins :
      (ps : List (List ℕ)) (b : List ℕ) (len : ℕ)
      → len + length (concat ps) < length b
      → get_or b len 0 ≡ 0
      → (b' : List ℕ) × (http_perform (arrivals false heap ps) (holding b len s)
          ≡ some (holding b' (len + length (concat ps)) s))
        × Joined b len ps b'
  unfolding http_perform arrivals http_event_handler data_arrived holding
  perform_joins [] b len h z =
      let e : len + 0 ≡ len = omega arith in
      rw e (b, refl, (refl, sym (append_nil (take len b)), z))
  perform_joins (p ∷ ps) b len h z =
      let n = length-append p (concat ps) in
      let j = append-Joined p b len (omega (arith, n, h)) in
      let b1 = set (blit b len p) (len + length p) 0 in
      let r = perform_joins ps b1 (len + length p) (omega (arith, n, h, j.0)) j.2 in
      let e : len + length p + length (concat ps) ≡ len + length (concat (p ∷ ps)) =
        omega (arith, n) in
      (
        r.0,
        ap (λ o. o >>= http_perform (arrivals false heap ps))
              (append_fits p b len s (omega (arith, n, h)))
            ∙ r.1
            ∙ ap (λ m. some (holding r.0 m s)) e,
        (
          r.2.0 ∙ j.0,
          ap (λ m. take m r.0) (sym e)
              ∙ r.2.1
              ∙ ap (λ t. t ++ concat ps) j.1
              ∙ append_assoc (take len b) p (concat ps),
          ap (λ m. get_or r.0 m 0) (sym e) ∙ r.2.2,
        ),
      )

  pub perform_overruns :
      (ps : List (List ℕ)) (b : List ℕ) (len : ℕ)
      → len < length b
      → length b ≤ len + length (concat ps)
      → http_perform (arrivals false heap ps) (holding b len s) ≡ none
  unfolding http_perform arrivals http_event_handler data_arrived holding
  perform_overruns [] b len k h = absurd (omega arith)
  perform_overruns (p ∷ ps) b len k h =
      let n = length-append p (concat ps) in
      elim (lt_or_le (len + length p) (length b)) [
        | inl m ↦
            let j = append-Joined p b len m in
            ap (λ o. o >>= http_perform (arrivals false heap ps)) (append_fits p b len s m)
            ∙ perform_overruns ps (set (blit b len p) (len + length p) 0) (len + length p)
                (omega (arith, m, j.0)) (omega (arith, n, h, j.0))
        | inr m ↦
            ap (λ o. o >>= http_perform (arrivals false heap ps)) (append_overruns p b len s m)
      ]

pub c_string-take :
    (b t : List ℕ)
    → length t < length b
    → take (length t) b ≡ t
    → get_or b (length t) 0 ≡ 0
    → All (λ c. c ≢ 0) t
    → c_string b ≡ t
c_string-take [] t h e z a = absurd (omega arith)
c_string-take (x ∷ b) [] h e z a = rw z refl
c_string-take (x ∷ b) (y ∷ t) h e z a =
    let ex : x ≡ y = ap (λ l. get_or l 0 0) e in
    let ne : (x == 0) ≡ false = ne→== (λ n. a.0 (sym ex ∙ n)) in
    let rest = c_string-take b t (omega arith) (ap (λ l. drop 1 l) e) z a.1 in
    rw ne (ap (λ l. x ∷ l) rest ∙ ap (λ c. c ∷ t) ex)
