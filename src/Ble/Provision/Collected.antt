-- ===== src/Ble/Provision/Collected.antt =====
-- The provisioning of src/ble.c as a whole: chunks of an SSID, chunks of a password, and the request.
use aelebdwif01_dongle.Prelude.{
  ℕ, ◌+◌, ◌<◌, ◌≡◌, ◌≤◌, refl, sym, ap, ◌∙◌, List, [], ◌∷◌, ◌++◌, true, false, Option, none, some,
  arith, All, take, take_all, length, length-append, c_string, ◌==◌, ne→==,
}
use aelebdwif01_dongle.Prelude.Latest.{append_assoc, append_nil}
use aelebdwif01_dongle.Wifi.{max_ssid_length, max_password_length}
use aelebdwif01_dongle.Wifi.Connect.{Net}
use aelebdwif01_dongle.Wifi.Storage.{Credentials}
use aelebdwif01_dongle.Ble.Provision.{Provision, EventEnv, wifi_ssid, wifi_password}
use aelebdwif01_dongle.Ble.Provision.Events.{event, write}
use aelebdwif01_dongle.Ble.Provision.Packets.{
  concat, bytes_of, Holds, ssid_of, password_of, ssid_chunk, password_chunk, write_all,
}

module _ {Queue : Type 0} (env : EventEnv Queue) where
  -- A state with packets, credentials and station, said in other words.
  pub moved-Holds :
      {x x' y y' : Option (List ℕ)} {c c' : Credentials} {n n' : Net} {r : Provision Queue}
      → Holds env x y c n r
      → x ≡ x'
      → y ≡ y'
      → c ≡ c'
      → n ≡ n'
      → Holds env x' y' c' n' r
  moved-Holds h e1 e2 e3 e4 = record {
    ssid_held = h.ssid_held ∙ e1;
    password_held = h.password_held ∙ e2;
    credentials_held = h.credentials_held ∙ e3;
    net_held = h.net_held ∙ e4;
    has_queue = h.has_queue;
  }

  -- The credentials with an SSID or a password of a packet.
  abbrev with_ssid : List ℕ → List ℕ → Credentials
  with_ssid xs w = record { ssid = ssid_of env xs; password = w }

  abbrev with_password : List ℕ → List ℕ → Credentials
  with_password s xs = record { ssid = s; password = password_of env xs }

  module _ (a : env.allocated ≡ true) {y : Option (List ℕ)} {n : Net} where
    ssid_next :
        (c : List ℕ) (p : Provision Queue) (x : Option (List ℕ)) (cred : Credentials)
        → Holds env x y cred n p
        → length (bytes_of x ++ c) ≤ max_ssid_length
        → Holds env
            (some (bytes_of x ++ c))
            y
            (with_ssid (bytes_of x ++ c) cred.password)
            n
            (event env (write wifi_ssid c true) p)
    unfolding event
    ssid_next c p x cred h l =
        let e : bytes_of p.ssid_packet ++ c ≡ bytes_of x ++ c =
          ap (λ o. bytes_of o ++ c) h.ssid_held in
        let w : p.manager.credentials.password ≡ cred.password =
          ap (λ o. o.password) h.credentials_held in
        let m : length (bytes_of p.ssid_packet ++ c) ≤ max_ssid_length = rw e l in
        moved-Holds (ssid_chunk env a c true p h.has_queue m) (ap some e) h.password_held
          (ap (λ xs. with_ssid xs p.manager.credentials.password) e
            ∙ ap (with_ssid (bytes_of x ++ c)) w)
          h.net_held

    ssid_rest :
        (cs : List (List ℕ)) (p : Provision Queue) (xs w : List ℕ)
        → Holds env (some xs) y (with_ssid xs w) n p
        → length (xs ++ concat cs) ≤ max_ssid_length
        → Holds env
            (some (xs ++ concat cs))
            y
            (with_ssid (xs ++ concat cs) w)
            n
            (write_all env wifi_ssid cs p)
    unfolding write_all
    ssid_rest [] p xs w h l =
        let e : xs ≡ xs ++ [] = sym (append_nil xs) in
        moved-Holds h (ap some e) refl (ap (λ t. with_ssid t w) e) refl
    ssid_rest (c ∷ cs) p xs w h l =
        let e : (xs ++ c) ++ concat cs ≡ xs ++ (c ++ concat cs) = append_assoc xs c (concat cs) in
        let l2 : length ((xs ++ c) ++ concat cs) ≤ max_ssid_length = rw e l in
        let k : length ((xs ++ c) ++ concat cs) ≡ length (xs ++ c) + length (concat cs) =
          length-append (xs ++ c) (concat cs) in
        moved-Holds
          (ssid_rest cs (event env (write wifi_ssid c true) p) (xs ++ c) w
            (ssid_next c p (some xs) (with_ssid xs w) h (omega arith)) l2)
          (ap some e) refl (ap (λ t. with_ssid t w) e) refl

    pub ssid_all :
        (cs : List (List ℕ)) (p : Provision Queue) (cred : Credentials)
        → Holds env none y cred n p
        → 0 < length (concat cs)
        → length (concat cs) ≤ max_ssid_length
        → Holds env
            (some (concat cs))
            y
            (with_ssid (concat cs) cred.password)
            n
            (write_all env wifi_ssid cs p)
    unfolding write_all
    ssid_all [] p cred h l m = absurd (omega arith)
    ssid_all (c ∷ cs) p cred h l m =
        let k : length (c ++ concat cs) ≡ length c + length (concat cs) =
          length-append c (concat cs) in
        ssid_rest cs (event env (write wifi_ssid c true) p) c cred.password
          (ssid_next c p none cred h (omega arith)) m

  module _ (a : env.allocated ≡ true) {y : Option (List ℕ)} {n : Net} where
    password_next :
        (c : List ℕ) (p : Provision Queue) (x : Option (List ℕ)) (cred : Credentials)
        → Holds env y x cred n p
        → length (bytes_of x ++ c) ≤ max_password_length
        → Holds env y
            (some (bytes_of x ++ c))
            (with_password cred.ssid (bytes_of x ++ c))
            n
            (event env (write wifi_password c true) p)
    unfolding event
    password_next c p x cred h l =
        let e : bytes_of p.password_packet ++ c ≡ bytes_of x ++ c =
          ap (λ o. bytes_of o ++ c) h.password_held in
        let w : p.manager.credentials.ssid ≡ cred.ssid = ap (λ o. o.ssid) h.credentials_held in
        let m : length (bytes_of p.password_packet ++ c) ≤ max_password_length = rw e l in
        moved-Holds (password_chunk env a c true p h.has_queue m) h.ssid_held (ap some e)
          (ap (with_password p.manager.credentials.ssid) e
            ∙ ap (λ t. with_password t (bytes_of x ++ c)) w)
          h.net_held

    password_rest :
        (cs : List (List ℕ)) (p : Provision Queue) (xs w : List ℕ)
        → Holds env y (some xs) (with_password w xs) n p
        → length (xs ++ concat cs) ≤ max_password_length
        → Holds env y
            (some (xs ++ concat cs))
            (with_password w (xs ++ concat cs))
            n
            (write_all env wifi_password cs p)
    unfolding write_all
    password_rest [] p xs w h l =
        let e : xs ≡ xs ++ [] = sym (append_nil xs) in
        moved-Holds h refl (ap some e) (ap (with_password w) e) refl
    password_rest (c ∷ cs) p xs w h l =
        let e : (xs ++ c) ++ concat cs ≡ xs ++ (c ++ concat cs) = append_assoc xs c (concat cs) in
        let l2 : length ((xs ++ c) ++ concat cs) ≤ max_password_length = rw e l in
        let k : length ((xs ++ c) ++ concat cs) ≡ length (xs ++ c) + length (concat cs) =
          length-append (xs ++ c) (concat cs) in
        moved-Holds
          (password_rest cs (event env (write wifi_password c true) p) (xs ++ c) w
            (password_next c p (some xs) (with_password w xs) h (omega arith)) l2)
          refl (ap some e) (ap (with_password w) e) refl

    pub password_all :
        (cs : List (List ℕ)) (p : Provision Queue) (cred : Credentials)
        → Holds env y none cred n p
        → 0 < length (concat cs)
        → length (concat cs) ≤ max_password_length
        → Holds env y
            (some (concat cs))
            (with_password cred.ssid (concat cs))
            n
            (write_all env wifi_password cs p)
    unfolding write_all
    password_all [] p cred h l m = absurd (omega arith)
    password_all (c ∷ cs) p cred h l m =
        let k : length (c ++ concat cs) ≡ length c + length (concat cs) =
          length-append c (concat cs) in
        password_rest cs (event env (write wifi_password c true) p) c cred.ssid
          (password_next c p none cred h (omega arith)) m

c_string_text : (xs : List ℕ) → All (λ b. 0 < b) xs → c_string xs ≡ xs
c_string_text [] h = refl
c_string_text (x ∷ xs) h =
    let l : 0 < x = h.0 in
    let e : (x == 0) ≡ false = ne→== (λ z. absurd (omega arith)) in
    rw e (ap (λ t. x ∷ t) (c_string_text xs h.1))

-- The chunks of a string: not empty, without NUL, of a length at most.
pub record IsEntry (max_len : ℕ) (chunks : List (List ℕ)) : Type 0 where
  pub fits : length (concat chunks) ≤ max_len
  pub nonempty : 0 < length (concat chunks)
  pub text : All (λ b. 0 < b) (concat chunks)

pub entry_text :
    (n : ℕ) (cs : List (List ℕ)) → IsEntry n cs → c_string (take n (concat cs)) ≡ concat cs
entry_text n cs e = ap c_string (take_all n (concat cs) e.fits) ∙ c_string_text (concat cs) e.text
