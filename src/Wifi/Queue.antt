-- ===== src/Wifi/Queue.antt =====
-- The FreeRTOS queue of requests of src/mqtt_app.c: the calls the code makes, and what is
-- documented of them. A queue is a parameter, with the list of what it holds, the oldest first.
use aelebdwif01_dongle.Prelude.{
  ℕ, ◌≡◌, ◌<◌, ◌≤◌, List, [], ◌∷◌, ◌++◌, Bool, true, false, Option, none, some, length,
}

-- `xQueueSend` without waiting, and `xQueueReceive`.
pub record QueueApi {ℓ κ} (Queue : Type ℓ) (A : Type κ) : Type (ℓ ⊔ κ) where
  pub send : A → Queue → Bool × Queue
  pub receive : Queue → Option A × Queue

-- A queue of a length holds at most so many items, and gives them in the order of their arrival.
pub record QueueLaws {ℓ κ} {Queue : Type ℓ} {A : Type κ} (api : QueueApi Queue A) (max_length : ℕ)
    : Type (ℓ ⊔ κ) where
  pub contents : Queue → List A
  pub contents_bound : (q : Queue) → length (contents q) ≤ max_length
  pub send_room :
      (a : A) (q : Queue)
      → length (contents q) < max_length
      → ((api.send a q).0 ≡ true) × (contents (api.send a q).1 ≡ contents q ++ (a ∷ []))
  pub send_full :
      (a : A) (q : Queue)
      → max_length ≤ length (contents q)
      → ((api.send a q).0 ≡ false) × (contents (api.send a q).1 ≡ contents q)
  pub receive_none :
      (q : Queue) → contents q ≡ [] → ((api.receive q).0 ≡ none) × (contents (api.receive q).1 ≡ [])
  pub receive_some :
      (a : A) (rest : List A) (q : Queue)
      → contents q ≡ a ∷ rest
      → ((api.receive q).0 ≡ some a) × (contents (api.receive q).1 ≡ rest)
