-- ===== src/Library.antt =====
-- What several parts use of libbitcoin: its subscribers, with their documented behaviour.
pub mod Plain
use bitprim_network.Base.{ℕ, ◌≡◌, Bool, true, false, List, [], ◌∷◌, ◌++◌, map, keep, if◌then◌else◌}

-- `bc::subscriber` and `bc::resubscriber`. A state is seen through its flag, the handlers that wait,
-- and the calls of handlers that it has made so far. A handler that is notified is taken off the list,
-- unless it asks to stay (`renews`, always false for a plain subscriber) and the subscriber has not
-- been stopped. One that comes after the stop is called at once, with what the caller gave for
-- that case. `relay` makes its calls on another thread, `invoke` on this one.
pub record Subscribers (Handler : Type 0) (Notice : Type 0) : Type 1 where
  pub State : Type 0
  pub renews : Notice → Handler → Bool
  pub is_stopped : State → Bool
  pub waiting : State → List Handler
  pub calls : State → List (Handler × Notice)
  pub create : State
  pub start : State → State
  pub stop : State → State
  pub subscribe : Handler → Notice → State → State
  pub relay : Notice → State → State
  pub invoke : Notice → State → State
  pub create_lem : (is_stopped create ≡ true) × (waiting create ≡ []) × (calls create ≡ [])
  pub start_lem :
      (s : State)
      → (is_stopped (start s) ≡ false)
        × (waiting (start s) ≡ waiting s)
        × (calls (start s) ≡ calls s)
  pub stop_lem :
      (s : State)
      → (is_stopped (stop s) ≡ true) × (waiting (stop s) ≡ waiting s) × (calls (stop s) ≡ calls s)
  pub subscribe_lem :
      (h : Handler) (n : Notice) (s : State)
      → (is_stopped (subscribe h n s) ≡ is_stopped s)
        × (waiting (subscribe h n s) ≡ (if is_stopped s then waiting s else waiting s ++ h ∷ []))
        × (calls (subscribe h n s) ≡ (if is_stopped s then calls s ++ (h, n) ∷ [] else calls s))
  pub relay_lem :
      (n : Notice) (s : State)
      → (is_stopped (relay n s) ≡ is_stopped s)
        × (waiting (relay n s) ≡ (if is_stopped s then [] else keep (renews n) (waiting s)))
        × (calls (relay n s) ≡ calls s ++ map (λ h. (h, n)) (waiting s))
  pub invoke_lem :
      (n : Notice) (s : State)
      → (is_stopped (invoke n s) ≡ is_stopped s)
        × (waiting (invoke n s) ≡ (if is_stopped s then [] else keep (renews n) (waiting s)))
        × (calls (invoke n s) ≡ calls s ++ map (λ h. (h, n)) (waiting s))
