-- ===== src/Channel/Library.antt =====
-- `bc::sequencer`, by which libbitcoin's dispatcher runs one action at a time: as libbitcoin documents it.
use bitprim_network.Base.{◌≡◌, Bool, true, Option, none, some, List, [], ◌∷◌, ◌++◌, if◌then◌else◌}

-- The action at the head of a queue, and the rest.
abbrev pub head : {A : Type 0} → List A → Option A
head [] = none
head (x ∷ xs) = some x

abbrev pub tail : {A : Type 0} → List A → List A
tail [] = []
tail (x ∷ xs) = xs

abbrev pub is_some : {A : Type 0} → Option A → Bool
is_some none = Bool.false
is_some (some x) = true

-- `lock` and `unlock` return the action that is to run now, if there is one: an action runs at once where
-- none runs, and else when those before it have unlocked.
pub record Sequencers (Action : Type 0) : Type 1 where
  pub State : Type 0
  pub create : State
  pub busy : State → Bool
  pub waiting : State → List Action
  pub lock : Action → State → State × Option Action
  pub unlock : State → State × Option Action
  pub create_lem : (busy create ≡ Bool.false) × (waiting create ≡ [])
  pub lock_lem :
      (a : Action) (s : State)
      → (busy (lock a s).0 ≡ true)
        × (waiting (lock a s).0 ≡ (if busy s then waiting s ++ a ∷ [] else waiting s))
        × ((lock a s).1 ≡ (if busy s then none else some a))
  pub unlock_lem :
      (s : State)
      → (busy (unlock s).0 ≡ is_some (head (waiting s)))
        × (waiting (unlock s).0 ≡ tail (waiting s))
        × ((unlock s).1 ≡ head (waiting s))
