-- ===== src/Network/Library.antt =====
-- `bc::pending`, a collection of shared pointers, as libbitcoin documents it.
use bitprim_network.Base.{
  ◌≡◌, Bool, List, [], ◌∷◌, ◌++◌, any, keep, not, ℕ, false, true, length, map, if◌then◌else◌,
}
use bitprim_network.Code.{Code, success, service_stopped, address_in_use}

-- A collection that was stopped takes no element. `remove` takes away the pointers that are equal to the
-- one that is given. `stop` stops the elements, which `told` lists with the code; a second stop does
-- nothing.
pub record Pendings (Element : Type 0) : Type 1 where
  pub State : Type 0
  pub is_stopped : State → Bool
  pub elements : State → List Element
  pub is_same : Element → Element → Bool
  pub store : Element → State → State × Code
  pub store_unless : (Element → Bool) → Element → State → State × Code
  pub remove : Element → State → State
  pub exists : (Element → Bool) → State → Bool
  pub size : State → ℕ
  pub create : ℕ → State
  pub stop : Code → State → State
  pub told : State → List (Element × Code)
  pub store_lem :
      (e : Element) (s : State)
      → (is_stopped (store e s).0 ≡ is_stopped s)
        × (elements (store e s).0 ≡ (if is_stopped s then elements s else elements s ++ e ∷ []))
        × ((store e s).1 ≡ (if is_stopped s then service_stopped else success))
  pub store_unless_lem :
      (match : Element → Bool) (e : Element) (s : State)
      → (is_stopped (store_unless match e s).0 ≡ is_stopped s)
        × (elements (store_unless match e s).0 ≡ (
            if is_stopped s
            then elements s
            else if any match (elements s)
            then elements s
            else elements s ++ e ∷ []))
        × ((store_unless match e s).1 ≡ (
            if is_stopped s
            then service_stopped
            else if any match (elements s)
            then address_in_use
            else success))
  pub remove_lem :
      (e : Element) (s : State)
      → (is_stopped (remove e s) ≡ is_stopped s)
        × (elements (remove e s) ≡ keep (λ x. not (is_same x e)) (elements s))
  pub exists_lem : (match : Element → Bool) (s : State) → exists match s ≡ any match (elements s)
  pub size_lem : (s : State) → size s ≡ length (elements s)
  pub create_lem :
      (capacity : ℕ)
      → (is_stopped (create capacity) ≡ false)
        × (elements (create capacity) ≡ [])
        × (told (create capacity) ≡ [])
  pub stop_lem :
      (ec : Code) (s : State)
      → (is_stopped (stop ec s) ≡ true)
        × (told (stop ec s)
            ≡ (if is_stopped s then told s else told s ++ map (λ e. (e, ec)) (elements s)))
  pub is_same_refl : (e : Element) → is_same e e ≡ true
