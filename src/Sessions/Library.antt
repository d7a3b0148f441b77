-- ===== src/Sessions/Library.antt =====
-- `bc::synchronizer` in the modes in which the sessions use it, as libbitcoin documents them.
use bitprim_network.Base.{ℕ, ◌≡◌, ◌-◌, ◌==◌, true, Option, none, some, if◌then◌else◌}
use bitprim_network.Code.{Code, success, is_error}

-- The mode `synchronizer_terminate::on_success`: its handler is called at the first success, with that,
-- or at the last of the calls that it was made for, with an error.
pub record SuccessSynchronizers : Type 1 where
  pub State : Type 0
  pub exhausted : Code
  pub synchronize : ℕ → State
  pub remaining : State → ℕ
  pub call : Code → State → State × Option Code
  pub exhausted_lem : is_error exhausted ≡ true
  pub synchronize_lem : (n : ℕ) → remaining (synchronize n) ≡ n
  pub call_lem :
      (ec : Code) (s : State)
      → (remaining (call ec s).0 ≡ (if is_error ec then remaining s - 1 else 0))
        × ((call ec s).1 ≡ (
            if remaining s == 0
            then none
            else if is_error ec
            then if remaining s == 1 then some exhausted else none
            else some success))

-- The mode `synchronizer_terminate::on_count`: its handler is called at the last of the calls that it was
-- made for, with success.
pub record CountSynchronizers : Type 1 where
  pub State : Type 0
  pub synchronize : ℕ → State
  pub remaining : State → ℕ
  pub call : Code → State → State × Option Code
  pub synchronize_lem : (n : ℕ) → remaining (synchronize n) ≡ n
  pub call_lem :
      (ec : Code) (s : State)
      → (remaining (call ec s).0 ≡ remaining s - 1)
        × ((call ec s).1 ≡ (if remaining s == 1 then some success else none))
