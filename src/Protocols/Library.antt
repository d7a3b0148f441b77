-- ===== src/Protocols/Library.antt =====
-- `bc::synchronizer`, which joins several completions into one, as libbitcoin documents it for the
-- mode `synchronizer_terminate::on_error`.
use bitprim_network.Base.{ℕ, ◌≡◌, ◌-◌, ◌==◌, Option, none, some, if◌then◌else◌}
use bitprim_network.Code.{Code, success, is_error}

-- `call` returns with the new state the code that its handler is called with, if it is called: at the
-- first error with that error, or with success at the last of the calls that it was made for.
pub record Synchronizers : Type 1 where
  pub State : Type 0
  pub synchronize : ℕ → State
  pub remaining : State → ℕ
  pub call : Code → State → State × Option Code
  pub synchronize_lem : (n : ℕ) → remaining (synchronize n) ≡ n
  pub call_lem :
      (ec : Code) (s : State)
      → (remaining (call ec s).0 ≡ (if is_error ec then 0 else remaining s - 1))
        × ((call ec s).1 ≡ (
            if remaining s == 0
            then none
            else if is_error ec
            then some ec
            else if remaining s == 1
            then some success
            else none))
