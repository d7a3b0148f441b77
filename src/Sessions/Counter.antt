-- ===== src/Sessions/Counter.antt =====
-- Small synchronizers that behave as the records of Sessions/Library say, for the tests. Each counts the
-- calls that are left.
use bitprim_network.Base.{
  ℕ, zero, suc, ◌≡◌, ◌-◌, ◌==◌, refl, Option, none, some, if◌then◌else◌, arith,
}
use bitprim_network.Code.{Code, success, operation_failed, is_error}
use bitprim_network.Sessions.Library.{SuccessSynchronizers, CountSynchronizers}

abbrev pub until_success : Code → ℕ → ℕ × Option Code
until_success ec zero = (0, none)
until_success ec (suc n) =
    if is_error ec then (n, if n == 0 then some operation_failed else none) else (0, some success)

pub until_success_lem :
    (ec : Code) (n : ℕ)
    → ((until_success ec n).0 ≡ (if is_error ec then n - 1 else 0))
      × ((until_success ec n).1 ≡ (
          if n == 0
          then none
          else if is_error ec
          then if n == 1 then some operation_failed else none
          else some success))
until_success_lem ec zero = (ground arith, refl)
until_success_lem ec (suc n) = (ground arith, ground arith)

abbrev pub success_counter : SuccessSynchronizers
success_counter = record {
  State = ℕ;
  exhausted = operation_failed;
  synchronize = λ n. n;
  remaining = λ n. n;
  call = until_success;
  exhausted_lem = refl;
  synchronize_lem = λ n. refl;
  call_lem = until_success_lem;
}

abbrev pub until_last : Code → ℕ → ℕ × Option Code
until_last ec n = (n - 1, if n == 1 then some success else none)

abbrev pub counter : CountSynchronizers
counter = record {
  State = ℕ;
  synchronize = λ n. n;
  remaining = λ n. n;
  call = until_last;
  synchronize_lem = λ n. refl;
  call_lem = λ ec n. (refl, refl);
}
