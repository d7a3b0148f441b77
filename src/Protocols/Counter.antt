-- ===== src/Protocols/Counter.antt =====
-- A small synchronizer that behaves as the record `Synchronizers` says, for the tests.
use bitprim_network.Base.{
  ℕ, zero, suc, ◌≡◌, ◌-◌, ◌==◌, refl, Option, none, some, if◌then◌else◌, arith,
}
use bitprim_network.Code.{Code, success, is_error}
use bitprim_network.Protocols.Library.{Synchronizers}

-- A synchronizer counts the calls that are left.
abbrev pub count_down : Code → ℕ → ℕ × Option Code
count_down ec zero = (0, none)
count_down ec (suc n) =
    if is_error ec then (0, some ec) else (n, if n == 0 then some success else none)

pub count_down_lem :
    (ec : Code) (n : ℕ)
    → ((count_down ec n).0 ≡ (if is_error ec then 0 else n - 1))
      × ((count_down ec n).1 ≡ (
          if n == 0
          then none
          else if is_error ec
          then some ec
          else if n == 1
          then some success
          else none))
count_down_lem ec zero = (ground arith, refl)
count_down_lem ec (suc n) = (ground arith, ground arith)

abbrev pub counter : Synchronizers
counter = record {
  State = ℕ;
  synchronize = λ n. n;
  remaining = λ n. n;
  call = count_down;
  synchronize_lem = λ n. refl;
  call_lem = count_down_lem;
}
