-- ===== src/Network/Examples.antt =====
-- Tests of the open connections, and the theorems at concrete inputs.
use bitprim_network.Base.{ℕ, true, false, List, [], ◌∷◌}
use bitprim_network.Network.{Link, Connections}
use bitprim_network.Network.Plain.{pendings, same, holding}
use bitprim_network.Network.Distinct.{
  stores, removes, run, opened, IsDistinct, opened-run-IsDistinct, Call,
}

abbrev idle : Connections same pendings
idle = record {
  pending_handshake = holding [];
  pending_close = holding [];
  announced = [];
  nonces = λ p. 0;
}

abbrev first : Link ℕ
first = record { authority = 1; pointer = 11; notify = true }

abbrev second : Link ℕ
second = record { authority = 2; pointer = 12; notify = false }

abbrev again : Link ℕ
again = record { authority = 1; pointer = 13; notify = true }

abbrev calls : List (Call ℕ)
calls = stores first ∷ stores second ∷ stores again ∷ removes second ∷ []

opened-run-IsDistinct_example :
    IsDistinct same pendings (opened same pendings (run same pendings calls idle))
opened-run-IsDistinct_example = opened-run-IsDistinct same pendings calls idle tt
