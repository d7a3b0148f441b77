-- ===== src/Connector/Examples.antt =====
-- The theorem on connections at a concrete input.
use bitprim_network.Base.{ℕ, zero, suc, ◌≡◌, ◌⊎◌, true, List, [], ◌∷◌, length}
use bitprim_network.Code.{Code, success, other}
use bitprim_network.Protocols.Counter.{counter}
use bitprim_network.Connector.{construct, connect}
use bitprim_network.Connector.Race.{Event, resolves, connects, times_out, run, calls-run}

abbrev code_of : ℕ → Code
code_of zero = success
code_of (suc n) = other n

-- The timer fires first, and then the connection is made.
abbrev late : List Event
late = resolves 0 ∷ times_out success ∷ connects 0 ∷ []

calls-run_example :
    let c = run counter code_of late (connect counter code_of (construct counter code_of)) in
    (length c.calls ≡ 1) ⊎ ((length c.calls ≡ 0) × ((c.resolving ≡ true) ⊎ (c.connecting ≡ true)))
calls-run_example = calls-run counter code_of late
