-- ===== src/Sessions/Inbound/Examples.antt =====
-- Tests of the inbound session, and the theorem at a concrete input.
use bitprim_network.Base.{ℕ, ◌≡◌, ◌≤◌, refl, any, count_by, if◌then◌else◌, List, [], ◌∷◌}
use bitprim_network.Code.{success, accept_failed}
use bitprim_network.Network
use bitprim_network.Network.Plain.{pendings, same}
use bitprim_network.Sessions
use bitprim_network.Sessions.{Wait, retry}
use bitprim_network.Sessions.Examples.{other, session, settings}
use bitprim_network.Sessions.Inbound
use bitprim_network.Sessions.Inbound.{
  InboundEvent, begins, accepts, wakes, shakes, stops, ends, halts, start, run,
}
use bitprim_network.Network.Holding.{has}
use bitprim_network.Sessions.Outbound.Holding.{stops_with}
use bitprim_network.Sessions.Inbound.Leaks.{run-start-closes}
use bitprim_network.Sessions.Inbound.Cycle.{IsCycling, gives_up, run-start-IsCycling}

-- A channel is accepted and stored; the next accept fails, and the delay after it is not over yet.
abbrev happenings : List (InboundEvent ℕ)
happenings =
    ends 0 (begins success)
    ∷ ends 0 (accepts success success 77 70013 other)
    ∷ ends 0 (shakes success 70013 5)
    ∷ ends 1 wakes
    ∷ ends 0 (accepts accept_failed success 0 0 other)
    ∷ []

waits_of_happenings :
    (run
      (λ a. a)
      same
      pendings
      settings
      happenings
      (start (λ a. a) same pendings settings session)).waits
    ≡ retry ∷ Wait.channel_stop other ∷ []
unfolding run start Inbound.step Inbound.end_wait Inbound.dispatch Inbound.handle_started
    Inbound.start_accept Inbound.handle_accept Inbound.handshake_complete
    Inbound.handle_channel_start Inbound.handle_channel_stop Inbound.connection_limit Sessions.start
    Sessions.start_channel Sessions.handle_starting Sessions.handle_start Sessions.handle_handshake
    Sessions.handshake_complete Sessions.register_channel Sessions.attach_handshake_protocols
    Sessions.attach_protocols Sessions.stopped_by Sessions.blacklisted Sessions.cycle_delay
    Sessions.handshake_options Network.store Network.pending Network.set_nonce
    Network.connection_count
waits_of_happenings = refl

run-start-IsCycling_example :
    IsCycling
      (λ a. a)
      same
      pendings
      settings
      1
      (any gives_up happenings)
      (run
        (λ a. a)
        same
        pendings
        settings
        happenings
        (start (λ a. a) same pendings settings session))
run-start-IsCycling_example =
    run-start-IsCycling (λ a. a) same pendings settings happenings session refl refl refl

run-start-closes_example :
    let t =
      run
        (λ a. a)
        same
        pendings
        settings
        happenings
        (start (λ a. a) same pendings settings session) in
    (if has 12 (pendings.elements t.network.pending_close) then 1 else 0)
    ≤ count_by (stops_with 12) t.waits
run-start-closes_example =
    run-start-closes (λ a. a) same pendings settings (λ c d. refl) 12 happenings session refl
