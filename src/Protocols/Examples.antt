-- ===== src/Protocols/Examples.antt =====
-- Tests of the protocols, and the theorems at concrete inputs.
use bitprim_network.Base.{ℕ, ◌≡◌, ◌≢◌, ◌⊎◌, ◌≤◌, ◌+◌, refl, true, false, List, [], ◌∷◌, length}
use bitprim_network.Code.{success, operation_failed}
use bitprim_network.Protocols.{Protocol, VersionMessage, construct}
use bitprim_network.Protocols.Counter.{counter}
use bitprim_network.Protocols.Timer
use bitprim_network.Protocols.Events
use bitprim_network.Protocols.Address
use bitprim_network.Protocols.Address.{AddressState}
use bitprim_network.Protocols.Address.Exchange
use bitprim_network.Protocols.Address.Exchange.{
  AddressEvent, gets_address, gets_get_address, addresses_stored, channel_stops, stored, sent,
  questions, to_store, to_send, to_stop, run-start-replays,
}
use bitprim_network.Protocols.Version
use bitprim_network.Protocols.Version.{
  Terms, from_31402, from_70002, Handshake, join_handler, check_peer, reject_peer, accept_version,
  sufficient_peer, handle_receive_version, handle_receive_verack,
}
use bitprim_network.Protocols.Handshake
use bitprim_network.Protocols.Handshake.{
  completions, gets_version, gets_verack, HandshakeEvent, Agrees, Received, has_verack,
}
use bitprim_network.Protocols.Handshake.Outcome.{completions-run, run-Agrees}
use bitprim_network.Protocols.Handshake.Friendly.{completions-run-IsFriendly}
use bitprim_network.Protocols.Ping
use bitprim_network.Protocols.Ping.Pending
use bitprim_network.Protocols.Ping.Pending.{length-pongs-run}
use bitprim_network.Protocols.Seed
use bitprim_network.Protocols.Seed.{Seed, SeedSettings}
use bitprim_network.Protocols.Seed.Seeding
use bitprim_network.Protocols.Seed.Seeding.{stop_codes-run}
use bitprim_network.Protocols.Seed.Steps
use bitprim_network.Protocols.Seed.Steps.{stop_codes}

-- Addresses are numbers.
abbrev terms : Terms ℕ
terms = record {
  own_version = 70013;
  own_services = 1;
  invalid_services = 176;
  minimum_version = 31402;
  minimum_services = 0;
  relay = true;
  protocol_minimum = 31402;
  protocol_maximum = 70013;
  level_minimum = 31402;
  level_maximum = 70013;
  authority = 5;
  self = 6;
  nonce = 7;
  height = 8;
}

abbrev greeting : VersionMessage ℕ
greeting = record {
  value = 70002;
  services = 1;
  receiver = 6;
  receiver_services = 0;
  sender = 5;
  sender_services = 1;
  nonce = 9;
  start_height = 10;
  relay = false;
}

abbrev fresh_handshake : Handshake counter
fresh_handshake = record {
  joined = 0;
  awaits_version = false;
  awaits_verack = false;
  awaits_reject = false;
}

abbrev friendly : List (HandshakeEvent ℕ)
friendly = gets_verack success ∷ gets_version success greeting ∷ []

abbrev handshake_of : List (HandshakeEvent ℕ) → Protocol ℕ (Handshake counter)
handshake_of es =
    Handshake.run counter terms from_70002 es
      (Version.start counter terms from_70002 (construct fresh_handshake))

handshake_done : completions (handshake_of friendly).outputs ≡ success ∷ []
unfolding Handshake.run Handshake.step Version.start Timer.start Timer.reset_timer Timer.stopped
    Events.start Events.stopped handle_receive_version handle_receive_verack Timer.stopped_by
    Events.stopped_by accept_version check_peer reject_peer sufficient_peer Timer.set_event
    Events.set_event Timer.handle_notify join_handler
handshake_done = refl

completions-run-IsFriendly_example : completions (handshake_of friendly).outputs ≡ success ∷ []
unfolding sufficient_peer
completions-run-IsFriendly_example =
    completions-run-IsFriendly counter terms from_70002 fresh_handshake friendly
      (record { minimum_known = refl; maximum_known = refl; in_order = refl })
      (refl, ((refl, refl), tt)) refl refl

completions-run_example : length (completions (handshake_of friendly).outputs) ≤ 1
completions-run_example = completions-run counter terms from_70002 fresh_handshake friendly

run-Agrees_example :
    Agrees counter terms (Received friendly) (handshake_of friendly).outputs
    × (has_verack friendly ≡ true)
run-Agrees_example = run-Agrees counter terms from_70002 fresh_handshake friendly handshake_done

abbrev beats : List Pending.PingEvent
beats = Pending.timer_fires ∷ Pending.gets_pong success 100 ∷ Pending.timer_fires ∷ []

length-pongs-run_example :
    let p =
      Pending.run ℕ
        (λ n. n + 100)
        beats
        (Ping.start ℕ (λ n. n + 100) Ping.from_60001 (Pending.fresh ℕ (λ n. n + 100))) in
    (length p.own.pongs ≤ 1) × ((p.own.pending ≡ true) ⊎ (p.own.pongs ≡ []))
length-pongs-run_example = length-pongs-run ℕ (λ n. n + 100) beats

abbrev waiting : Protocol ℕ Ping.Ping
waiting = record {
  handler = true;
  timer = true;
  outputs = [];
  own = record { pending = true; drawn = 1; awaits_ping = true; pongs = 100 ∷ [] };
}

abbrev seed_settings : SeedSettings ℕ
seed_settings = record { host_pool_capacity = 1000; self = 6; self_port = 8333 }

abbrev seeding : List (Steps.SeedEvent ℕ)
seeding =
    Steps.own_sent success
    ∷ Steps.request_sent success
    ∷ Steps.gets_address success (1 ∷ 2 ∷ [])
    ∷ Steps.stored success
    ∷ []

stop_codes-run_example :
    let p =
      Steps.run counter seed_settings seeding
        (Seed.start counter seed_settings (Seeding.fresh counter seed_settings)) in
    (length (completions p.outputs) ≤ 1)
    × (stop_codes p.outputs ≡ completions p.outputs)
    × (completions p.outputs ≢ success ∷ [])
stop_codes-run_example = stop_codes-run counter seed_settings seeding

-- Addresses arrive twice, and are asked for twice; the first are not stored; then the channel stops.
abbrev exchange : List (AddressEvent ℕ)
exchange =
    gets_address success (4 ∷ 5 ∷ [])
    ∷ gets_get_address success (7 ∷ [])
    ∷ addresses_stored operation_failed
    ∷ gets_get_address success (8 ∷ [])
    ∷ gets_address success (9 ∷ [])
    ∷ channel_stops success
    ∷ gets_address success (10 ∷ [])
    ∷ []

run-start-replays_example :
    let own : AddressState ℕ = record {
      self = 6 ∷ [];
      awaits_address = false;
      awaits_get_address = false;
    } in
    let q = Exchange.run exchange (Address.start 100 (construct own)) in
    (stored q.outputs ≡ (9 ∷ []) ∷ (4 ∷ 5 ∷ []) ∷ [])
    × (sent q.outputs ≡ (7 ∷ []) ∷ (6 ∷ []) ∷ [])
    × (stop_codes q.outputs ≡ operation_failed ∷ [])
    × (questions q.outputs ≡ 1)
unfolding to_store to_send to_stop
run-start-replays_example = run-start-replays exchange 100 (6 ∷ [])
