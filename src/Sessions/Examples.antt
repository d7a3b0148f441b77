-- ===== src/Sessions/Examples.antt =====
-- Tests of the sessions, and the theorems at concrete inputs.
use bitprim_network.Base.{
  ℕ, ◌≡◌, ◌≤◌, count_by, refl, ◌+◌, true, false, some, List, [], ◌∷◌, ◌++◌, if◌then◌else◌,
}
use bitprim_network.Code.{Code, success, channel_stopped, channel_timeout, accept_failed, is_error}
use bitprim_network.Network
use bitprim_network.Network.{Link, Connections}
use bitprim_network.Network.Plain.{pendings, same, holding}
use bitprim_network.Network.Distinct.{opened}
use bitprim_network.Sessions
use bitprim_network.Sessions.{
  Session, SessionSettings, Wait, batch, retry, handshake, channel_stop, does, calls_started,
  calls_stopped, stops_channel, handle_handshake, handshake_complete,
}
use bitprim_network.Sessions.Registration.{outcome, recorded, handle_handshake_lem}
use bitprim_network.Sessions.Outbound
use bitprim_network.Sessions.Outbound.{
  Services, End, OutboundEvent, connects, begins, wakes, shakes, stops, ends, halts,
}
use bitprim_network.Sessions.Outbound.Slots.{IsFull, run-start-IsFull}
use bitprim_network.Sessions.Outbound.Leaks.{run-start-no_leak}
use bitprim_network.Sessions.Outbound.Holding.{shakes_with, stops_with}
use bitprim_network.Network.Holding.{has}
use bitprim_network.Sessions.Inbound
use bitprim_network.Sessions.Counter.{success_counter, counter}
use bitprim_network.Sessions.Batch
use bitprim_network.Sessions.Batch.{BatchEvent}
use bitprim_network.Sessions.Batch.Joining.{IsBatch, run-connect-IsBatch}
use bitprim_network.Sessions.Seed
use bitprim_network.Sessions.Seed.{Seeding, SeedEvent, goes_on, registers, counts, seeds}
use bitprim_network.Sessions.Seed.Outcome.{IsSeeding, run-start-IsSeeding}
use bitprim_network.Sessions.Loopback
use bitprim_network.Sessions.Loopback.{NetworkCall, handshake_complete-loopback}

abbrev pub peer : Link ℕ
peer = record { authority = 1; pointer = 11; notify = true }

abbrev pub other : Link ℕ
other = record { authority = 2; pointer = 12; notify = true }

abbrev pub network : Connections same pendings
network = record {
  pending_handshake = holding [];
  pending_close = holding (peer ∷ []);
  announced = [];
  nonces = λ p. 0;
}

abbrev pub session : Session same pendings
session = record {
  stopped = true;
  notify_on_connect = true;
  network = network;
  deeds = [];
  waits = [];
}

abbrev services : Services
services = record { node_network = 1; node_witness = 8; is_bch = false }

abbrev pub settings : SessionSettings ℕ
settings = record {
  host_pool_capacity = 10;
  inbound_port = 8333;
  inbound_connections = 1;
  outbound_connections = 2;
  peers = 0;
  seeds = 1;
  connect_batch_size = 1;
  connect_timeout_seconds = 5;
  protocol_maximum = 70013;
  protocol_minimum = 31402;
  services = 1;
  invalid_services = 176;
  relay_transactions = true;
  blacklists = 7 ∷ [];
  bip31 = 60001;
  bip61 = 70002;
}

handle_handshake_lem_example :
    let t =
      handle_handshake same pendings
        (handshake_complete same pendings (recorded same pendings peer) peer)
        (recorded same pendings peer)
        success
        session in
    let result = outcome same pendings success peer session.network in
    (t.deeds
      ≡ (if is_error result
          then calls_started result ∷ calls_stopped result ∷ stops_channel 11 result ∷ []
          else calls_started success ∷ [])
        ++ [])
    × (t.waits ≡ (if is_error result then [] else channel_stop peer ∷ []))
    × (opened same pendings t.network ≡ (
        if is_error result
        then opened same pendings session.network
        else opened same pendings session.network ++ peer ∷ []))
handle_handshake_lem_example = handle_handshake_lem same pendings success peer session refl

-- The start goes on; a batch ends with a channel, the other without one; the channel shakes hands, is registered and stops,
-- and the delay ends.
abbrev happenings : List (OutboundEvent ℕ)
happenings =
    ends 0 begins
    ∷ ends 0 (connects success success 77 70013 other)
    ∷ ends 1 (connects channel_timeout success 0 0 peer)
    ∷ ends 1 (shakes success 70013)
    ∷ ends 0 (stops channel_timeout)
    ∷ ends 1 wakes
    ∷ []

abbrev began : Session same pendings
began = Outbound.start same pendings services settings session

waits_of_happenings :
    (Outbound.run same pendings services settings happenings began).waits ≡ batch ∷ batch ∷ []
unfolding Outbound.run Outbound.step Outbound.end_wait Outbound.dispatch Outbound.start
    Outbound.handle_started Outbound.new_connections Outbound.new_connection Outbound.handle_connect
    Outbound.start_channel Outbound.handle_channel_start Outbound.handle_channel_stop
    Outbound.do_unpend Outbound.attach_handshake_protocols Sessions.start Sessions.start_channel
    Sessions.handle_starting Sessions.handle_start Sessions.handle_handshake
    Sessions.handshake_complete Sessions.handle_remove Sessions.register_channel
    Sessions.attach_protocols Network.pend Network.unpend Network.store Network.remove
    Network.set_nonce Sessions.cycle_delay Sessions.handshake_options
waits_of_happenings = refl

run-start-IsFull_example :
    IsFull same pendings services settings 2
      (Outbound.run same pendings services settings happenings began)
run-start-IsFull_example =
    run-start-IsFull same pendings services settings happenings session refl refl

-- The channel is open, and its stop is waited for.
abbrev halfway : List (OutboundEvent ℕ)
halfway =
    ends 0 begins
    ∷ ends 0 (connects success success 77 70013 other)
    ∷ ends 0 (shakes success 70013)
    ∷ []

run-start-no_leak_example :
    let t = Outbound.run same pendings services settings halfway began in
    ((if has 12 (pendings.elements t.network.pending_handshake) then 1 else 0)
      ≤ count_by (shakes_with 12) t.waits)
    × ((if has 12 (pendings.elements t.network.pending_close) then 1 else 0)
        ≤ count_by (stops_with 12) t.waits)
run-start-no_leak_example =
    run-start-no_leak same pendings services settings (λ c d. refl) 12 halfway session refl refl

-- The node connects to itself: it starts the channel with the nonce 77, and in the meantime stores and
-- takes away others; the peer of an accepted channel then names 77.
abbrev meantime : List (NetworkCall ℕ)
meantime =
    Loopback.stores peer
    ∷ Loopback.pends peer
    ∷ Loopback.sets_nonce 11 5
    ∷ Loopback.unpends peer
    ∷ Loopback.removes peer
    ∷ []

abbrev accepted : Session same pendings
accepted = record session {
  network =
      Loopback.run same pendings meantime
        (Outbound.start_channel same pendings services settings success 77 70013 other
          session).network;
}

handshake_complete-loopback_example :
    Inbound.handshake_complete
      (λ ip. ip)
      same
      pendings
      settings
      (λ ec. does same pendings (calls_started ec))
      77
      peer
      accepted
    ≡ does same pendings (calls_started accept_failed) accepted
handshake_complete-loopback_example =
    handshake_complete-loopback same pendings (λ ip. ip) services settings 77 70013 other peer
      session accepted meantime (λ ec. does same pendings (calls_started ec)) refl
      (tt, (tt, (refl, (refl, (tt, tt))))) refl

-- A batch of two, of which one connects and the other, of a blacklisted host, does not.
abbrev fetch : ℕ → Code × ℕ
fetch n = (success, n + 6)

abbrev batch_ends : List (BatchEvent ℕ)
batch_ends = Batch.ends 0 success 11 ∷ Batch.halts ∷ []

run-connect-IsBatch_example :
    IsBatch success_counter
      (λ ip. ip)
      (7 ∷ [])
      (Batch.run success_counter
        (λ ip. ip)
        (7 ∷ [])
        batch_ends
        (Batch.connect success_counter (λ ip. ip) (7 ∷ []) 2 fetch false))
run-connect-IsBatch_example =
    run-connect-IsBatch success_counter (λ ip. ip) (7 ∷ []) 2 fetch false batch_ends

calls_of_batch :
    (Batch.run success_counter
      (λ ip. ip)
      (7 ∷ [])
      batch_ends
      (Batch.connect success_counter (λ ip. ip) (7 ∷ []) 2 fetch false)).calls
    ≡ (success, some 11) ∷ []
unfolding Batch.run Batch.step Batch.end_connect Batch.handle_connect Batch.connect Batch.batch_size
    Batch.new_connects Batch.new_connect Batch.start_connect Batch.join_handler Sessions.blacklisted
calls_of_batch = refl

abbrev fresh : Seeding counter ℕ
fresh = record {
  stopped = true;
  address_count = 0;
  start_size = 0;
  made = 0;
  joined = 0;
  pended = [];
  unpended = [];
  deeds = [];
  waits = [];
  calls = [];
}

-- The only seed is contacted, its channel is registered, and it fills the pool.
abbrev seed_ends : List (SeedEvent ℕ)
seed_ends =
    Seed.ends 0 goes_on
    ∷ Seed.ends 0 (Seed.connects success success 77 70013 other)
    ∷ Seed.ends 0 (registers success 70013)
    ∷ counts 40
    ∷ Seed.ends 0 (seeds channel_stopped)
    ∷ []

run-start-IsSeeding_example :
    IsSeeding counter
      (λ ip. ip)
      settings
      (Seed.run counter
        (λ ip. ip)
        settings
        seed_ends
        (Seed.start counter (λ ip. ip) settings fresh))
run-start-IsSeeding_example =
    run-start-IsSeeding counter (λ ip. ip) settings seed_ends fresh refl
      (record {
        halted = refl;
        no_waits = refl;
        no_calls = refl;
        no_join = refl;
        from_nothing = refl;
        no_pended = refl;
        no_unpended = refl;
      })

calls_of_seeding :
    (Seed.run counter
      (λ ip. ip)
      settings
      seed_ends
      (Seed.start counter (λ ip. ip) settings fresh)).calls
    ≡ (success, 40) ∷ []
unfolding Seed.run Seed.step Seed.end_wait Seed.dispatch Seed.start Seed.handle_started
    Seed.start_seeding Seed.start_seeds Seed.start_seed Seed.handle_connect Seed.register_channel
    Seed.handle_start Seed.handle_channel_start Seed.attach_protocols Seed.join_handler
    Seed.handle_complete Sessions.blacklisted
calls_of_seeding = refl
