-- ===== src/Node/Examples.antt =====
-- Tests of the node's sequences, and the theorems at concrete inputs.
use bitprim_network.Base.{
  ℕ, ◌≡◌, refl, true, false, Option, none, some, List, [], ◌∷◌, ◌==◌, length, arith,
}
use bitprim_network.Code.{success, service_stopped, operation_failed, channel_timeout}
use bitprim_network.Library.Plain.{plain}
use bitprim_network.Hosts
use bitprim_network.Hosts.{returned, entries, opens, is_bad}
use bitprim_network.Hosts.Persistence.{restored}
use bitprim_network.Hosts.Plain.{Peer, peer, peers, ring, of_list}
use bitprim_network.Network
use bitprim_network.Network.{Link, Connections}
use bitprim_network.Network.Plain.{collections, pendings, holding}
use bitprim_network.Node.{
  Platform, Node, NodeSettings, construct, start, stop, store, subscribe_stop, subscribe_connection,
  pend, run, connect, connect_all, handle_manual_started, handle_inbound_started, handle_running,
  seed_phase,
}
use bitprim_network.Node.Sequence.{
  NodeEvent, starts, runs, ends, halts, steps, step, end_wait, dispatch, calls-start,
}
use bitprim_network.Node.Answers.{held, held-steps}
use bitprim_network.Node.Shutdown.{stop_all, IsDown, IsTold, stop_all_once}
use bitprim_network.Node.Pool.{address_count, steps-stop-restored}
use bitprim_network.Node.Broadcast
use bitprim_network.Node.Broadcast.{BroadcastEvent, goes_on, broadcast}
use bitprim_network.Node.Broadcast.Delivery.{IsDelivered, run-broadcast-IsDelivered}
use bitprim_network.Sessions.Counter.{counter}
use bitprim_network.Node.Restart.{store-steps-stop}

abbrev platform : Platform
platform = record {
  Waiter = ℕ;
  Watcher = ℕ;
  Name = ℕ;
  Handler = ℕ;
  a = peers;
  cb = ring;
  same = λ x y. x.ip == y.ip;
  links = collections (λ c. c.pointer);
  connectors = collections (λ c. c);
  stops = plain (λ ec h. false);
  watchers = plain (λ n h. h == 1);
}

abbrev settings : NodeSettings ℕ
settings = record {
  host_pool_capacity = 3;
  peers = record { host = 5; port = 8333 } ∷ [];
  connect_batch_size = 5;
  outbound_connections = 8;
  inbound_connections = 0;
}

abbrev fresh : Node platform
fresh = record (construct platform settings) { hosts = of_list [] }

-- The lines of the hosts file.
abbrev file : Option (List (Option Peer))
file = some (some (peer 3 8333) ∷ [])

abbrev stopped_pool : Node platform
stopped_pool = record fresh { hosts = record (of_list []) { stopped = true } }

calls-start_example :
    (steps platform settings
      (starts 1 ∷ ends 0 file success ∷ ends 0 none channel_timeout ∷ [])
      stopped_pool).calls
    ≡ (1, channel_timeout) ∷ []
unfolding construct Hosts.start Hosts.load
calls-start_example =
    calls-start platform settings 1 file none success channel_timeout success
      (of_list (peer 3 8333 ∷ [])) stopped_pool refl refl refl

-- Two starts, of which the second finds the node started, and a run; the node stops meanwhile.
abbrev happenings : List (NodeEvent platform settings)
happenings =
    starts 1
    ∷ starts 2
    ∷ runs 3
    ∷ ends 0 none success
    ∷ halts opens
    ∷ ends 1 none success
    ∷ ends 0 file success
    ∷ []

held_of_happenings :
    (steps platform settings happenings fresh).calls
    ≡ (3, success) ∷ (1, service_stopped) ∷ (2, operation_failed) ∷ []
unfolding steps step end_wait dispatch start run connect_all connect stop handle_manual_started
    handle_inbound_started handle_running construct
held_of_happenings = refl

held-steps_example :
    held platform settings (λ h. h == 1) (steps platform settings happenings fresh) ≡ 1
unfolding construct
held-steps_example = held-steps platform settings (λ h. h == 1) happenings fresh

abbrev link : ℕ → Link Peer
link i = record { authority = peer i 8333; pointer = i; notify = true }

abbrev busy : Node platform
busy =
    (store platform (link 4)
      (pend platform 21 (
        subscribe_stop platform 31 (subscribe_connection platform 1 (start platform 1 fresh)))).0).0

stop_all_once_example :
    IsDown platform (stop_all platform (opens ∷ is_bad ∷ opens ∷ []) busy)
    × IsTold platform busy (stop_all platform (opens ∷ is_bad ∷ opens ∷ []) busy)
unfolding store Network.store pend subscribe_stop subscribe_connection start construct
stop_all_once_example =
    stop_all_once platform opens (is_bad ∷ opens ∷ []) busy
      (record { connect_open = refl; handshake_open = refl; close_open = refl })

abbrev renewed : Node platform
renewed = steps platform settings (starts 2 ∷ ends 0 file success ∷ []) (stop platform opens busy).0

store-steps-stop_example :
    let (k, ec) = store platform (link 6) renewed in
    (ec ≡ service_stopped)
    × ((collections (λ c. c.pointer)).elements k.connections.pending_close
        ≡ (collections (λ c. c.pointer)).elements renewed.connections.pending_close)
    × (k.channel_subscriber ≡ renewed.channel_subscriber)
store-steps-stop_example =
    store-steps-stop platform settings opens (starts 2 ∷ ends 0 file success ∷ []) (link 6) busy

-- Two channels are open; the send of the second ends before the first is reached.
abbrev connected_to : Connections (λ a b. a == b) pendings
connected_to = record {
  pending_handshake = holding [];
  pending_close = holding (
      record { authority = 1; pointer = 11; notify = true }
      ∷ record { authority = 2; pointer = 12; notify = true }
      ∷ []);
  announced = [];
  nonces = λ p. 0;
}

abbrev message : ℕ
message = 5

abbrev sends : List BroadcastEvent
sends = goes_on ∷ Broadcast.ends 0 channel_timeout ∷ goes_on ∷ Broadcast.ends 0 success ∷ []

calls_of_sends :
    length
      (Broadcast.run counter
        (λ a b. a == b)
        pendings
        sends
        (broadcast counter (λ a b. a == b) pendings message connected_to)).calls
    ≡ 3
unfolding Broadcast.run Broadcast.step Broadcast.send_next Broadcast.end_send Broadcast.handle_send
    Broadcast.join_handler broadcast
calls_of_sends = refl

run-broadcast-IsDelivered_example :
    IsDelivered counter
      (λ a b. a == b)
      pendings
      (pendings.elements connected_to.pending_close)
      5
      (Broadcast.run counter
        (λ a b. a == b)
        pendings
        sends
        (broadcast counter (λ a b. a == b) pendings message connected_to))
run-broadcast-IsDelivered_example =
    run-broadcast-IsDelivered counter (λ a b. a == b) pendings message sends connected_to

-- The node runs, with two addresses.
abbrev stocked : Node platform
stocked = record fresh { stopped = false; hosts = of_list (peer 3 8333 ∷ peer 4 8334 ∷ []) }

steps-stop-restored_example :
    let (m, ok, file) = stop platform opens stocked in
    let k = steps platform settings (starts 1 ∷ ends 0 file success ∷ []) m in
    (ok ≡ true)
    × (address_count platform m ≡ 0)
    × (address_count platform k ≡ address_count platform stocked)
    × (entries peers ring k.hosts ≡ restored peers ring (entries peers ring stocked.hosts))
    × (k.waits ≡ (seed_phase, 1) ∷ stocked.waits)
unfolding construct
steps-stop-restored_example =
    steps-stop-restored platform settings 1 stocked refl refl
      ((refl, λ e. absurd (omega arith)), ((refl, λ e. absurd (omega arith)), tt)) (omega arith)
