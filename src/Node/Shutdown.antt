-- ===== src/Node/Shutdown.antt =====
-- The stop of a node, once and again: src/p2p.cpp.
use bitprim_network.Base.{◌≡◌, refl, true, false, none, List, [], ◌∷◌, ◌++◌, map, arith, ◌∙◌}
use mathlib.Core.List.{append-nil}
use bitprim_network.Code.{service_stopped}
use bitprim_network.Hosts.{Opening}
use bitprim_network.Library.{Subscribers}
use bitprim_network.Network.Library.{Pendings}
use bitprim_network.Node.{Platform, Node, stop}

-- A stopped subscriber that is told calls each handler that waited, and none waits afterwards; what is
-- told then reaches nobody.
module _ {H N : Type 0} (sub : Subscribers H N) (notice : N) where
  abbrev told_off : sub.State → sub.State
  told_off s = sub.invoke notice (sub.stop s)

  told_off_lem :
      (s : sub.State)
      → (sub.calls (told_off s) ≡ sub.calls s ++ map (λ h. (h, notice)) (sub.waiting s))
        × (sub.waiting (told_off s) ≡ [])
        × (sub.is_stopped (told_off s) ≡ true)
  told_off_lem s =
      let x = sub.stop_lem s in let y = sub.invoke_lem notice (sub.stop s) in ground (arith, x, y)

  told_off_twice : (s : sub.State) → sub.waiting s ≡ [] → sub.calls (told_off s) ≡ sub.calls s
  told_off_twice s e = let x = told_off_lem s in rw (x.0, e) (append-nil (sub.calls s))

module _ (w : Platform) where
  open w use {Name, Handler, a, cb, same, links, connectors, stops, watchers}

  -- The node after so many stops, by what opening the hosts file comes to at each.
  unfoldable pub stop_all : List Opening → Node w → Node w
  stop_all [] n = n
  stop_all (b ∷ bs) n = stop_all bs (stop w b n).0

  -- What others have been told by the node.
  record SameTold (n m : Node w) : Type 0 where
    stop_calls : stops.calls m.stop_subscriber ≡ stops.calls n.stop_subscriber
    channel_calls : watchers.calls m.channel_subscriber ≡ watchers.calls n.channel_subscriber
    connectors_told : connectors.told m.pending_connect ≡ connectors.told n.pending_connect
    handshakes_told :
        links.told m.connections.pending_handshake ≡ links.told n.connections.pending_handshake
    channels_told : links.told m.connections.pending_close ≡ links.told n.connections.pending_close

  -- A node that has stopped, and has nobody left to tell.
  pub record IsDown (n : Node w) : Type 0 where
    pub halted : n.stopped ≡ true
    pub no_manual : n.manual ≡ false
    pub no_threads : n.threads ≡ false
    pub stop_subscriber_stopped : stops.is_stopped n.stop_subscriber ≡ true
    pub no_waiters : stops.waiting n.stop_subscriber ≡ []
    pub channel_subscriber_stopped : watchers.is_stopped n.channel_subscriber ≡ true
    pub no_watchers : watchers.waiting n.channel_subscriber ≡ []
    pub connect_stopped : connectors.is_stopped n.pending_connect ≡ true
    pub handshake_stopped : links.is_stopped n.connections.pending_handshake ≡ true
    pub close_stopped : links.is_stopped n.connections.pending_close ≡ true

  pub stop-IsDown : (b : Opening) (n : Node w) → IsDown (stop w b n).0
  unfolding stop
  stop-IsDown b n =
      let x = told_off_lem stops service_stopped n.stop_subscriber in
      let y = told_off_lem watchers (service_stopped, none) n.channel_subscriber in
      record {
        halted = refl;
        no_manual = refl;
        no_threads = refl;
        stop_subscriber_stopped = x.2;
        no_waiters = x.1;
        channel_subscriber_stopped = y.2;
        no_watchers = y.1;
        connect_stopped = (connectors.stop_lem service_stopped n.pending_connect).0;
        handshake_stopped = (links.stop_lem service_stopped n.connections.pending_handshake).0;
        close_stopped = (links.stop_lem service_stopped n.connections.pending_close).0;
      }

  -- A collection that was stopped tells nobody again.
  stop_again :
      {E : Type 0} (p : Pendings E) (s : p.State)
      → p.is_stopped s ≡ true
      → p.told (p.stop service_stopped s) ≡ p.told s
  stop_again p s e = let x = p.stop_lem service_stopped s in ground (arith, x)

  stop-SameTold : (b : Opening) (n : Node w) → IsDown n → SameTold n (stop w b n).0
  unfolding stop
  stop-SameTold b n v = record {
    stop_calls = told_off_twice stops service_stopped n.stop_subscriber v.no_waiters;
    channel_calls =
        told_off_twice watchers (service_stopped, none) n.channel_subscriber v.no_watchers;
    connectors_told = stop_again connectors n.pending_connect v.connect_stopped;
    handshakes_told = stop_again links n.connections.pending_handshake v.handshake_stopped;
    channels_told = stop_again links n.connections.pending_close v.close_stopped;
  }

  -- What others have been told by the node, once it has stopped: every handler that waited for its stop,
  -- every subscriber to its connections, every connector and channel that was pending or open, each
  -- with the code of a stopped service.
  pub record IsTold (n m : Node w) : Type 0 where
    pub waiters_told :
        stops.calls m.stop_subscriber
        ≡ stops.calls n.stop_subscriber
          ++ map (λ h. (h, service_stopped)) (stops.waiting n.stop_subscriber)
    pub watchers_told :
        watchers.calls m.channel_subscriber
        ≡ watchers.calls n.channel_subscriber
          ++ map (λ h. (h, (service_stopped, none))) (watchers.waiting n.channel_subscriber)
    pub connectors_told :
        connectors.told m.pending_connect
        ≡ connectors.told n.pending_connect
          ++ map (λ c. (c, service_stopped)) (connectors.elements n.pending_connect)
    pub handshakes_told :
        links.told m.connections.pending_handshake
        ≡ links.told n.connections.pending_handshake
          ++ map (λ c. (c, service_stopped)) (links.elements n.connections.pending_handshake)
    pub channels_told :
        links.told m.connections.pending_close
        ≡ links.told n.connections.pending_close
          ++ map (λ c. (c, service_stopped)) (links.elements n.connections.pending_close)

  -- The collections have not been stopped before.
  pub record IsOpen (n : Node w) : Type 0 where
    pub connect_open : connectors.is_stopped n.pending_connect ≡ false
    pub handshake_open : links.is_stopped n.connections.pending_handshake ≡ false
    pub close_open : links.is_stopped n.connections.pending_close ≡ false

  stop_once :
      {E : Type 0} (p : Pendings E) (s : p.State)
      → p.is_stopped s ≡ false
      → p.told (p.stop service_stopped s)
        ≡ p.told s ++ map (λ e. (e, service_stopped)) (p.elements s)
  stop_once p s e = let x = p.stop_lem service_stopped s in ground (arith, x)

  stop-IsTold : (b : Opening) (n : Node w) → IsOpen n → IsTold n (stop w b n).0
  unfolding stop
  stop-IsTold b n v = record {
    waiters_told = (told_off_lem stops service_stopped n.stop_subscriber).0;
    watchers_told = (told_off_lem watchers (service_stopped, none) n.channel_subscriber).0;
    connectors_told = stop_once connectors n.pending_connect v.connect_open;
    handshakes_told = stop_once links n.connections.pending_handshake v.handshake_open;
    channels_told = stop_once links n.connections.pending_close v.close_open;
  }

  IsTold-SameTold : (n m k : Node w) → SameTold m k → IsTold n m → IsTold n k
  IsTold-SameTold n m k s v = record {
    waiters_told = s.stop_calls ∙ v.waiters_told;
    watchers_told = s.channel_calls ∙ v.watchers_told;
    connectors_told = s.connectors_told ∙ v.connectors_told;
    handshakes_told = s.handshakes_told ∙ v.handshakes_told;
    channels_told = s.channels_told ∙ v.channels_told;
  }

  stop_all-IsTold :
      (bs : List Opening) (n m : Node w)
      → IsDown m
      → IsTold n m
      → IsDown (stop_all bs m) × IsTold n (stop_all bs m)
  unfolding stop_all
  stop_all-IsTold [] n m d v = (d, v)
  stop_all-IsTold (b ∷ bs) n m d v =
      stop_all-IsTold bs n _ (stop-IsDown b m) (IsTold-SameTold n m _ (stop-SameTold b m d) v)

  -- However often a node is stopped: each handler that waited for its stop, each subscriber to its
  -- connections, each connector and channel that was pending or open is told so once; the node stays
  -- stopped, with no manual session, no threads and nobody left to tell.
  pub stop_all_once :
      (b : Opening) (bs : List Opening) (n : Node w)
      → IsOpen n
      → IsDown (stop_all (b ∷ bs) n) × IsTold n (stop_all (b ∷ bs) n)
  unfolding stop_all
  stop_all_once b bs n v = stop_all-IsTold bs n _ (stop-IsDown b n) (stop-IsTold b n v)
