-- ===== src/Node.antt =====
-- The node's start, run and stop sequences: src/p2p.cpp and include/bitcoin/network/p2p.hpp.
--
-- What is started on another thread (a session, by its phase) ends later, with a code: until then the
-- handler that waits for it is listed in `waits`. `calls` are the calls of handlers, the latest first.
pub mod Sequence
pub mod Answers
pub mod Shutdown
pub mod Restart
pub mod Broadcast
pub mod Pool
mod Examples
use bitprim_network.Base.{
  ℕ, ◌+◌, ◌*◌, ◌%◌, ◌^◌, Bool, true, false, not, ◌&&◌, Option, none, some, List, [], ◌∷◌, map,
  length, if◌then◌else◌,
}
use bitprim_network.Code.{Code, success, service_stopped, operation_failed, is_error}
use bitprim_network.Library.{Subscribers}
use bitprim_network.Hosts
use bitprim_network.Hosts.{Hosts, returned, thrown, Opening}
use bitprim_network.Hosts.Library.{Addresses, CircularBuffer}
use bitprim_network.Network
use bitprim_network.Network.{Link, Connections}
use bitprim_network.Network.Library.{Pendings}

-- The session that a sequence waits for.
pub data Phase : Type 0 where
  manual_phase seed_phase inbound_phase outbound_phase : Phase

-- A name and a port to connect to.
pub record Endpoint (Name : Type 0) : Type 0 where
  pub host : Name
  pub port : ℕ

-- What the node reads of `network::settings`.
pub record NodeSettings (Name : Type 0) : Type 0 where
  pub host_pool_capacity : ℕ
  pub peers : List (Endpoint Name)
  pub connect_batch_size : ℕ
  pub outbound_connections : ℕ
  pub inbound_connections : ℕ

-- `nominal_connecting`. The product is of two 32-bit numbers.
unfoldable pub nominal_connecting : {Name : Type 0} → NodeSettings Name → ℕ
nominal_connecting settings =
    length settings.peers + (settings.connect_batch_size * settings.outbound_connections) % 2 ^ 32

-- `nominal_connected`
unfoldable pub nominal_connected : {Name : Type 0} → NodeSettings Name → ℕ
nominal_connected settings =
    length settings.peers + settings.outbound_connections + settings.inbound_connections

-- `ec == error::success`
abbrev pub is_success : Code → Bool
is_success ec = not (is_error ec)

-- What the node uses of libbitcoin, and the types of the names and of the handlers that it is given.
pub record Platform : Type 1 where
  pub Waiter : Type 0
  pub Watcher : Type 0
  pub Name : Type 0
  pub Handler : Type 0
  pub a : Addresses
  pub cb : CircularBuffer a.Address
  pub same : a.Authority → a.Authority → Bool
  pub links : Pendings (Link a.Authority)
  pub connectors : Pendings ℕ
  pub stops : Subscribers Waiter Code
  pub watchers : Subscribers Watcher (Code × Option (Link a.Authority))

module _ (w : Platform) where
  open w use {Waiter, Watcher, Name, Handler, a, cb, same, links, connectors, stops, watchers}

  -- `manual` says whether `manual_` holds a session, `connects` what that session was asked to connect
  -- to, with the handler if there is one. `thrown_at` are the handlers whose call of `hosts::start`
  -- threw. `top_block` is a hash and a height. `connector_stops` are the calls of `connector::stop`.
  pub record Node : Type 0 where
    pub stopped : Bool
    pub top_block : ℕ × ℕ
    pub manual : Bool
    pub threads : Bool
    pub hosts : Hosts a cb
    pub connections : Connections same links
    pub pending_connect : connectors.State
    pub stop_subscriber : stops.State
    pub channel_subscriber : watchers.State
    pub waits : List (Phase × Handler)
    pub calls : List (Handler × Code)
    pub thrown_at : List Handler
    pub connects : List (Endpoint Name × Option Handler)
    pub connector_stops : List (ℕ × Code)

  -- `p2p::p2p`
  unfoldable pub construct : NodeSettings Name → Node
  construct settings = record {
    stopped = true;
    top_block = (0, 0);
    manual = false;
    threads = false;
    hosts = Hosts.construct a cb settings.host_pool_capacity;
    connections = record {
      pending_handshake = links.create (nominal_connected settings);
      pending_close = links.create (nominal_connected settings);
      announced = [];
      nonces = λ pointer. 0;
    };
    pending_connect = connectors.create (nominal_connecting settings);
    stop_subscriber = stops.create;
    channel_subscriber = watchers.create;
    waits = [];
    calls = [];
    thrown_at = [];
    connects = [];
    connector_stops = [];
  }

  abbrev pub call : Handler → Code → Node → Node
  call handler ec n = record n { calls = (handler, ec) ∷ n.calls }

  abbrev pub await : Phase → Handler → Node → Node
  await phase handler n = record n { waits = (phase, handler) ∷ n.waits }

  -- `p2p::start`. The manual session is started.
  unfoldable pub start : Handler → Node → Node
  start handler n =
      if not n.stopped
      then call handler operation_failed n
      else await manual_phase handler (record n {
        threads = true;
        stopped = false;
        stop_subscriber = stops.start n.stop_subscriber;
        channel_subscriber = watchers.start n.channel_subscriber;
        manual = true;
      })

  -- `p2p::handle_started`
  unfoldable pub handle_started : Code → Handler → Node → Node
  handle_started ec handler n =
      if n.stopped
      then call handler service_stopped n
      else if is_error ec
      then call handler ec n
      else call handler success n

  -- `p2p::handle_hosts_loaded`. The seed session is started.
  unfoldable pub handle_hosts_loaded : Code → Handler → Node → Node
  handle_hosts_loaded ec handler n =
      if n.stopped
      then call handler service_stopped n
      else if is_error ec
      then call handler ec n
      else await seed_phase handler n

  -- What becomes of `hosts::start`: its code is handled, or its exception goes through.
  unfoldable pub load_hosts : Hosts.Outcome a cb → Handler → Node → Node
  unfolding handle_hosts_loaded
  load_hosts (returned h ec) handler n = handle_hosts_loaded ec handler (record n { hosts = h })
  load_hosts (thrown h) handler n = record n { hosts = h; thrown_at = handler ∷ n.thrown_at }

  -- `p2p::handle_manual_started`, with the lines of the hosts file, `none` if its stream is bad.
  unfoldable pub handle_manual_started : Option (List a.Line) → Code → Handler → Node → Node
  handle_manual_started file ec handler n =
      if n.stopped
      then call handler service_stopped n
      else if is_error ec
      then call handler ec n
      else load_hosts (Hosts.start a cb file n.hosts) handler n

  -- `p2p::connect(const std::string&, uint16_t)`
  unfoldable pub connect : Endpoint Name → Node → Node
  connect peer n =
      if n.stopped
      then n
      else if n.manual
      then record n { connects = (peer, none) ∷ n.connects }
      else n

  -- `p2p::connect(const std::string&, uint16_t, channel_handler)`
  unfoldable pub connect_with : Endpoint Name → Handler → Node → Node
  connect_with peer handler n =
      if n.stopped
      then call handler service_stopped n
      else if n.manual
      then record n { connects = (peer, some handler) ∷ n.connects }
      else n

  -- The loop of `p2p::run`.
  unfoldable pub connect_all : List (Endpoint Name) → Node → Node
  connect_all [] n = n
  connect_all (peer ∷ peers) n = connect_all peers (connect peer n)

  -- `p2p::run`. The inbound session is started.
  unfoldable pub run : NodeSettings Name → Handler → Node → Node
  run settings handler n = await inbound_phase handler (connect_all settings.peers n)

  -- `p2p::handle_inbound_started`. The outbound session is started.
  unfoldable pub handle_inbound_started : Code → Handler → Node → Node
  handle_inbound_started ec handler n =
      if is_error ec then call handler ec n else await outbound_phase handler n

  -- `p2p::handle_running`
  unfoldable pub handle_running : Code → Handler → Node → Node
  handle_running ec handler n = if is_error ec then call handler ec n else call handler success n

  -- `p2p::stop`, by what opening the hosts file comes to, with what it returns and what the file gets.
  unfoldable pub stop : Opening → Node → Node × Bool × Option (List a.Line)
  stop opening n =
      let (hosts, ec, lines) = Hosts.stop a cb opening n.hosts in
      (
        record n {
          hosts = hosts;
          stopped = true;
          manual = false;
          stop_subscriber = stops.invoke service_stopped (stops.stop n.stop_subscriber);
          channel_subscriber =
              watchers.invoke (service_stopped, none) (watchers.stop n.channel_subscriber);
          pending_connect = connectors.stop service_stopped n.pending_connect;
          connections = record n.connections {
            pending_handshake = links.stop service_stopped n.connections.pending_handshake;
            pending_close = links.stop service_stopped n.connections.pending_close;
          };
          threads = false;
        },
        is_success ec,
        lines,
      )

  -- `p2p::close`, which then waits for the threads.
  unfoldable pub close : Opening → Node → Node × Bool × Option (List a.Line)
  unfolding stop
  close opening n = stop opening n

  -- `p2p::subscribe_connection`
  unfoldable pub subscribe_connection : Watcher → Node → Node
  subscribe_connection handler n = record n {
    channel_subscriber = watchers.subscribe handler (service_stopped, none) n.channel_subscriber;
  }

  -- `p2p::subscribe_stop`
  unfoldable pub subscribe_stop : Waiter → Node → Node
  subscribe_stop handler n = record n {
    stop_subscriber = stops.subscribe handler service_stopped n.stop_subscriber;
  }

  -- `p2p::set_top_block`
  unfoldable pub set_top_block : ℕ × ℕ → Node → Node
  set_top_block top n = record n { top_block = top }

  -- `p2p::pend(connector::ptr)`
  unfoldable pub pend : ℕ → Node → Node × Code
  pend connector n =
      let (next, ec) = connectors.store connector n.pending_connect in
      (record n { pending_connect = next }, ec)

  -- `p2p::unpend(connector::ptr)`
  unfoldable pub unpend : ℕ → Node → Node
  unpend connector n = record n {
    connector_stops = (connector, success) ∷ n.connector_stops;
    pending_connect = connectors.remove connector n.pending_connect;
  }

  -- `p2p::store(channel::ptr)`, whose channel is relayed to the subscribers.
  unfoldable pub store : Link a.Authority → Node → Node × Code
  store channel n =
      let (connections, ec) = Network.store same links channel n.connections in
      let stored = record n { connections = connections } in
      if is_success ec && channel.notify
      then (
        record stored {
          channel_subscriber = watchers.relay (success, some channel) n.channel_subscriber;
        },
        ec,
      )
      else (stored, ec)
