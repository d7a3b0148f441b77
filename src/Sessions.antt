-- ===== src/Sessions.antt =====
-- The base class of the sessions: src/sessions/session.cpp and include/bitcoin/network/sessions/session.hpp.
--
-- A session is seen by its own fields, the connections of the node, which it shares, what it asks of
-- others (`deeds`, the latest first), and what it waits for (`waits`): each wait ends with one call of
-- the handler that it holds. Handlers that the code calls on the spot are functions on the session.
pub mod Registration
pub mod Manual
pub mod Outbound
pub mod Inbound
pub mod Library
pub mod Batch
pub mod Seed
pub mod Counter
pub mod Loopback
mod Examples
use bitprim_network.Base.{
  ℕ, Bool, true, false, Option, none, some, List, [], ◌∷◌, ◌||◌, ◌==◌, any, leb, not, if◌then◌else◌,
}
use bitprim_network.Code.{
  Code, success, service_stopped, operation_failed, is_error, is_service_stopped,
  is_channel_timeout,
}
use bitprim_network.Network
use bitprim_network.Network.{Link, Connections}
use bitprim_network.Network.Library.{Pendings}
use bitprim_network.Protocols.Version.{Level, from_31402, from_70002}

-- What a version protocol is made with: the arguments of the constructors of `protocol_version_31402`,
-- and of `protocol_version_70002`, which alone takes `relay`.
pub record HandshakeOptions : Type 0 where
  pub level : Level
  pub own_version : ℕ
  pub own_services : ℕ
  pub invalid_services : ℕ
  pub minimum_version : ℕ
  pub minimum_services : ℕ
  pub relay : Option Bool

-- What a session asks of a channel, of libbitcoin's dispatcher, and of whoever started it.
pub data Deed : Type 0 where
  subscribes_stop : Deed
  listens : ℕ → Deed
  stops_acceptor : Code → Deed
  starts_channel : ℕ → Bool → ℕ → Deed
  attaches_handshake : ℕ → HandshakeOptions → Deed
  attaches_ping_31402 attaches_ping_60001 attaches_reject attaches_address attaches_seed : ℕ → Deed
  stops_channel : ℕ → Code → Deed
  delays : ℕ → Deed
  calls_started : Code → Deed
  calls_stopped : Code → Deed
  calls_handler : Code → Deed

-- What a session waits for: a thread that goes on with its start, the connections of a batch, the end of
-- a delay, the next channel to accept, the handshake or the stop of a channel.
pub data Wait (Address : Type 0) : Type 0 where
  starting : Code → Wait Address
  batch retry accept : Wait Address
  handshake : Link Address → Wait Address
  channel_stop : Link Address → Wait Address

-- What the sessions read of `network::settings`, and libbitcoin's version levels.
pub record SessionSettings (Address : Type 0) : Type 0 where
  pub host_pool_capacity : ℕ
  pub inbound_port : ℕ
  pub inbound_connections : ℕ
  pub outbound_connections : ℕ
  pub peers : ℕ
  pub seeds : ℕ
  pub connect_batch_size : ℕ
  pub connect_timeout_seconds : ℕ
  pub protocol_maximum : ℕ
  pub protocol_minimum : ℕ
  pub services : ℕ
  pub invalid_services : ℕ
  pub relay_transactions : Bool
  pub blacklists : List Address
  pub bip31 : ℕ
  pub bip61 : ℕ

-- `session::cycle_delay`, in seconds, of `settings::connect_timeout`.
unfoldable pub cycle_delay : ℕ → Code → ℕ
cycle_delay connect_timeout ec =
    if is_channel_timeout ec || is_service_stopped ec || not (is_error ec)
    then 0
    else connect_timeout

-- `session::blacklisted`
unfoldable pub blacklisted : {Address : Type 0} → (Address → ℕ) → List Address → Address → Bool
blacklisted ip blacklists authority = any (λ blocked. ip authority == ip blocked) blacklists

-- The version protocol that a channel gets, by its negotiated version.
unfoldable pub handshake_options :
    {Address : Type 0} → SessionSettings Address → ℕ → ℕ → Bool → ℕ → HandshakeOptions
handshake_options settings own_services minimum_services relay negotiated_version =
    let own : HandshakeOptions = record {
      level = from_31402;
      own_version = settings.protocol_maximum;
      own_services = own_services;
      invalid_services = settings.invalid_services;
      minimum_version = settings.protocol_minimum;
      minimum_services = minimum_services;
      relay = none;
    } in
    if leb settings.bip61 negotiated_version
    then record own { level = from_70002; relay = some relay }
    else own

module _ {Address : Type 0} (same : Address → Address → Bool)
    (links : Pendings (Link Address)) where
  pub record Session : Type 0 where
    pub stopped : Bool
    pub notify_on_connect : Bool
    pub network : Connections same links
    pub deeds : List Deed
    pub waits : List (Wait Address)

  abbrev pub does : Deed → Session → Session
  does d s = record s { deeds = d ∷ s.deeds }

  abbrev pub awaits : Wait Address → Session → Session
  awaits w s = record s { waits = w ∷ s.waits }

  -- `session::stopped(const code&)`
  unfoldable pub stopped_by : Code → Session → Bool
  stopped_by ec s = s.stopped || is_service_stopped ec

  -- `session::start`, with what the handler does on the code that it gets.
  unfoldable pub start : (Code → Session → Session) → Session → Session
  start handler s =
      if not s.stopped
      then handler operation_failed s
      else handler success (does subscribes_stop (record s { stopped = false }))

  -- `session::handle_stop`
  unfoldable pub handle_stop : Code → Session → Session
  handle_stop ec s = record s { stopped = true }

  -- `session::handle_start`, with the two handlers of the registration.
  unfoldable pub handle_start :
      (Code → Session → Session)
      → (Code → Session → Session)
      → Link Address
      → Code
      → Session
      → Session
  handle_start handle_started handle_stopped channel ec s = handle_started ec (
      if is_error ec
      then handle_stopped ec (does (stops_channel channel.pointer ec) s)
      else awaits (channel_stop channel) s)

  -- `session::attach_handshake_protocols`
  unfoldable pub attach_handshake_protocols :
      SessionSettings Address → Link Address → ℕ → Session → Session
  unfolding handshake_options
  attach_handshake_protocols settings channel negotiated_version s =
      does
        (attaches_handshake channel.pointer (
          handshake_options settings settings.services 0 settings.relay_transactions
            negotiated_version))
        (awaits (handshake channel) s)

  -- `session::handle_starting`, the handler of the start of the channel, over the virtual
  -- `attach_handshake_protocols`.
  unfoldable pub handle_starting :
      (Session → Session) → (Code → Session → Session) → Code → Session → Session
  handle_starting attach handle_started ec s = if is_error ec then handle_started ec s else attach s

  -- `session::start_channel`, with the random nonce. The channel starts on the spot, with the handler
  -- that is called on its code.
  unfoldable pub start_channel :
      (Code → Session → Session) → Code → ℕ → Link Address → Session → Session
  start_channel handler started nonce channel s = handler started (
      does (starts_channel channel.pointer s.notify_on_connect nonce)
        (record s { network = Network.set_nonce same links channel.pointer nonce s.network }))

  -- `session::register_channel`, over the virtual `start_channel`.
  unfoldable pub register_channel :
      (Session → Session)
      → (Code → Session → Session)
      → (Code → Session → Session)
      → Session
      → Session
  register_channel start_it handle_started handle_stopped s =
      if s.stopped
      then handle_stopped service_stopped (handle_started service_stopped s)
      else start_it s

  -- `session::handshake_complete`
  unfoldable pub handshake_complete : (Code → Session → Session) → Link Address → Session → Session
  handshake_complete handle_started channel s =
      let (next, ec) = Network.store same links channel s.network in
      handle_started ec (record s { network = next })

  -- `session::handle_handshake`, over the virtual `handshake_complete`.
  unfoldable pub handle_handshake :
      (Session → Session) → (Code → Session → Session) → Code → Session → Session
  handle_handshake complete handle_started ec s =
      if is_error ec then handle_started ec s else complete s

  -- `session::handle_remove`
  unfoldable pub handle_remove :
      (Code → Session → Session) → Link Address → Code → Session → Session
  handle_remove handle_stopped channel ec s =
      handle_stopped success (record s { network = Network.remove same links channel s.network })

  -- `attach_protocols`, which the inbound, outbound and manual sessions spell alike.
  unfoldable pub attach_protocols : SessionSettings Address → Link Address → ℕ → Session → Session
  attach_protocols settings channel version s =
      let pinged =
        does
          (if leb settings.bip31 version
            then attaches_ping_60001 channel.pointer
            else attaches_ping_31402 channel.pointer)
          s in
      let reported =
        if leb settings.bip61 version
        then does (attaches_reject channel.pointer) pinged
        else pinged in
      does (attaches_address channel.pointer) reported
