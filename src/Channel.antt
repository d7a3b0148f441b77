-- ===== src/Channel.antt =====
-- A channel: src/channel.cpp and include/bitcoin/network/channel.hpp, over its base class, src/proxy.cpp
-- (the module `Proxy`).
--
-- One record holds the fields of both classes. The socket, the timers and the subscribers are
-- libbitcoin's: of the socket the model keeps whether it was told to stop and which reads wait on it, of
-- a timer whether it waits. Handlers that the code calls on the spot are functions on the channel.
pub mod Proxy
pub mod Talk
pub mod Events
pub mod Library
pub mod Sending
pub mod Sequencer
pub mod Stopping
pub mod Soundness
pub mod Reading
pub mod Notices
mod Examples
use bitprim_network.Base.{
  ℕ, Bool, true, false, List, [], ◌∷◌, Option, none, some, ◌||◌, if◌then◌else◌,
}
use bitprim_network.Code.{Code, is_stop_code}
use bitprim_network.Library.{Subscribers}
use bitprim_network.Messages
use bitprim_network.Messages.Kind.{MessageType}
use bitprim_network.Messages.{Notice, MessageSubscriber}

-- What the proxy reads off a `message::heading`, the header of a message on the wire.
pub record Heading : Type 0 where
  pub valid : Bool
  pub magic : ℕ
  pub type : MessageType
  pub payload_size : ℕ
  pub checksum : ℕ

-- A read that the socket has not finished.
pub data Read : Type 0 where
  heading_read : Read
  payload_read : Heading → Read

-- What the constructors take of `network::settings`, and what `heading::maximum_payload_size` says of
-- it: with and without the witness.
pub record Limits : Type 0 where
  pub identifier : ℕ
  pub protocol_maximum : ℕ
  pub validate_checksum : Bool
  pub verbose : Bool
  pub plain_payload : ℕ
  pub maximum_payload : ℕ

module _ {Message Handler Waiter : Type 0} (sub : Subscribers Handler (Notice Message))
    (stops : Subscribers Waiter Code) where
  pub record Channel : Type 0 where
    pub stopped : Bool
    pub version : ℕ
    pub protocol_magic : ℕ
    pub maximum_payload : ℕ
    pub validate_checksum : Bool
    pub verbose : Bool
    pub messages : MessageSubscriber sub
    pub stop_subscriber : stops.State
    pub payload_size : ℕ
    pub reads : List Read
    pub socket_stopped : Bool
    pub notify : Bool
    pub nonce : ℕ
    pub peer_version : Option Message
    pub expiration : Bool
    pub inactivity : Bool

  -- `proxy::proxy` and `channel::channel`
  unfoldable pub construct : Limits → Channel
  construct l = record {
    stopped = true;
    version = l.protocol_maximum;
    protocol_magic = l.identifier;
    maximum_payload = l.maximum_payload;
    validate_checksum = l.validate_checksum;
    verbose = l.verbose;
    messages = Messages.construct sub;
    stop_subscriber = stops.create;
    payload_size = l.plain_payload;
    reads = [];
    socket_stopped = false;
    notify = false;
    nonce = 0;
    peer_version = none;
    expiration = false;
    inactivity = false;
  }

  -- `channel::stopped(const code&)`
  unfoldable pub stopped_by : Code → Channel → Bool
  stopped_by ec c = c.stopped || is_stop_code ec

  -- `channel::handle_stopping`
  unfoldable pub handle_stopping : Channel → Channel
  handle_stopping c = record c { expiration = false; inactivity = false }

  -- `channel::start_expiration`
  unfoldable pub start_expiration : Channel → Channel
  start_expiration c = if c.stopped then c else record c { expiration = true }

  -- `channel::start_inactivity`
  unfoldable pub start_inactivity : Channel → Channel
  start_inactivity c = if c.stopped then c else record c { inactivity = true }

  -- `channel::signal_activity`
  unfoldable pub signal_activity : Channel → Channel
  unfolding start_inactivity
  signal_activity c = start_inactivity c
