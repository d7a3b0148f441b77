-- ===== src/Protocols.antt =====
-- The protocols that run on a channel: src/protocols and include/bitcoin/network/protocols.
--
-- A protocol is an object that reacts to the messages, the timer and the stop of its channel. The model
-- keeps of the base classes whether an event handler is stored and whether the timer waits, of the
-- derived class its own fields, and lists what the protocol asked of its channel and of the network,
-- the latest first. A subscription to a type of message is a field of the derived class: it ends with
-- the first message, unless the handler asks to be subscribed again.
pub mod Library
pub mod Counter
pub mod Events
pub mod Timer
pub mod Version
pub mod Handshake
pub mod Ping
pub mod Seed
pub mod Address
pub mod Reject
mod Examples
use bitprim_network.Base.{ℕ, Bool, true, false, List, [], ◌∷◌}
use bitprim_network.Code.{Code}

-- The fields of `message::version` that the code sets or reads, but for the time and the user agent.
pub record VersionMessage (Address : Type 0) : Type 0 where
  pub value : ℕ
  pub services : ℕ
  pub receiver : Address
  pub receiver_services : ℕ
  pub sender : Address
  pub sender_services : ℕ
  pub nonce : ℕ
  pub start_height : ℕ
  pub relay : Bool

-- `reject::reason_code`, as far as the code tells the reasons apart.
pub data ReasonCode : Type 0 where
  obsolete duplicate : ReasonCode
  reason : ℕ → ReasonCode

-- The reasons that the code gives in its rejections.
pub data Reason : Type 0 where
  insufficient_version insufficient_services : Reason

-- A message that a protocol sends.
pub data Outgoing (Address : Type 0) : Type 0 where
  version_message : VersionMessage Address → Outgoing Address
  verack_message : Outgoing Address
  reject_message : ReasonCode → Reason → Outgoing Address
  plain_ping : Outgoing Address
  ping_message : ℕ → Outgoing Address
  pong_message : ℕ → Outgoing Address
  address_message : List Address → Outgoing Address
  get_address_message : Outgoing Address

-- What a protocol asks of its channel, of the network, and of whoever started it.
pub data Output (Address : Type 0) : Type 0 where
  sends : Outgoing Address → Output Address
  subscribes_stop : Output Address
  stops : Code → Output Address
  sets_negotiated_version : ℕ → Output Address
  sets_peer_version : VersionMessage Address → Output Address
  stores : List Address → Output Address
  completes : Code → Output Address

-- The fields of `protocol_events` and `protocol_timer`, and those of the derived class.
pub record Protocol (Address : Type 0) (Own : Type 0) : Type 0 where
  pub handler : Bool
  pub timer : Bool
  pub outputs : List (Output Address)
  pub own : Own

-- `protocol::protocol`, as each derived class constructs it.
abbrev pub construct : {Address Own : Type 0} → Own → Protocol Address Own
construct own = record { handler = false; timer = false; outputs = []; own = own }

abbrev pub emit :
    {Address Own : Type 0} → Output Address → Protocol Address Own → Protocol Address Own
emit o p = record p { outputs = o ∷ p.outputs }

-- `SEND1` and `SEND2`
abbrev pub send :
    {Address Own : Type 0} → Outgoing Address → Protocol Address Own → Protocol Address Own
send m p = emit (sends m) p

-- `protocol::stop(const code&)`, which stops the channel.
abbrev pub stop : {Address Own : Type 0} → Code → Protocol Address Own → Protocol Address Own
stop ec p = emit (stops ec) p
