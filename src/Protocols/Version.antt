-- ===== src/Protocols/Version.antt =====
-- The handshake: src/protocols/protocol_version_31402.cpp and protocol_version_70002.cpp.
use bitprim_network.Base.{ℕ, Bool, true, false, not, none, some, ltb, ◌==◌, min, if◌then◌else◌}
use Prim.Native.Nat.{bit_and}
use bitprim_network.Code.{Code, success, channel_stopped, is_error}
use bitprim_network.Protocols.{
  Protocol, VersionMessage, version_message, verack_message, reject_message, ReasonCode, obsolete,
  duplicate, insufficient_version, insufficient_services, sets_negotiated_version,
  sets_peer_version, completes, emit, send,
}
use bitprim_network.Protocols.Library.{Synchronizers}
use bitprim_network.Protocols.Timer

-- What the constructors take, the fields of `network::settings` that are checked, what the version
-- message says of the node, and libbitcoin's bounds `version::level`.
pub record Terms (Address : Type 0) : Type 0 where
  pub own_version : ℕ
  pub own_services : ℕ
  pub invalid_services : ℕ
  pub minimum_version : ℕ
  pub minimum_services : ℕ
  pub relay : Bool
  pub protocol_minimum : ℕ
  pub protocol_maximum : ℕ
  pub level_minimum : ℕ
  pub level_maximum : ℕ
  pub authority : Address
  pub self : Address
  pub nonce : ℕ
  pub height : ℕ

-- The class: 70002 derives from 31402.
pub data Level : Type 0 where
  from_31402 from_70002 : Level

-- The own state of a handshake: its synchronizer, and which messages it is subscribed to.
pub record Handshake (join : Synchronizers) : Type 0 where
  pub joined : join.State
  pub awaits_version : Bool
  pub awaits_verack : Bool
  pub awaits_reject : Bool

module _ {Address : Type 0} (join : Synchronizers) (t : Terms Address) where
  -- The join handler, whose own handler is the one that `start` is given.
  unfoldable pub join_handler :
      Code → Protocol Address (Handshake join) → Protocol Address (Handshake join)
  join_handler ec p =
      let (next, called) = join.call ec p.own.joined in
      let q = record p { own = record p.own { joined = next } } in
      elim called [ none ↦ q | some result ↦ emit (completes result) q ]

  abbrev pub set_event :
      Code → Protocol Address (Handshake join) → Protocol Address (Handshake join)
  set_event = Timer.set_event false join_handler

  -- `protocol_version_31402::version_factory` and `protocol_version_70002::version_factory`
  unfoldable pub version_factory : Level → VersionMessage Address
  version_factory level = record {
    value = t.own_version;
    services = t.own_services;
    receiver = t.authority;
    receiver_services = 0;
    sender = t.self;
    sender_services = t.own_services;
    nonce = t.nonce;
    start_height = t.height;
    relay = elim level [ from_31402 ↦ false | from_70002 ↦ t.relay ];
  }

  -- `protocol_version_31402::sufficient_peer`
  unfoldable pub sufficient_peer : VersionMessage Address → Bool
  sufficient_peer message =
      if not (bit_and message.services t.invalid_services == 0)
      then false
      else if not (bit_and message.services t.minimum_services == t.minimum_services)
      then false
      else if ltb message.value t.minimum_version
      then false
      else true

  -- The rejection that `protocol_version_70002::sufficient_peer` sends.
  unfoldable pub reject_peer :
      VersionMessage Address → Protocol Address (Handshake join) → Protocol Address (Handshake join)
  reject_peer message p =
      if ltb message.value t.minimum_version
      then send (reject_message obsolete insufficient_version) p
      else if not (bit_and message.services t.minimum_services == t.minimum_services)
      then send (reject_message obsolete insufficient_services) p
      else p

  -- `protocol_version_70002::sufficient_peer`, or that of the base class.
  unfoldable pub check_peer :
      Level
      → VersionMessage Address
      → Protocol Address (Handshake join)
      → Protocol Address (Handshake join) × Bool
  check_peer from_31402 message p = (p, sufficient_peer message)
  check_peer from_70002 message p = (reject_peer message p, sufficient_peer message)

  -- `protocol_version_31402::start` and `protocol_version_70002::start`
  unfoldable pub start :
      Level → Protocol Address (Handshake join) → Protocol Address (Handshake join)
  start level p =
      let joining = record p { own = record p.own { joined = join.synchronize 2 } } in
      let timed = Timer.start false join_handler joining in
      send (version_message (version_factory level)) (record timed {
        own = record timed.own {
          awaits_version = true;
          awaits_verack = true;
          awaits_reject = elim level [ from_31402 ↦ false | from_70002 ↦ true ];
        };
      })

  -- The end of `handle_receive_version`, on a version that is accepted.
  unfoldable pub accept_version :
      VersionMessage Address → Protocol Address (Handshake join) → Protocol Address (Handshake join)
  accept_version message p = set_event success (
      send verack_message (
        emit (sets_peer_version message)
          (emit (sets_negotiated_version (min message.value t.own_version)) p)))

  -- `protocol_version_31402::handle_receive_version`. It never asks to be subscribed again.
  unfoldable pub handle_receive_version :
      Level
      → Code
      → VersionMessage Address
      → Protocol Address (Handshake join)
      → Protocol Address (Handshake join)
  handle_receive_version level ec message p =
      if Timer.stopped_by false join_handler ec p
      then p
      else if is_error ec
      then set_event ec p
      else if ltb t.protocol_minimum t.level_minimum
      then set_event channel_stopped p
      else if ltb t.level_maximum t.protocol_maximum
      then set_event channel_stopped p
      else if ltb t.protocol_maximum t.protocol_minimum
      then set_event channel_stopped p
      else (let (checked, sufficient) = check_peer level message p in
          if not sufficient
          then set_event channel_stopped checked
          else accept_version message checked)

  -- `protocol_version_31402::handle_receive_verack`
  unfoldable pub handle_receive_verack :
      Code → Protocol Address (Handshake join) → Protocol Address (Handshake join)
  handle_receive_verack ec p =
      if Timer.stopped_by false join_handler ec p
      then p
      else if is_error ec
      then set_event ec p
      else set_event success p

  -- The end of `handle_receive_reject`, by the reason of the rejection of a version message.
  unfoldable pub answer_reject :
      ReasonCode → Protocol Address (Handshake join) → Protocol Address (Handshake join) × Bool
  answer_reject obsolete p = (set_event channel_stopped p, false)
  answer_reject duplicate p = (set_event channel_stopped p, false)
  answer_reject _ p = (p, true)

  -- `protocol_version_70002::handle_receive_reject`, with whether the rejected message is a version
  -- message, and the answer: to subscribe again or not.
  unfoldable pub handle_receive_reject :
      Code
      → Bool
      → ReasonCode
      → Protocol Address (Handshake join)
      → Protocol Address (Handshake join) × Bool
  handle_receive_reject ec of_version why p =
      if Timer.stopped_by false join_handler ec p
      then (p, false)
      else if is_error ec
      then (set_event channel_stopped p, false)
      else if not of_version
      then (p, true)
      else answer_reject why p
