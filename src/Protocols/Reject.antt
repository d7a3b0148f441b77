-- ===== src/Protocols/Reject.antt =====
-- The rejections of a peer: src/protocols/protocol_reject_70002.cpp.
use bitprim_network.Base.{Bool, true, false, if◌then◌else◌}
use bitprim_network.Code.{Code, channel_stopped, is_error}
use bitprim_network.Protocols.{Protocol, stop}
use bitprim_network.Protocols.Events

-- The only field is the subscription to rejections.
pub record Reject : Type 0 where
  pub awaits_reject : Bool

module _ {Address : Type 0} where
  -- `protocol_reject_70002::start`, whose event handler does nothing.
  unfoldable pub start : Protocol Address Reject → Protocol Address Reject
  start p =
      let begun = Events.start (λ ec q. q) p in
      record begun { own = record { awaits_reject = true } }

  -- `protocol_reject_70002::handle_receive_reject`, but for the log: with whether the rejected message
  -- is a version message, and the answer, to subscribe again or not.
  unfoldable pub handle_receive_reject :
      Code → Bool → Protocol Address Reject → Protocol Address Reject × Bool
  handle_receive_reject ec of_version p =
      if Events.stopped_by ec p
      then (p, false)
      else if is_error ec
      then (stop channel_stopped p, false)
      else if of_version
      then (p, true)
      else (p, true)
