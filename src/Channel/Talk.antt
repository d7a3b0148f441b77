-- ===== src/Channel/Talk.antt =====
-- The start of a channel and its two timers: src/channel.cpp, over `Proxy`.
use bitprim_network.Base.{ℕ, Bool, some, if◌then◌else◌}
use bitprim_network.Code.{Code, success, channel_timeout}
use bitprim_network.Library.{Subscribers}
use bitprim_network.Messages.{Notice}
use bitprim_network.Channel.{Channel, stopped_by, start_expiration, start_inactivity}
use bitprim_network.Channel.Proxy

module _ {Message Handler Waiter : Type 0} (sub : Subscribers Handler (Notice Message))
    (stops : Subscribers Waiter Code) where
  -- `channel::do_start`. Whatever the code, the handler is told of success.
  unfoldable pub do_start :
      (Code → Channel sub stops → Channel sub stops) → Code → Channel sub stops → Channel sub stops
  do_start handler ec c =
      handler success (start_inactivity sub stops (start_expiration sub stops c))

  -- `channel::start`
  unfoldable pub start :
      (Code → Channel sub stops → Channel sub stops) → Channel sub stops → Channel sub stops
  start handler c = Proxy.start sub stops (do_start handler) c

  -- `channel::handle_expiration`
  unfoldable pub handle_expiration : Code → Channel sub stops → Channel sub stops
  unfolding stopped_by
  handle_expiration ec c =
      if stopped_by sub stops ec c then c else Proxy.stop sub stops channel_timeout c

  -- `channel::handle_inactivity`
  unfoldable pub handle_inactivity : Code → Channel sub stops → Channel sub stops
  unfolding stopped_by
  handle_inactivity ec c =
      if stopped_by sub stops ec c then c else Proxy.stop sub stops channel_timeout c

  -- `channel::set_notify`
  pub set_notify : Bool → Channel sub stops → Channel sub stops
  set_notify value c = record c { notify = value }

  -- `channel::set_nonce`
  pub set_nonce : ℕ → Channel sub stops → Channel sub stops
  set_nonce value c = record c { nonce = value }

  -- `channel::set_peer_version`
  pub set_peer_version : Message → Channel sub stops → Channel sub stops
  set_peer_version value c = record c { peer_version = some value }
