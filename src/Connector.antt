-- ===== src/Connector.antt =====
-- A connector: src/connector.cpp. It resolves a name, and then lets a timer race the connection.
pub mod Race
mod Examples
use bitprim_network.Base.{
  ℕ, Bool, true, false, not, List, [], ◌∷◌, Option, none, some, ◌==◌, if◌then◌else◌,
}
use bitprim_network.Code.{Code, success, service_stopped, resolve_failed, channel_timeout, is_error}
use bitprim_network.Channel.Proxy.{BoostCode}
use bitprim_network.Protocols.Library.{Synchronizers}

-- The fields, what waits (the resolver, the timer, the socket), the join handler's synchronizer, and
-- the calls of the handler of `connect`, the latest first: the code, and whether a channel comes with it.
pub record Connector (join : Synchronizers) : Type 0 where
  pub stopped : Bool
  pub resolving : Bool
  pub timer : Bool
  pub connecting : Bool
  pub joined : join.State
  pub calls : List (Code × Bool)

module _ (join : Synchronizers) (boost_to_error_code : BoostCode → Code) where
  -- `connector::connector`
  unfoldable pub construct : Connector join
  construct = record {
    stopped = false;
    resolving = false;
    timer = false;
    connecting = false;
    joined = join.synchronize 0;
    calls = [];
  }

  -- `connector::stop`. The resolver calls its handler later, cancelled.
  unfoldable pub stop : Connector join → Connector join
  stop c = if not c.stopped then record c { timer = false; stopped = true } else c

  -- `connector::connect`
  unfoldable pub connect : Connector join → Connector join
  connect c =
      if c.stopped
      then record c { calls = (service_stopped, false) ∷ c.calls }
      else record c { resolving = true }

  -- `connector::handle_resolve`
  unfoldable pub handle_resolve : BoostCode → Connector join → Connector join
  handle_resolve ec c =
      if c.stopped
      then record c { calls = (service_stopped, false) ∷ c.calls }
      else if not (ec == 0)
      then record c { calls = (resolve_failed, false) ∷ c.calls }
      else record c { joined = join.synchronize 1; timer = true; connecting = true }

  -- The join handler.
  unfoldable pub join_handler : Code → Bool → Connector join → Connector join
  join_handler ec with_channel c =
      let (next, called) = join.call ec c.joined in
      elim called [
        | none ↦ record c { joined = next }
        | some result ↦ record c { joined = next; calls = (result, with_channel) ∷ c.calls }
      ]

  -- `connector::handle_connect`
  unfoldable pub handle_connect : BoostCode → Connector join → Connector join
  unfolding join_handler
  handle_connect ec c =
      if not (ec == 0)
      then join_handler (boost_to_error_code ec) false c
      else join_handler success true c

  -- `connector::handle_timer`
  unfoldable pub handle_timer : Code → Connector join → Connector join
  unfolding join_handler
  handle_timer ec c = join_handler (if is_error ec then ec else channel_timeout) false c
