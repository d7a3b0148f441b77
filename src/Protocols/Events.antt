-- ===== src/Protocols/Events.antt =====
-- A protocol with an event handler: src/protocols/protocol_events.cpp.
use bitprim_network.Base.{Bool, true, false, not, ◌||◌, if◌then◌else◌}
use bitprim_network.Code.{Code, channel_stopped, is_stop_code}
use bitprim_network.Protocols.{Protocol, emit, subscribes_stop}

module _ {Address Own : Type 0} where
  -- `protocol_events::stopped()`
  unfoldable pub stopped : Protocol Address Own → Bool
  stopped p = not p.handler

  -- `protocol_events::stopped(const code&)`
  unfoldable pub stopped_by : Code → Protocol Address Own → Bool
  unfolding stopped
  stopped_by ec p = stopped p || is_stop_code ec

-- The event handler is what the derived class passes to `start`.
module _ {Address Own : Type 0}
    (on_event : Code → Protocol Address Own → Protocol Address Own) where
  -- `protocol_events::set_event`
  unfoldable pub set_event : Code → Protocol Address Own → Protocol Address Own
  unfolding stopped_by
  set_event ec p =
      if not p.handler
      then p
      else on_event ec (if stopped_by ec p then record p { handler = false } else p)

  -- `protocol_events::start(event_handler)`
  unfoldable pub start : Protocol Address Own → Protocol Address Own
  start p = emit subscribes_stop (record p { handler = true })

  -- `protocol_events::handle_stopped`
  unfoldable pub handle_stopped : Code → Protocol Address Own → Protocol Address Own
  unfolding set_event
  handle_stopped ec p = set_event channel_stopped p
