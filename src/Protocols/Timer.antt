-- ===== src/Protocols/Timer.antt =====
-- A protocol with a timer: src/protocols/protocol_timer.cpp.
use bitprim_network.Base.{Bool, true, false, if◌then◌else◌}
use bitprim_network.Code.{Code, channel_timeout, is_channel_stopped}
use bitprim_network.Protocols.{Protocol}
use bitprim_network.Protocols.Events

module _ {Address Own : Type 0} (perpetual : Bool)
    (on_event : Code → Protocol Address Own → Protocol Address Own) where
  -- `protocol_timer::handle_notify`, the event handler of the base class.
  unfoldable pub handle_notify : Code → Protocol Address Own → Protocol Address Own
  handle_notify ec p = on_event ec (if is_channel_stopped ec then record p { timer = false } else p)

  -- `protocol_events::stopped()`
  unfoldable pub stopped : Protocol Address Own → Bool
  stopped p = Events.stopped p

  -- `protocol_events::stopped(const code&)`
  unfoldable pub stopped_by : Code → Protocol Address Own → Bool
  stopped_by ec p = Events.stopped_by ec p

  -- `protocol_events::set_event`, with that handler.
  unfoldable pub set_event : Code → Protocol Address Own → Protocol Address Own
  set_event ec p = Events.set_event handle_notify ec p

  -- `protocol_events::handle_stopped`, with that handler.
  unfoldable pub handle_stopped : Code → Protocol Address Own → Protocol Address Own
  handle_stopped ec p = Events.handle_stopped handle_notify ec p

  -- `protocol_timer::reset_timer`
  unfoldable pub reset_timer : Protocol Address Own → Protocol Address Own
  reset_timer p = if stopped p then p else record p { timer = true }

  -- `protocol_timer::start`
  unfoldable pub start : Protocol Address Own → Protocol Address Own
  start p = reset_timer (Events.start handle_notify (record p { timer = false }))

  -- `protocol_timer::handle_timer`, of a timer that has fired and waits no more.
  unfoldable pub handle_timer : Code → Protocol Address Own → Protocol Address Own
  handle_timer ec p =
      if stopped p
      then p
      else (let q = set_event channel_timeout p in if perpetual then reset_timer q else q)

  -- The timer fires, if it waits.
  unfoldable pub fire : Protocol Address Own → Protocol Address Own
  fire p = if p.timer then handle_timer Code.success (record p { timer = false }) else p
