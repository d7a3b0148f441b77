-- ===== src/Channel/Events.antt =====
-- What can happen to a channel once it is constructed: the calls that its protocols make, the reads and
-- writes that end, the timers that fire, in any order. Of src/proxy.cpp and src/channel.cpp.
use bitprim_network.Base.{ℕ, List, [], ◌∷◌}
use bitprim_network.Code.{Code}
use bitprim_network.Library.{Subscribers}
use bitprim_network.Messages
use bitprim_network.Messages.Kind.{MessageType}
use bitprim_network.Messages.{Notice}
use bitprim_network.Channel.{Channel, Read, heading_read, payload_read, Heading}
use bitprim_network.Channel.Proxy.{
  Wire, BoostCode, stop, subscribe_stop, set_negotiated_version, handle_read_heading,
  handle_read_payload, handle_send,
}
use bitprim_network.Channel.Talk.{handle_expiration, handle_inactivity, start}

-- A call that a protocol or a session makes on the channel. The end of a send calls the sender's
-- handler, whose own calls are further actions.
pub data Action (Handler : Type 0) (Waiter : Type 0) : Type 0 where
  stops_with : Code → Action Handler Waiter
  subscribes : MessageType → Handler → Action Handler Waiter
  subscribes_stop : Waiter → Action Handler Waiter
  sets_version : ℕ → Action Handler Waiter

-- What the socket and the timers bring. A read that ends is the one that waits.
pub data Event (Handler : Type 0) (Waiter : Type 0) : Type 0 where
  acts : Action Handler Waiter → Event Handler Waiter
  heading_ends : BoostCode → Heading → Event Handler Waiter
  payload_ends : BoostCode → List ℕ → List (Action Handler Waiter) → Event Handler Waiter
  send_ends : BoostCode → Event Handler Waiter
  expires : Code → Event Handler Waiter
  idles : Code → Event Handler Waiter

module _ {Message Handler Waiter : Type 0} (sub : Subscribers Handler (Notice Message))
    (stops : Subscribers Waiter Code) where
  unfoldable pub act : Action Handler Waiter → Channel sub stops → Channel sub stops
  act (stops_with ec) c = stop sub stops ec c
  act (subscribes t h) c = record c { messages = Messages.subscribe sub t h c.messages }
  act (subscribes_stop w) c = subscribe_stop sub stops w c
  act (sets_version v) c = set_negotiated_version sub stops v c

  unfoldable pub perform : List (Action Handler Waiter) → Channel sub stops → Channel sub stops
  perform [] c = c
  perform (x ∷ xs) c = perform xs (act x c)

  -- The channel after `channel::start`, whose handler made these calls.
  unfoldable pub started : List (Action Handler Waiter) → Channel sub stops → Channel sub stops
  started actions c = start sub stops (λ ec. perform actions) c

  module _ (wire : Wire Message) where
    unfoldable pub on_heading :
        BoostCode → Heading → List Read → Channel sub stops → Channel sub stops
    on_heading ec head (heading_read ∷ rest) c =
        handle_read_heading sub stops wire ec head (record c { reads = rest })
    on_heading ec head _ c = c

    unfoldable pub on_payload :
        BoostCode
        → List ℕ
        → List (Action Handler Waiter)
        → List Read
        → Channel sub stops
        → Channel sub stops
    on_payload ec payload actions (payload_read head ∷ rest) c =
        handle_read_payload sub stops wire (perform actions) ec head payload
          (record c { reads = rest })
    on_payload ec payload actions _ c = c

    unfoldable pub step : Event Handler Waiter → Channel sub stops → Channel sub stops
    unfolding on_heading on_payload
    step (acts x) c = act x c
    step (heading_ends ec head) c = on_heading ec head c.reads c
    step (payload_ends ec payload actions) c = on_payload ec payload actions c.reads c
    step (send_ends ec) c = (handle_send sub stops wire ec c).0
    step (expires ec) c = handle_expiration sub stops ec c
    step (idles ec) c = handle_inactivity sub stops ec c

    unfoldable pub run : List (Event Handler Waiter) → Channel sub stops → Channel sub stops
    run [] c = c
    run (e ∷ es) c = run es (step e c)
