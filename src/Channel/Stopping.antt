-- ===== src/Channel/Stopping.antt =====
-- The stop of a channel: src/proxy.cpp, `stop`, and src/channel.cpp, `handle_stopping`.
use mathlib.Core.List.{append-nil}
use bitprim_network.Base.{◌∙◌, ◌≡◌, refl, true, false, List, [], ◌∷◌, ◌++◌, map, none, some, arith}
use bitprim_network.Code.{Code, channel_stopped}
use bitprim_network.Library.{Subscribers}
use bitprim_network.Messages.Kind.{MessageType}
use bitprim_network.Messages.Lifecycle.{subscriber, broadcast-stop}
use bitprim_network.Messages.{Notice}
use bitprim_network.Channel.{Channel}
use bitprim_network.Channel.Proxy.{stop, subscribe_stop}

module _ {Message Handler Waiter : Type 0} (sub : Subscribers Handler (Notice Message))
    (stops : Subscribers Waiter Code) where
  -- The socket was told to stop, and no timer waits.
  pub record IsQuiet (c : Channel sub stops) : Type 0 where
    pub halted : c.stopped ≡ true
    pub closed : c.socket_stopped ≡ true
    pub no_expiration : c.expiration ≡ false
    pub no_inactivity : c.inactivity ≡ false

  pub stop-IsQuiet : (ec : Code) (c : Channel sub stops) → IsQuiet (stop sub stops ec c)
  unfolding stop
  stop-IsQuiet ec c = record {
    halted = refl;
    closed = refl;
    no_expiration = refl;
    no_inactivity = refl;
  }

  -- Calls of `stop`, one after the other.
  pub stop_all : List Code → Channel sub stops → Channel sub stops
  stop_all [] c = c
  stop_all (ec ∷ ecs) c = stop_all ecs (stop sub stops ec c)

  stop_subscriber-stop :
      (ec : Code) (c : Channel sub stops)
      → let s = (stop sub stops ec c).stop_subscriber in
        (stops.is_stopped s ≡ true)
        × (stops.waiting s ≡ [])
        × (stops.calls s
            ≡ stops.calls c.stop_subscriber ++ map (λ w. (w, ec)) (stops.waiting c.stop_subscriber))
  unfolding stop
  stop_subscriber-stop ec c =
      let s = c.stop_subscriber in
      ground (arith, stops.relay_lem ec (stops.stop s), stops.stop_lem s)

  stop_all-no_calls :
      (ecs : List Code) (c : Channel sub stops)
      → stops.waiting c.stop_subscriber ≡ []
      → stops.calls (stop_all ecs c).stop_subscriber ≡ stops.calls c.stop_subscriber
  unfolding stop_all
  stop_all-no_calls [] c e = refl
  stop_all-no_calls (ec ∷ ecs) c e =
      let s = stop_subscriber-stop ec c in
      stop_all-no_calls ecs (stop sub stops ec c) s.1 ∙ s.2 ∙ rw (e, append-nil)

  stop_all-IsQuiet :
      (ecs : List Code) (c : Channel sub stops) → IsQuiet c → IsQuiet (stop_all ecs c)
  unfolding stop_all
  stop_all-IsQuiet [] c q = q
  stop_all-IsQuiet (ec ∷ ecs) c q = stop_all-IsQuiet ecs (stop sub stops ec c) (stop-IsQuiet ec c)

  -- However often a channel is stopped, each handler that waited for the stop is called once, with the
  -- code of the first stop; the channel stays stopped, its socket told and its timers ended.
  pub stop_all_lem :
      (ec : Code) (ecs : List Code) (c : Channel sub stops)
      → IsQuiet (stop_all (ec ∷ ecs) c)
        × (stops.calls (stop_all (ec ∷ ecs) c).stop_subscriber
            ≡ stops.calls c.stop_subscriber ++ map (λ w. (w, ec)) (stops.waiting c.stop_subscriber))
  unfolding stop_all
  stop_all_lem ec ecs c =
      let s = stop_subscriber-stop ec c in
      (
        stop_all-IsQuiet ecs (stop sub stops ec c) (stop-IsQuiet ec c),
        stop_all-no_calls ecs (stop sub stops ec c) s.1 ∙ s.2,
      )

  -- A handler that subscribes to the stop of a stopped channel is called at once, with the code of a
  -- stopped channel.
  pub subscribe_stop-stop :
      (ec : Code) (w : Waiter) (c : Channel sub stops)
      → let s = (stop sub stops ec c).stop_subscriber in
        let s' = (subscribe_stop sub stops w (stop sub stops ec c)).stop_subscriber in
        (stops.waiting s' ≡ []) × (stops.calls s' ≡ stops.calls s ++ (w, channel_stopped) ∷ [])
  unfolding subscribe_stop
  subscribe_stop-stop ec w c =
      let s = (stop sub stops ec c).stop_subscriber in
      ground (arith, stop_subscriber-stop ec c, stops.subscribe_lem w channel_stopped s)

  -- A stop tells the handlers of every type of message that is subscribed to, once each and with
  -- the code of a stopped channel, whatever the code of the stop, and leaves none of them waiting.
  pub messages-stop :
      (t : MessageType) (ec : Code) (c : Channel sub stops) {s : sub.State}
      → subscriber sub t c.messages ≡ some s
      → (s' : sub.State) × (subscriber sub t (stop sub stops ec c).messages ≡ some s')
        × (sub.is_stopped s' ≡ true)
        × (sub.waiting s' ≡ [])
        × (sub.calls s' ≡ sub.calls s ++ map (λ h. (h, (channel_stopped, none))) (sub.waiting s))
  unfolding stop
  messages-stop t ec c e = broadcast-stop sub t channel_stopped c.messages e
