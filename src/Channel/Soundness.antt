-- ===== src/Channel/Soundness.antt =====
-- What holds of a channel after its start, whatever happens: src/proxy.cpp and src/channel.cpp.
use bitprim_network.Base.{
  ℕ, ◌≤◌, ◌≡◌, ◌⊎◌, inl, refl, Bool, false, List, [], ◌∷◌, arith, ◌==◌, length,
}
use bitprim_network.Code.{Code, bad_stream, channel_timeout}
use bitprim_network.Library.{Subscribers}
use bitprim_network.Messages.{Notice}
use bitprim_network.Messages.Load.{load}
use bitprim_network.Channel.{
  Channel, Read, heading_read, payload_read, Heading, signal_activity, start_inactivity,
  start_expiration, construct, Limits,
}
use bitprim_network.Channel.Proxy
use bitprim_network.Channel.Proxy.{
  Wire, BoostCode, stop, handle_read_heading, handle_read_payload, finish_payload, read_heading,
  read_payload, handle_send, subscribe_stop, set_negotiated_version,
}
use bitprim_network.Channel.Talk.{handle_expiration, handle_inactivity, do_start, start}
use bitprim_network.Channel.Events.{
  Action, stops_with, subscribes, subscribes_stop, sets_version, Event, acts, heading_ends,
  payload_ends, send_ends, expires, idles, on_heading, on_payload, act, perform, started, step, run,
}
use bitprim_network.Channel.Stopping.{IsQuiet}

module _ {Message Handler Waiter : Type 0} (sub : Subscribers Handler (Notice Message))
    (stops : Subscribers Waiter Code) where
  -- At most `n` reads wait on the socket, the payload that is read fits the limit, and a stopped
  -- channel is quiet.
  pub record IsSound (n : ℕ) (c : Channel sub stops) : Type 0 where
    pub pending : length c.reads ≤ n
    pub sized : c.payload_size ≤ c.maximum_payload
    pub quiet : (c.stopped ≡ false) ⊎ IsQuiet sub stops c

  stop-IsSound :
      {n : ℕ} (ec : Code) (c : Channel sub stops) → IsSound n c → IsSound n (stop sub stops ec c)
  unfolding stop
  stop-IsSound ec c v = ground arith

  act-IsSound :
      {n : ℕ} (x : Action Handler Waiter) (c : Channel sub stops)
      → IsSound n c
      → IsSound n (act sub stops x c)
  unfolding act subscribe_stop set_negotiated_version
  act-IsSound (stops_with ec) c v = stop-IsSound ec c v
  act-IsSound (subscribes t h) c v = ground arith
  act-IsSound (subscribes_stop w) c v = ground arith
  act-IsSound (sets_version n) c v = ground arith

  perform-IsSound :
      {n : ℕ} (xs : List (Action Handler Waiter)) (c : Channel sub stops)
      → IsSound n c
      → IsSound n (perform sub stops xs c)
  unfolding perform
  perform-IsSound [] c v = v
  perform-IsSound (x ∷ xs) c v = perform-IsSound xs (act sub stops x c) (act-IsSound x c v)

  read_heading-IsSound :
      (c : Channel sub stops) → IsSound 0 c → IsSound 1 (read_heading sub stops c)
  unfolding read_heading
  read_heading-IsSound c v = ground arith

  module _ (wire : Wire Message) where
    handle_read_heading-IsSound :
        (ec : BoostCode) (head : Heading) (c : Channel sub stops)
        → IsSound 0 c
        → IsSound 1 (handle_read_heading sub stops wire ec head c)
    unfolding handle_read_heading read_payload
    handle_read_heading-IsSound ec head c v = ground (
      arith,
      stop-IsSound {n = 0} (wire.boost_to_error_code ec) c,
      stop-IsSound {n = 0} bad_stream c,
    )

    finish_payload-IsSound :
        (ec : Code) (consumed : Bool) (c : Channel sub stops)
        → IsSound 0 c
        → IsSound 1 (finish_payload sub stops wire ec consumed c)
    unfolding finish_payload signal_activity read_heading
    finish_payload-IsSound ec consumed c v =
        ground (arith, stop-IsSound {n = 0} ec c, stop-IsSound {n = 0} bad_stream c)

    handle_read_payload-IsSound :
        (actions : List (Action Handler Waiter)) (ec : BoostCode) (head : Heading)
        (payload : List ℕ) (c : Channel sub stops)
        → IsSound 0 c
        → IsSound 1
            (handle_read_payload sub stops wire (perform sub stops actions) ec head payload c)
    unfolding handle_read_payload
    handle_read_payload-IsSound actions ec head payload c v =
        let (code, messages, rest) =
          load sub wire.from_data head.type c.version payload c.messages in
        let c' = record c { messages = messages } in
        let v' : IsSound 0 c' = ground arith in
        ground (
          arith,
          stop-IsSound {n = 0} (wire.boost_to_error_code ec) c,
          stop-IsSound {n = 0} bad_stream c,
          finish_payload-IsSound code (length rest == 0) (perform sub stops actions c')
              (perform-IsSound actions c' v'),
        )

    on_heading-IsSound :
        (ec : BoostCode) (head : Heading) (rs : List Read) (c : Channel sub stops)
        → length rs ≤ 1
        → IsSound 1 c
        → IsSound 1 (on_heading sub stops wire ec head rs c)
    unfolding on_heading
    on_heading-IsSound ec head [] c h v = v
    on_heading-IsSound ec head (heading_read ∷ rest) c h v =
        handle_read_heading-IsSound ec head (record c { reads = rest })
          (record { pending = omega arith; sized = v.sized; quiet = ground arith })
    on_heading-IsSound ec head (payload_read other ∷ rest) c h v = v

    on_payload-IsSound :
        (ec : BoostCode) (payload : List ℕ) (actions : List (Action Handler Waiter))
        (rs : List Read) (c : Channel sub stops)
        → length rs ≤ 1
        → IsSound 1 c
        → IsSound 1 (on_payload sub stops wire ec payload actions rs c)
    unfolding on_payload
    on_payload-IsSound ec payload actions [] c h v = v
    on_payload-IsSound ec payload actions (heading_read ∷ rest) c h v = v
    on_payload-IsSound ec payload actions (payload_read head ∷ rest) c h v =
        handle_read_payload-IsSound actions ec head payload (record c { reads = rest })
          (record { pending = omega arith; sized = v.sized; quiet = ground arith })

    step-IsSound :
        (e : Event Handler Waiter) (c : Channel sub stops)
        → IsSound 1 c
        → IsSound 1 (step sub stops wire e c)
    unfolding step handle_send handle_expiration handle_inactivity
    step-IsSound (acts x) c v = act-IsSound x c v
    step-IsSound (heading_ends ec head) c v = on_heading-IsSound ec head c.reads c v.pending v
    step-IsSound (payload_ends ec payload actions) c v =
        on_payload-IsSound ec payload actions c.reads c v.pending v
    step-IsSound (send_ends ec) c v =
        ground (arith, stop-IsSound {n = 1} (wire.boost_to_error_code ec) c)
    step-IsSound (expires ec) c v = ground (arith, stop-IsSound {n = 1} channel_timeout c)
    step-IsSound (idles ec) c v = ground (arith, stop-IsSound {n = 1} channel_timeout c)

    run-IsSound :
        (es : List (Event Handler Waiter)) (c : Channel sub stops)
        → IsSound 1 c
        → IsSound 1 (run sub stops wire es c)
    unfolding run
    run-IsSound [] c v = v
    run-IsSound (e ∷ es) c v = run-IsSound es (step sub stops wire e c) (step-IsSound e c v)

  start_timers-IsSound :
      (c : Channel sub stops)
      → c.stopped ≡ false
      → IsSound 0 c
      → IsSound 0 (start_inactivity sub stops (start_expiration sub stops c))
  unfolding start_inactivity start_expiration
  start_timers-IsSound c e v = ground arith

  started-IsSound :
      (l : Limits) (actions : List (Action Handler Waiter))
      → l.plain_payload ≤ l.maximum_payload
      → IsSound 1 (started sub stops actions (construct sub stops l))
  unfolding started start do_start Proxy.start construct
  started-IsSound l actions h = read_heading-IsSound _ (
      perform-IsSound actions _ (
        start_timers-IsSound _ refl
          (record { pending = omega arith; sized = h; quiet = inl refl })))

  -- From the start of a new channel on, and whatever the peer, the timers and the protocols do in
  -- whatever order: at most one read waits on the socket, the buffer of the payload never grows beyond
  -- the limit, and a channel that was stopped has told its socket and has no timer.
  pub started-run-IsSound :
      (wire : Wire Message) (l : Limits) (actions : List (Action Handler Waiter))
      (es : List (Event Handler Waiter))
      → l.plain_payload ≤ l.maximum_payload
      → IsSound 1 (run sub stops wire es (started sub stops actions (construct sub stops l)))
  started-run-IsSound wire l actions es h = run-IsSound wire es _ (started-IsSound l actions h)
