-- ===== src/Channel/Notices.antt =====
-- What the handlers of messages of a channel are called with: src/proxy.cpp and src/channel.cpp over
-- src/message_subscriber.cpp.
use bitprim_network.Base.{ℕ, Bool, false, not, ◌&&◌, ◌==◌, ltb, List, [], ◌∷◌, if-both}
use bitprim_network.Code.{Code, success, operation_failed, channel_timeout, bad_stream, is_error}
use bitprim_network.Library.{Subscribers}
use bitprim_network.Messages
use bitprim_network.Messages.Kind.{MessageType}
use bitprim_network.Messages.{Notice}
use bitprim_network.Messages.Lifecycle.{subscriber}
use bitprim_network.Messages.Notices.{
  AreSafe, construct-AreSafe, broadcast-AreSafe, start-AreSafe, stop-AreSafe, subscribe-AreSafe_of,
  load-AreSafe,
}
use bitprim_network.Channel.{
  Channel, Limits, Heading, Read, heading_read, payload_read, construct, handle_stopping,
  start_expiration, start_inactivity, signal_activity, stopped_by,
}
use bitprim_network.Channel.Proxy
use bitprim_network.Channel.Proxy.{
  Wire, BoostCode, stop, read_heading, read_payload, subscribe_stop, set_negotiated_version,
  handle_read_heading, finish_payload, handle_read_payload, handle_send,
}
use bitprim_network.Channel.Talk.{do_start, start, handle_expiration, handle_inactivity}
use bitprim_network.Channel.Events.{
  Action, stops_with, subscribes, subscribes_stop, sets_version, Event, acts, heading_ends,
  payload_ends, send_ends, expires, idles, act, perform, started, on_heading, on_payload, step, run,
}

module _ {Message Handler Waiter : Type 0} (sub : Subscribers Handler (Notice Message))
    (stops : Subscribers Waiter Code) (t : MessageType) where
  -- The calls of the handlers of the type are safe.
  abbrev IsSafely : Channel sub stops → Type 0
  IsSafely c = AreSafe sub (subscriber sub t c.messages)

  stop-IsSafely : (ec : Code) (c : Channel sub stops) → IsSafely c → IsSafely (stop sub stops ec c)
  unfolding stop handle_stopping
  stop-IsSafely ec c v =
      broadcast-AreSafe sub t (Messages.stop sub c.messages) (stop-AreSafe sub t c.messages v)

  read_heading-IsSafely : (c : Channel sub stops) → IsSafely c → IsSafely (read_heading sub stops c)
  unfolding read_heading
  read_heading-IsSafely c v = if-both IsSafely c.stopped (λ _. v) (λ _. v)

  act-IsSafely :
      (x : Action Handler Waiter) (c : Channel sub stops)
      → IsSafely c
      → IsSafely (act sub stops x c)
  unfolding act subscribe_stop set_negotiated_version
  act-IsSafely (stops_with ec) c v = stop-IsSafely ec c v
  act-IsSafely (subscribes u h) c v = subscribe-AreSafe_of sub u t h c.messages v
  act-IsSafely (subscribes_stop w) c v = v
  act-IsSafely (sets_version value) c v = v

  perform-IsSafely :
      (xs : List (Action Handler Waiter)) (c : Channel sub stops)
      → IsSafely c
      → IsSafely (perform sub stops xs c)
  unfolding perform
  perform-IsSafely [] c v = v
  perform-IsSafely (x ∷ xs) c v = perform-IsSafely xs (act sub stops x c) (act-IsSafely x c v)

  start_expiration-IsSafely :
      (c : Channel sub stops) → IsSafely c → IsSafely (start_expiration sub stops c)
  unfolding start_expiration
  start_expiration-IsSafely c v = if-both IsSafely c.stopped (λ _. v) (λ _. v)

  start_inactivity-IsSafely :
      (c : Channel sub stops) → IsSafely c → IsSafely (start_inactivity sub stops c)
  unfolding start_inactivity
  start_inactivity-IsSafely c v = if-both IsSafely c.stopped (λ _. v) (λ _. v)

  do_start-IsSafely :
      (actions : List (Action Handler Waiter)) (ec : Code) (c : Channel sub stops)
      → IsSafely c
      → IsSafely (do_start sub stops (λ ec. perform sub stops actions) ec c)
  unfolding do_start
  do_start-IsSafely actions ec c v =
      perform-IsSafely actions _ (start_inactivity-IsSafely _ (start_expiration-IsSafely c v))

  started-IsSafely :
      (actions : List (Action Handler Waiter)) (c : Channel sub stops)
      → IsSafely c
      → IsSafely (started sub stops actions c)
  unfolding started start Proxy.start
  started-IsSafely actions c v =
      if-both IsSafely (not c.stopped) (λ _. do_start-IsSafely actions operation_failed c v)
        (λ _. read_heading-IsSafely _ (
          do_start-IsSafely actions success
            (record c {
              stopped = false;
              stop_subscriber = stops.start c.stop_subscriber;
              messages = Messages.start sub c.messages;
            })
            (start-AreSafe sub t c.messages v)))

  module _ (wire : Wire Message) where
    handle_read_heading-IsSafely :
        (ec : BoostCode) (head : Heading) (c : Channel sub stops)
        → IsSafely c
        → IsSafely (handle_read_heading sub stops wire ec head c)
    unfolding handle_read_heading read_payload
    handle_read_heading-IsSafely ec head c v =
        if-both IsSafely c.stopped (λ _. v)
          (λ _.
            if-both IsSafely (not (ec == 0)) (λ _. stop-IsSafely _ c v)
              (λ _.
                if-both IsSafely (not head.valid) (λ _. stop-IsSafely _ c v)
                  (λ _.
                    if-both IsSafely (not (head.magic == c.protocol_magic))
                      (λ _. stop-IsSafely _ c v)
                      (λ _.
                        if-both IsSafely (ltb c.maximum_payload head.payload_size)
                          (λ _. stop-IsSafely _ c v)
                          (λ _. if-both IsSafely c.stopped (λ _. v) (λ _. v))))))

    finish_payload-IsSafely :
        (code : Code) (consumed : Bool) (c : Channel sub stops)
        → IsSafely c
        → IsSafely (finish_payload sub stops wire code consumed c)
    unfolding finish_payload signal_activity
    finish_payload-IsSafely code consumed c v =
        if-both IsSafely (c.verbose && is_error code) (λ _. stop-IsSafely code c v)
          (λ _.
            if-both IsSafely (is_error code) (λ _. stop-IsSafely code c v)
              (λ _.
                if-both IsSafely (not consumed) (λ _. stop-IsSafely bad_stream c v)
                  (λ _. read_heading-IsSafely _ (start_inactivity-IsSafely c v))))

    handle_read_payload-IsSafely :
        (actions : List (Action Handler Waiter)) (ec : BoostCode) (head : Heading)
        (payload : List ℕ) (c : Channel sub stops)
        → IsSafely c
        → IsSafely
            (handle_read_payload sub stops wire (perform sub stops actions) ec head payload c)
    unfolding handle_read_payload
    handle_read_payload-IsSafely actions ec head payload c v =
        if-both IsSafely c.stopped (λ _. v)
          (λ _.
            if-both IsSafely (not (ec == 0)) (λ _. stop-IsSafely _ c v)
              (λ _.
                if-both IsSafely
                  (c.validate_checksum && not (head.checksum == wire.bitcoin_checksum payload))
                  (λ _. stop-IsSafely _ c v)
                  (λ _. finish_payload-IsSafely _ _ _ (
                    perform-IsSafely actions _ (
                      load-AreSafe sub wire.from_data head.type t c.version payload c.messages
                        v)))))

    on_heading-IsSafely :
        (ec : BoostCode) (head : Heading) (reads : List Read) (c : Channel sub stops)
        → IsSafely c
        → IsSafely (on_heading sub stops wire ec head reads c)
    unfolding on_heading
    on_heading-IsSafely ec head (heading_read ∷ rest) c v =
        handle_read_heading-IsSafely ec head (record c { reads = rest }) v
    on_heading-IsSafely ec head _ c v = v

    on_payload-IsSafely :
        (ec : BoostCode) (payload : List ℕ) (actions : List (Action Handler Waiter))
        (reads : List Read) (c : Channel sub stops)
        → IsSafely c
        → IsSafely (on_payload sub stops wire ec payload actions reads c)
    unfolding on_payload
    on_payload-IsSafely ec payload actions (payload_read head ∷ rest) c v =
        handle_read_payload-IsSafely actions ec head payload (record c { reads = rest }) v
    on_payload-IsSafely ec payload actions _ c v = v

    step-IsSafely :
        (e : Event Handler Waiter) (c : Channel sub stops)
        → IsSafely c
        → IsSafely (step sub stops wire e c)
    unfolding step handle_send handle_expiration handle_inactivity
    step-IsSafely (acts x) c v = act-IsSafely x c v
    step-IsSafely (heading_ends ec head) c v = on_heading-IsSafely ec head c.reads c v
    step-IsSafely (payload_ends ec payload actions) c v =
        on_payload-IsSafely ec payload actions c.reads c v
    step-IsSafely (send_ends ec) c v =
        let sent : Channel sub stops × Code → Type 0 = λ x. IsSafely (x.0) in
        if-both sent c.stopped (λ _. v)
          (λ _.
            if-both sent (is_error (wire.boost_to_error_code ec)) (λ _. stop-IsSafely _ c v)
              (λ _. v))
    step-IsSafely (expires ec) c v =
        if-both IsSafely (stopped_by sub stops ec c) (λ _. v)
          (λ _. stop-IsSafely channel_timeout c v)
    step-IsSafely (idles ec) c v =
        if-both IsSafely (stopped_by sub stops ec c) (λ _. v)
          (λ _. stop-IsSafely channel_timeout c v)

    run-IsSafely :
        (es : List (Event Handler Waiter)) (c : Channel sub stops)
        → IsSafely c
        → IsSafely (run sub stops wire es c)
    unfolding run
    run-IsSafely [] c v = v
    run-IsSafely (e ∷ es) c v = run-IsSafely es _ (step-IsSafely e c v)

    -- However a channel is started, and whatever happens to it then: each call of a handler that
    -- subscribed to a type of message carries a message and the code of success, or no message and
    -- the code of a stopped channel. No handler gets another code, and none gets success without a
    -- message.
    pub run-started-AreSafe :
        (actions : List (Action Handler Waiter)) (es : List (Event Handler Waiter)) (l : Limits)
        → AreSafe sub (
            subscriber sub t
              (run sub stops wire es (started sub stops actions (construct sub stops l))).messages)
    unfolding construct
    run-started-AreSafe actions es l =
        run-IsSafely es _ (started-IsSafely actions _ (construct-AreSafe sub t))
