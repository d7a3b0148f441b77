-- ===== src/Channel/Examples.antt =====
-- Tests of a channel, and the theorems at concrete inputs.
use bitprim_network.Base.{
  ℕ, zero, suc, ◌≡◌, ◌⊎◌, refl, true, false, List, [], ◌∷◌, ◌++◌, map, none, some, arith, length,
}
use bitprim_network.Code.{Code, success, channel_stopped, channel_timeout, bad_stream, other}
use bitprim_network.Library.{Subscribers}
use bitprim_network.Library.Plain.{plain}
use bitprim_network.Messages.Kind.{ping}
use bitprim_network.Messages
use bitprim_network.Messages.{Notice, Parser}
use bitprim_network.Messages.Load.{load}
use bitprim_network.Messages.Lifecycle.{subscriber}
use bitprim_network.Messages.Notices.{AreSafe}
use bitprim_network.Channel.{
  Channel, Limits, Heading, construct, heading_read, payload_read, signal_activity,
  start_expiration, start_inactivity,
}
use bitprim_network.Channel.Proxy
use bitprim_network.Channel.Proxy.{
  Wire, stop, subscribe_stop, read_heading, read_payload, handle_read_heading, handle_read_payload,
  finish_payload,
}
use bitprim_network.Channel.Talk
use bitprim_network.Channel.Notices.{run-started-AreSafe}
use bitprim_network.Channel.Events.{
  Event, acts, subscribes, subscribes_stop, heading_ends, payload_ends, idles, act, perform,
  started, step, run, on_heading, on_payload,
}
use bitprim_network.Channel.Sequencer.{queue}
use bitprim_network.Channel.Sending
use bitprim_network.Channel.Sending.{SendEvent, sends, write_ends}
use bitprim_network.Channel.Sending.Order.{InOrder, silent, run-InOrder}
use bitprim_network.Channel.Stopping.{IsQuiet, stop_all, stop_all_lem, subscribe_stop-stop}
use bitprim_network.Channel.Soundness.{IsSound, started-run-IsSound}
use bitprim_network.Channel.Reading.{
  AcceptsHeading, AcceptsPayload, handle_read_heading_lem, handle_read_payload_lem,
}

-- Every handler stays subscribed.
abbrev sub : Subscribers ℕ (Notice ℕ)
sub = plain (λ n h. true)

abbrev stops : Subscribers ℕ Code
stops = plain (λ n h. false)

-- A message is one byte; an empty stream is malformed.
abbrev first_byte : Parser ℕ
first_byte t v [] = (none, [])
first_byte t v (b ∷ bs) = (some b, bs)

abbrev wire : Wire ℕ
wire = record {
  from_data = first_byte;
  bitcoin_checksum = length;
  boost_to_error_code = λ ec. elim ec [ zero ↦ success | suc n ↦ other n ];
}

abbrev limits : Limits
limits = record {
  identifier = 7;
  protocol_maximum = 70013;
  validate_checksum = true;
  verbose = false;
  plain_payload = 10;
  maximum_payload = 20;
}

abbrev ping_heading : Heading
ping_heading = record { valid = true; magic = 7; type = ping; payload_size = 1; checksum = 1 }

abbrev alien_heading : Heading
alien_heading = record ping_heading { magic = 8 }

-- Handler 1 waits for a ping, handler 5 for the stop.
talking : Channel sub stops
unfolding started construct
talking =
    started sub stops (subscribes ping 1 ∷ subscribes_stop 5 ∷ []) (construct sub stops limits)

-- A ping is read, and the next heading is asked for.
read_ping :
    let d =
      run sub stops wire (heading_ends 0 ping_heading ∷ payload_ends 0 (42 ∷ []) [] ∷ []) talking in
    (d.reads ≡ heading_read ∷ []) × (d.stopped ≡ false) × (d.payload_size ≡ 1)
unfolding talking run step on_heading on_payload handle_read_heading handle_read_payload
    read_payload finish_payload read_heading signal_activity Messages.construct Messages.start
    Messages.subscribe load Talk.start Proxy.start Talk.do_start perform act subscribe_stop
    start_expiration start_inactivity
read_ping = (refl, refl, refl)

read_alien :
    let d = run sub stops wire (heading_ends 0 alien_heading ∷ []) talking in
    (d.reads ≡ []) × (d.stopped ≡ true) × (d.stop_subscriber.made ≡ (5, bad_stream) ∷ [])
unfolding talking run step on_heading handle_read_heading stop Talk.start Proxy.start Talk.do_start
    perform act subscribe_stop read_heading start_expiration start_inactivity
read_alien = (refl, refl, refl)

talking-running :
    (talking.stopped ≡ false)
    × (talking.stop_subscriber.handlers ≡ 5 ∷ [])
    × (talking.stop_subscriber.made ≡ [])
unfolding talking Talk.start Proxy.start Talk.do_start perform act subscribe_stop read_heading
    start_expiration start_inactivity
talking-running = (refl, refl, refl)

stop_all_lem_example :
    IsQuiet sub stops (stop_all sub stops (channel_timeout ∷ bad_stream ∷ []) talking)
    × ((stop_all sub stops (channel_timeout ∷ bad_stream ∷ []) talking).stop_subscriber.made
        ≡ talking.stop_subscriber.made
          ++ map (λ w. (w, channel_timeout)) talking.stop_subscriber.handlers)
stop_all_lem_example = stop_all_lem sub stops channel_timeout (bad_stream ∷ []) talking

subscribe_stop-stop_example :
    let s = (stop sub stops bad_stream talking).stop_subscriber in
    let s' = (subscribe_stop sub stops 6 (stop sub stops bad_stream talking)).stop_subscriber in
    (s'.handlers ≡ []) × (s'.made ≡ s.made ++ (6, channel_stopped) ∷ [])
subscribe_stop-stop_example = subscribe_stop-stop sub stops bad_stream 6 talking

started-run-IsSound_example : IsSound sub stops 1 (
    run sub stops wire
      (heading_ends 0 ping_heading ∷ idles success ∷ [])
      (started sub stops (subscribes ping 1 ∷ []) (construct sub stops limits)))
started-run-IsSound_example =
    started-run-IsSound sub stops wire limits (subscribes ping 1 ∷ [])
      (heading_ends 0 ping_heading ∷ idles success ∷ []) (omega arith)

-- A message arrives, the channel stops, and a handler subscribes too late.
abbrev hearing : List (Event ℕ ℕ)
hearing =
    heading_ends 0 ping_heading
    ∷ payload_ends 0 (42 ∷ []) []
    ∷ idles success
    ∷ acts (subscribes ping 2)
    ∷ []

run-started-AreSafe_example : AreSafe sub (
    subscriber sub ping
      (run sub stops wire hearing
        (started sub stops (subscribes ping 1 ∷ []) (construct sub stops limits))).messages)
run-started-AreSafe_example =
    run-started-AreSafe sub stops ping wire (subscribes ping 1 ∷ []) hearing limits

abbrev running : Channel sub stops
running = record {
  stopped = false;
  version = 70013;
  protocol_magic = 7;
  maximum_payload = 20;
  validate_checksum = true;
  verbose = false;
  messages = Messages.construct sub;
  stop_subscriber = record { stopped = false; handlers = []; made = [] };
  payload_size = 10;
  reads = [];
  socket_stopped = false;
  notify = true;
  nonce = 3;
  peer_version = none;
  expiration = true;
  inactivity = true;
}

handle_read_heading_lem_example :
    let d = handle_read_heading sub stops wire 0 alien_heading running in
    (AcceptsHeading sub stops wire 0 alien_heading running
      × (d ≡ record running { payload_size = 1; reads = payload_read alien_heading ∷ [] }))
    ⊎ ((¬ AcceptsHeading sub stops wire 0 alien_heading running)
        × (d.stopped ≡ true)
        × (d.reads ≡ []))
handle_read_heading_lem_example =
    handle_read_heading_lem sub stops wire 0 alien_heading running refl

handle_read_payload_lem_example :
    let (code, messages, rest) = load sub first_byte ping 70013 (42 ∷ []) running.messages in
    let c' = perform sub stops [] (record running { messages = messages }) in
    let d =
      handle_read_payload sub stops wire (perform sub stops []) 0 ping_heading (42 ∷ []) running in
    (AcceptsPayload sub stops wire 0 ping_heading (42 ∷ []) true code rest
      × (((c'.stopped ≡ true) × (d ≡ c'))
          ⊎ ((c'.stopped ≡ false)
              × (d ≡ record c' { inactivity = true; reads = heading_read ∷ c'.reads }))))
    ⊎ ((¬ AcceptsPayload sub stops wire 0 ping_heading (42 ∷ []) true code rest)
        × (d.stopped ≡ true)
        × (d.reads ≡ []))
handle_read_payload_lem_example =
    handle_read_payload_lem sub stops wire [] 0 ping_heading (42 ∷ []) running refl

-- A message is its bytes. The second is sent while the first is written, and the third after a failure.
abbrev sendings : List (SendEvent (List ℕ) ℕ ℕ ℕ)
sendings =
    sends (1 ∷ []) 51 ∷ sends (2 ∷ []) 52 ∷ write_ends 0 ∷ write_ends 3 ∷ sends (3 ∷ []) 53 ∷ []

run-InOrder_example :
    InOrder sub stops wire
      (λ version bytes magic. bytes)
      queue
      ((1 ∷ [], 51) ∷ (2 ∷ [], 52) ∷ (3 ∷ [], 53) ∷ [])
      (Sending.run sub stops wire
        (λ version bytes magic. bytes)
        queue
        sendings
        (silent sub stops wire (λ version bytes magic. bytes) queue running))
run-InOrder_example =
    run-InOrder sub stops wire (λ version bytes magic. bytes) queue running sendings

calls_of_sendings :
    (Sending.run sub stops wire
      (λ version bytes magic. bytes)
      queue
      sendings
      (silent sub stops wire (λ version bytes magic. bytes) queue running)).calls
    ≡ (51, success) ∷ (52, other 2) ∷ []
unfolding Sending.run Sending.step Sending.send Sending.do_send Sending.handle_send
    Sending.end_write Proxy.handle_send
calls_of_sendings = refl
