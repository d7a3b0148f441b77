-- ===== src/Channel/Proxy.antt =====
-- The reading, sending and stopping of a channel: src/proxy.cpp.
use bitprim_network.Base.{
  ℕ, Bool, true, false, List, ◌∷◌, ◌&&◌, not, ◌==◌, ltb, length, if◌then◌else◌,
}
use bitprim_network.Code.{Code, success, operation_failed, channel_stopped, bad_stream, is_error}
use bitprim_network.Library.{Subscribers}
use bitprim_network.Messages
use bitprim_network.Messages.{Notice, Parser}
use bitprim_network.Messages.Load.{load}
use bitprim_network.Channel.{
  Channel, Heading, heading_read, payload_read, handle_stopping, signal_activity,
}

-- `boost_code`: 0 is no error.
abbrev pub BoostCode : Type 0
BoostCode = ℕ

-- What the proxy uses of libbitcoin besides its subscribers.
pub record Wire (Message : Type 0) : Type 0 where
  pub from_data : Parser Message
  pub bitcoin_checksum : List ℕ → ℕ
  pub boost_to_error_code : BoostCode → Code

module _ {Message Handler Waiter : Type 0} (sub : Subscribers Handler (Notice Message))
    (stops : Subscribers Waiter Code) where
  -- `proxy::stop(const code&)`
  unfoldable pub stop : Code → Channel sub stops → Channel sub stops
  unfolding handle_stopping
  stop ec c =
      let halted = record c {
        stopped = true;
        messages = Messages.broadcast sub channel_stopped (Messages.stop sub c.messages);
        stop_subscriber = stops.relay ec (stops.stop c.stop_subscriber);
      } in
      record (handle_stopping sub stops halted) { socket_stopped = true }

  -- `proxy::read_heading`
  unfoldable pub read_heading : Channel sub stops → Channel sub stops
  read_heading c = if c.stopped then c else record c { reads = heading_read ∷ c.reads }

  -- `proxy::read_payload`
  unfoldable pub read_payload : Heading → Channel sub stops → Channel sub stops
  read_payload head c =
      if c.stopped
      then c
      else record c { payload_size = head.payload_size; reads = payload_read head ∷ c.reads }

  -- `proxy::start`, with what the handler does on the code that it gets.
  unfoldable pub start :
      (Code → Channel sub stops → Channel sub stops) → Channel sub stops → Channel sub stops
  start handler c =
      if not c.stopped
      then handler operation_failed c
      else read_heading (
          handler success (record c {
            stopped = false;
            stop_subscriber = stops.start c.stop_subscriber;
            messages = Messages.start sub c.messages;
          }))

  -- `proxy::subscribe_stop`
  unfoldable pub subscribe_stop : Waiter → Channel sub stops → Channel sub stops
  subscribe_stop handler c = record c {
    stop_subscriber = stops.subscribe handler channel_stopped c.stop_subscriber;
  }

  -- `proxy::set_negotiated_version`
  unfoldable pub set_negotiated_version : ℕ → Channel sub stops → Channel sub stops
  set_negotiated_version value c = record c { version = value }

  module _ (wire : Wire Message) where
    -- `proxy::handle_read_heading`, with the heading that `heading::factory_from_data` makes of the
    -- buffer.
    unfoldable pub handle_read_heading : BoostCode → Heading → Channel sub stops → Channel sub stops
    handle_read_heading ec head c =
        if c.stopped
        then c
        else if not (ec == 0)
        then stop (wire.boost_to_error_code ec) c
        else if not head.valid
        then stop bad_stream c
        else if not (head.magic == c.protocol_magic)
        then stop bad_stream c
        else if ltb c.maximum_payload head.payload_size
        then stop bad_stream c
        else read_payload head c

    -- The end of `handle_read_payload`: the code of `load`, and whether the stream was consumed.
    unfoldable pub finish_payload : Code → Bool → Channel sub stops → Channel sub stops
    finish_payload code consumed c =
        if c.verbose && is_error code
        then stop code c
        else if is_error code
        then stop code c
        else if not consumed
        then stop bad_stream c
        else read_heading (signal_activity sub stops c)

    -- `proxy::handle_read_payload`, with the bytes that the buffer holds. `meanwhile` is what the
    -- handlers do to the channel that `load` calls before it returns.
    unfoldable pub handle_read_payload :
        (Channel sub stops → Channel sub stops)
        → BoostCode
        → Heading
        → List ℕ
        → Channel sub stops
        → Channel sub stops
    handle_read_payload meanwhile ec head payload c =
        if c.stopped
        then c
        else if not (ec == 0)
        then stop (wire.boost_to_error_code ec) c
        else if c.validate_checksum && not (head.checksum == wire.bitcoin_checksum payload)
        then stop bad_stream c
        else (let (code, messages, rest) =
              load sub wire.from_data head.type c.version payload c.messages in
            finish_payload code (length rest == 0) (meanwhile (record c { messages = messages })))

    -- `proxy::handle_send`: the channel, and the code that goes to the handler of the sender.
    unfoldable pub handle_send : BoostCode → Channel sub stops → Channel sub stops × Code
    handle_send ec c =
        let error = wire.boost_to_error_code ec in
        if c.stopped
        then (c, error)
        else if is_error error
        then (stop error c, error)
        else (c, error)
