-- ===== src/Sessions/Manual.antt =====
-- The manual session: src/sessions/session_manual.cpp, and what it uses of src/sessions/session.cpp.
--
-- A host and its port are one endpoint, a connector is seen by its number. `waits` are the calls that
-- others make later, each once: of `handle_started` on another thread, of `handle_connect` by a
-- connector, of `start_connect` after a delay, of `handle_handshake` by the handshake of a channel, and
-- of `handle_remove` when the channel stops.
pub mod Moves
pub mod Handlers
pub mod Attempts
mod Examples
use bitprim_network.Base.{
  ℕ, ◌+◌, ◌-◌, not, Bool, true, false, Option, none, some, List, [], ◌∷◌, ◌==◌, leb, ltb, get_elem?,
  erase_at, if◌then◌else◌,
}
use bitprim_network.Code.{
  Code, success, service_stopped, operation_failed, is_error, is_address_in_use,
}
use bitprim_network.Network
use bitprim_network.Network.{Link, Connections}
use bitprim_network.Network.Library.{Pendings}
use bitprim_network.Sessions.{
  Deed, SessionSettings, HandshakeOptions, handshake_options, cycle_delay, subscribes_stop, delays,
  attaches_handshake, attaches_ping_31402, attaches_ping_60001, attaches_reject, attaches_address,
  starts_channel, stops_channel, calls_handler,
}

-- A handler is that of a caller of `connect`, or `none` for the one that does nothing. A connection that is
-- waited for knows its connector and the attempts that remain; a delay, the attempts.
pub data ManualWait (Endpoint Handler Address : Type 0) : Type 0 where
  going_on : Code → ManualWait Endpoint Handler Address
  connecting : ℕ → Endpoint → ℕ → Option Handler → ManualWait Endpoint Handler Address
  delaying : Endpoint → ℕ → Option Handler → ManualWait Endpoint Handler Address
  shaking : Endpoint → Link Address → Option Handler → ManualWait Endpoint Handler Address
  running : Endpoint → Link Address → ManualWait Endpoint Handler Address

-- What ends a wait: the thread is there; the connector has a code and a channel, with what its start will
-- need (the code of the start, the random nonce, the negotiated version); the delay; the handshake with a
-- code and the negotiated version; the stop of a channel.
pub data ManualEnd (Address : Type 0) : Type 0 where
  goes_on wakes : ManualEnd Address
  connects : Code → Code → ℕ → ℕ → Link Address → ManualEnd Address
  shakes : Code → ℕ → ManualEnd Address
  stops : Code → ManualEnd Address

-- What can happen to the session: a caller asks for a connection, with or without a handler; a wait ends;
-- the node stops it.
pub data ManualEvent (Endpoint Handler Address : Type 0) : Type 0 where
  asks : Endpoint → Option Handler → ManualEvent Endpoint Handler Address
  ends : ℕ → ManualEnd Address → ManualEvent Endpoint Handler Address
  halts : Code → ManualEvent Endpoint Handler Address

-- `floor_subtract` of libbitcoin, on numbers that do not wrap.
abbrev pub floor_subtract : ℕ → ℕ → ℕ
floor_subtract a b = a - b

-- The types of the endpoints, of the callers' handlers and of the addresses, the collections of the node,
-- and the settings, of which the limit is that of the attempts.
pub record ManualParts : Type 1 where
  pub Endpoint : Type 0
  pub Handler : Type 0
  pub Address : Type 0
  pub same : Address → Address → Bool
  pub links : Pendings (Link Address)
  pub settings : SessionSettings Address
  pub manual_attempt_limit : ℕ

module _ (w : ManualParts) where
  open w use {Endpoint, Handler, Address, same, links, settings, manual_attempt_limit}

  -- `calls` are the calls of the callers' handlers, the latest first, with the channel if one comes along;
  -- `dropped` are the handlers that were given up without a call, since their channel did not start.
  pub record Manual : Type 0 where
    pub stopped : Bool
    pub notify_on_connect : Bool
    pub network : Connections same links
    pub made : ℕ
    pub pended : List ℕ
    pub unpended : List ℕ
    pub deeds : List Deed
    pub waits : List (ManualWait Endpoint Handler Address)
    pub calls : List (Option Handler × Code × Option (Link Address))
    pub dropped : List (Option Handler)

  -- `session_manual::session_manual`, on a node with these connections.
  unfoldable pub construct : Bool → Connections same links → Manual
  construct notify_on_connect network = record {
    stopped = true;
    notify_on_connect = notify_on_connect;
    network = network;
    made = 0;
    pended = [];
    unpended = [];
    deeds = [];
    waits = [];
    calls = [];
    dropped = [];
  }

  abbrev pub does : Deed → Manual → Manual
  does d s = record s { deeds = d ∷ s.deeds }

  abbrev pub awaits : ManualWait Endpoint Handler Address → Manual → Manual
  awaits w s = record s { waits = w ∷ s.waits }

  abbrev pub call : Option Handler → Code → Option (Link Address) → Manual → Manual
  call handler ec channel s = record s { calls = (handler, ec, channel) ∷ s.calls }

  -- `session_manual::start`, with `session::start` of the base class. A thread calls `handle_started`
  -- later.
  unfoldable pub start : Manual → Manual
  start s =
      if not s.stopped
      then awaits (going_on operation_failed) s
      else awaits (going_on success) (does subscribes_stop (record s { stopped = false }))

  -- `session_manual::handle_started`, whose handler is that of the start.
  unfoldable pub handle_started : Code → Manual → Manual
  handle_started ec s =
      if is_error ec then does (calls_handler ec) s else does (calls_handler success) s

  -- `session_manual::start_connect`. The connector ends the wait with one call of `handle_connect`.
  unfoldable pub start_connect : Code → Endpoint → ℕ → Option Handler → Manual → Manual
  start_connect ec endpoint attempts handler s =
      if s.stopped
      then call handler service_stopped none s
      else awaits (connecting s.made endpoint (floor_subtract attempts 1) handler)
          (record s { made = s.made + 1; pended = s.made ∷ s.pended })

  -- `session_manual::connect`, with the caller's handler or the one that does nothing.
  unfoldable pub connect : Endpoint → Option Handler → Manual → Manual
  connect endpoint handler s = start_connect success endpoint manual_attempt_limit handler s

  -- `session_manual::attach_protocols`, for a channel of that negotiated version.
  unfoldable pub attach_protocols : Link Address → ℕ → Manual → Manual
  attach_protocols channel version s =
      let pinged =
        does
          (if leb settings.bip31 version
            then attaches_ping_60001 channel.pointer
            else attaches_ping_31402 channel.pointer)
          s in
      let reported =
        if leb settings.bip61 version
        then does (attaches_reject channel.pointer) pinged
        else pinged in
      does (attaches_address channel.pointer) reported

  -- `session_manual::handle_channel_start`
  unfoldable pub handle_channel_start : Code → Option Handler → Link Address → ℕ → Manual → Manual
  handle_channel_start ec handler channel version s =
      if is_error ec
      then record s { dropped = handler ∷ s.dropped }
      else attach_protocols channel version (call handler success (some channel) s)

  -- `session_manual::handle_channel_stop`
  unfoldable pub handle_channel_stop : Code → Endpoint → Manual → Manual
  unfolding connect
  handle_channel_stop ec endpoint s =
      if not (is_address_in_use ec) then connect endpoint none s else s

  -- `session::handle_start` of the base class, with the two handlers of this session.
  unfoldable pub handle_start :
      Code → Endpoint → Option Handler → Link Address → ℕ → Manual → Manual
  unfolding handle_channel_start handle_channel_stop
  handle_start ec endpoint handler channel version s =
      handle_channel_start ec handler channel version (
        if is_error ec
        then handle_channel_stop ec endpoint (does (stops_channel channel.pointer ec) s)
        else awaits (running endpoint channel) s)

  -- `session::register_channel` of the base class: the channel starts on the spot, and gets its handshake.
  unfoldable pub register_channel :
      Code → ℕ → ℕ → Endpoint → Option Handler → Link Address → Manual → Manual
  unfolding handle_start
  register_channel started nonce version endpoint handler channel s =
      if s.stopped
      then handle_channel_stop service_stopped endpoint
          (handle_channel_start service_stopped handler channel version s)
      else (let announced = record channel { notify = s.notify_on_connect } in
          let began =
            does (starts_channel channel.pointer s.notify_on_connect nonce) (record s {
              network = Network.set_nonce same links channel.pointer nonce s.network;
            }) in
          if is_error started
          then handle_start started endpoint handler announced version began
          else does
              (attaches_handshake channel.pointer (
                handshake_options settings settings.services 0 settings.relay_transactions version))
              (awaits (shaking endpoint announced handler) began))

  -- `session::handle_handshake` and `session::handshake_complete` of the base class.
  unfoldable pub handle_handshake :
      Code → Endpoint → Option Handler → Link Address → ℕ → Manual → Manual
  unfolding handle_start
  handle_handshake ec endpoint handler channel version s =
      if is_error ec
      then handle_start ec endpoint handler channel version s
      else (let (next, stored) = Network.store same links channel s.network in
          handle_start stored endpoint handler channel version (record s { network = next }))

  -- `session::handle_remove` of the base class.
  unfoldable pub handle_remove : Endpoint → Link Address → Manual → Manual
  unfolding handle_channel_stop
  handle_remove endpoint channel s =
      handle_channel_stop success endpoint
        (record s { network = Network.remove same links channel s.network })

  -- What `session_manual::handle_connect` does when the connection has failed.
  unfoldable pub retry : Code → Endpoint → ℕ → Option Handler → Manual → Manual
  retry ec endpoint remaining handler s =
      if ltb 0 remaining
      then does (delays (cycle_delay settings.connect_timeout_seconds ec))
          (awaits (delaying endpoint remaining handler) s)
      else call handler ec none s

  -- `session_manual::handle_connect`, with the channel where there is no error.
  unfoldable pub handle_connect :
      Code → Code → ℕ → ℕ → Link Address → ℕ → Endpoint → ℕ → Option Handler → Manual → Manual
  unfolding retry register_channel
  handle_connect ec started nonce version channel connector endpoint remaining handler s =
      let freed = record s { unpended = connector ∷ s.unpended } in
      if is_error ec
      then retry ec endpoint (if manual_attempt_limit == 0 then 1 else remaining) handler freed
      else register_channel started nonce version endpoint handler channel freed

  -- One wait ends; nothing happens if the end is not one of that wait.
  unfoldable pub dispatch :
      ManualWait Endpoint Handler Address → ManualEnd Address → Manual → Manual → Manual
  dispatch (going_on ec) goes_on s t = handle_started ec t
  dispatch (connecting connector endpoint remaining handler)
        (connects ec started nonce version channel) s t =
      handle_connect ec started nonce version channel connector endpoint remaining handler t
  dispatch (delaying endpoint attempts handler) wakes s t =
      start_connect success endpoint attempts handler t
  dispatch (shaking endpoint channel handler) (shakes ec version) s t =
      handle_handshake ec endpoint handler channel version t
  dispatch (running endpoint channel) (stops ec) s t = handle_remove endpoint channel t
  dispatch _ _ s t = s

  unfoldable pub end_wait :
      Option (ManualWait Endpoint Handler Address) → ℕ → ManualEnd Address → Manual → Manual
  end_wait none i e s = s
  end_wait (some wait) i e s = dispatch wait e s (record s { waits = erase_at i s.waits })

  unfoldable pub step : ManualEvent Endpoint Handler Address → Manual → Manual
  unfolding connect end_wait
  step (asks endpoint handler) s = connect endpoint handler s
  step (ends i e) s = end_wait (get_elem? s.waits i) i e s
  step (halts ec) s = record s { stopped = true }

  unfoldable pub run : List (ManualEvent Endpoint Handler Address) → Manual → Manual
  run [] s = s
  run (e ∷ es) s = run es (step e s)
