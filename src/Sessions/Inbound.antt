-- ===== src/Sessions/Inbound.antt =====
-- The inbound session: src/sessions/session_inbound.cpp.
pub mod Cycle
pub mod Leaks
mod Examples
use bitprim_network.Base.{
  ℕ, ◌+◌, ◌%◌, ◌^◌, Bool, ◌||◌, ◌==◌, leb, if◌then◌else◌, Option, none, some, List, [], ◌∷◌,
  get_elem?, erase_at,
}
use bitprim_network.Code.{Code, success, accept_failed, is_error}
use bitprim_network.Network
use bitprim_network.Network.{Link}
use bitprim_network.Network.Library.{Pendings}
use bitprim_network.Sessions
use bitprim_network.Sessions.{
  Session, SessionSettings, Wait, starting, calls_handler, accept, retry, handshake, channel_stop,
  does, awaits, delays, listens, subscribes_stop, stops_acceptor, cycle_delay, blacklisted,
  stopped_by, attach_protocols, handle_start, handle_starting, handle_handshake, handle_remove,
  register_channel,
}

-- `session_inbound::session_inbound`: the limit. The first sum is of two 32-bit numbers.
unfoldable pub connection_limit : {Address : Type 0} → SessionSettings Address → ℕ
connection_limit settings =
    (settings.inbound_connections + settings.outbound_connections) % 2 ^ 32 + settings.peers

-- What ends a wait: the thread is there, with the code of the acceptor's `listen`; the acceptor has a code
-- and a channel, with what its start will need; the delay; the handshake with a code, the negotiated
-- version and the nonce of the peer's version message; the stop of a channel.
pub data End (Address : Type 0) : Type 0 where
  begins : Code → End Address
  accepts : Code → Code → ℕ → ℕ → Link Address → End Address
  wakes : End Address
  shakes : Code → ℕ → ℕ → End Address
  stops : Code → End Address

-- What can happen to the session: its wait at an index ends, or the node stops it; its own handler of the
-- stop is called apart from that of the base class.
pub data InboundEvent (Address : Type 0) : Type 0 where
  ends : ℕ → End Address → InboundEvent Address
  halts : Code → InboundEvent Address
  relays_stop : Code → InboundEvent Address

module _ {Address : Type 0} (ip : Address → ℕ) (same : Address → Address → Bool)
    (links : Pendings (Link Address)) (settings : SessionSettings Address) where
  -- `session_inbound::start_accept`. The acceptor ends the wait with one call of `handle_accept`.
  unfoldable pub start_accept : Code → Session same links → Session same links
  start_accept ec s = if s.stopped then s else awaits same links accept s

  -- `session_inbound::handle_started`, with the code of the acceptor's `listen`.
  unfoldable pub handle_started : Code → Code → Session same links → Session same links
  unfolding start_accept
  handle_started listened ec s =
      if is_error ec
      then does same links (calls_handler ec) s
      else (let listening =
            does same links (listens settings.inbound_port) (does same links subscribes_stop s) in
          if is_error listened
          then does same links (calls_handler listened) listening
          else does same links (calls_handler success) (start_accept success listening))

  -- `session_inbound::start`. A thread calls `handle_started` later.
  unfoldable pub start : Session same links → Session same links
  start s =
      if settings.inbound_port == 0 || settings.inbound_connections == 0
      then does same links (calls_handler success) s
      else Sessions.start same links (λ ec. awaits same links (starting ec)) s

  -- `session_inbound::handle_stop`
  unfoldable pub handle_stop : Code → Session same links → Session same links
  handle_stop ec s = does same links (stops_acceptor ec) s

  -- `session_inbound::handle_channel_start`, for a channel of that negotiated version.
  unfoldable pub handle_channel_start :
      ℕ → Link Address → Code → Session same links → Session same links
  handle_channel_start version channel ec s =
      if is_error ec then s else attach_protocols same links settings channel version s

  -- `session_inbound::handle_channel_stop`, which only logs.
  unfoldable pub handle_channel_stop : Code → Session same links → Session same links
  handle_channel_stop ec s = s

  -- The handler of the start of a channel: `handle_start`, bound by `register_channel`.
  abbrev pub registered : ℕ → Link Address → Code → Session same links → Session same links
  registered version channel =
      handle_start same links (handle_channel_start version channel) handle_channel_stop channel

  -- The base class's `start_channel`, with the handlers that `register_channel` binds.
  abbrev pub start_channel : Code → ℕ → ℕ → Link Address → Session same links → Session same links
  start_channel started nonce version channel s =
      let announced = record channel { notify = s.notify_on_connect } in
      Sessions.start_channel same links
        (handle_starting same links
          (Sessions.attach_handshake_protocols same links settings announced version)
          (registered version announced))
        started nonce channel s

  -- `session_inbound::handle_accept`, with the channel where there is no error, and what its start needs.
  unfoldable pub handle_accept :
      Code → Code → ℕ → ℕ → Link Address → Session same links → Session same links
  handle_accept ec started nonce version channel s =
      if stopped_by same links ec s
      then s
      else (let next =
            does same links (delays (cycle_delay settings.connect_timeout_seconds ec))
              (awaits same links retry s) in
          if is_error ec
          then next
          else if blacklisted ip settings.blacklists channel.authority
          then next
          else if leb (connection_limit settings) (Network.connection_count same links s.network)
          then next
          else register_channel same links (start_channel started nonce version channel)
              (handle_channel_start version channel) handle_channel_stop next)

  -- `session_inbound::handshake_complete`, with the nonce of the peer's version message.
  unfoldable pub handshake_complete :
      (Code → Session same links → Session same links)
      → ℕ
      → Link Address
      → Session same links
      → Session same links
  handshake_complete handle_started peer_nonce channel s =
      if Network.pending same links peer_nonce s.network
      then handle_started accept_failed s
      else Sessions.handshake_complete same links handle_started channel s

  -- One wait ends; nothing happens if the end is not one of that wait.
  unfoldable pub dispatch :
      Wait Address → End Address → Session same links → Session same links → Session same links
  dispatch (starting ec) (begins listened) s t = handle_started listened ec t
  dispatch accept (accepts ec started nonce version channel) s t =
      handle_accept ec started nonce version channel t
  dispatch retry wakes s t = start_accept success t
  dispatch (handshake channel) (shakes ec version peer_nonce) s t =
      handle_handshake same links
        (handshake_complete (registered version channel) peer_nonce channel)
        (registered version channel) ec t
  dispatch (channel_stop channel) (stops ec) s t =
      handle_remove same links handle_channel_stop channel ec t
  dispatch _ _ s t = s

  unfoldable pub end_wait :
      Option (Wait Address) → ℕ → End Address → Session same links → Session same links
  end_wait none i e s = s
  end_wait (some w) i e s = dispatch w e s (record s { waits = erase_at i s.waits })

  unfoldable pub step : InboundEvent Address → Session same links → Session same links
  unfolding end_wait
  step (ends i e) s = end_wait (get_elem? s.waits i) i e s
  step (halts ec) s = Sessions.handle_stop same links ec s
  step (relays_stop ec) s = handle_stop ec s

  unfoldable pub run : List (InboundEvent Address) → Session same links → Session same links
  run [] s = s
  run (e ∷ es) s = run es (step e s)
