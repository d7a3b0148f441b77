-- ===== src/Sessions/Outbound.antt =====
-- The outbound session: src/sessions/session_outbound.cpp.
pub mod Slots
pub mod Holding
pub mod Leaks
use bitprim_network.Base.{
  ℕ, zero, suc, Bool, true, false, Option, none, some, List, [], ◌∷◌, ◌==◌, get_elem?, erase_at,
  if◌then◌else◌,
}
use bitprim_network.Code.{Code, success, is_error}
use bitprim_network.Network
use bitprim_network.Network.{Link}
use bitprim_network.Network.Library.{Pendings}
use bitprim_network.Sessions
use bitprim_network.Sessions.{
  Session, SessionSettings, Wait, batch, retry, handshake, channel_stop, does, awaits, starting,
  delays, calls_handler, attaches_handshake, cycle_delay, handshake_options, attach_protocols,
  handle_start, handle_starting, handle_handshake, handshake_complete, handle_remove,
  register_channel,
}
use Prim.Native.Nat.{bit_and, bit_or}

-- libbitcoin's service bits, and whether the program is built for bitcoin cash.
pub record Services : Type 0 where
  pub node_network : ℕ
  pub node_witness : ℕ
  pub is_bch : Bool

-- The services that a peer must have.
unfoldable pub minimum_services : Services → ℕ → ℕ
minimum_services v own_services =
    if v.is_bch then v.node_network else bit_or (bit_and own_services v.node_witness) v.node_network

-- What ends a wait: the thread is there; the batch with a code and a channel, with what its start will need; the delay; the
-- handshake with a code and the negotiated version; the stop of a channel.
pub data End (Address : Type 0) : Type 0 where
  connects : Code → Code → ℕ → ℕ → Link Address → End Address
  begins wakes : End Address
  shakes : Code → ℕ → End Address
  stops : Code → End Address

-- What can happen to the session: its wait at an index ends, or the node stops it.
pub data OutboundEvent (Address : Type 0) : Type 0 where
  ends : ℕ → End Address → OutboundEvent Address
  halts : Code → OutboundEvent Address

module _ {Address : Type 0} (same : Address → Address → Bool) (links : Pendings (Link Address))
    (services : Services) (settings : SessionSettings Address) where
  -- `session_outbound::new_connection`. The batch ends later, with one call of `handle_connect`.
  unfoldable pub new_connection : Session same links → Session same links
  new_connection s = if s.stopped then s else awaits same links batch s

  -- The loop of `handle_started`.
  unfoldable pub new_connections : ℕ → Session same links → Session same links
  new_connections zero s = s
  new_connections (suc n) s = new_connections n (new_connection s)

  -- `session_outbound::handle_started`
  unfoldable pub handle_started : Code → Session same links → Session same links
  handle_started ec s =
      if is_error ec
      then does same links (calls_handler ec) s
      else does same links (calls_handler success) (new_connections settings.outbound_connections s)

  -- `session_outbound::start`. A thread calls `handle_started` later.
  unfoldable pub start : Session same links → Session same links
  start s =
      if settings.outbound_connections == 0
      then does same links (calls_handler success) s
      else Sessions.start same links (λ ec. awaits same links (starting ec)) s

  -- `session_outbound::handle_channel_start`, for a channel of that negotiated version.
  unfoldable pub handle_channel_start :
      ℕ → Link Address → Code → Session same links → Session same links
  handle_channel_start version channel ec s =
      if is_error ec then s else attach_protocols same links settings channel version s

  -- `session_outbound::handle_channel_stop`
  unfoldable pub handle_channel_stop : Code → Session same links → Session same links
  unfolding new_connection
  handle_channel_stop ec s = new_connection s

  -- `session_outbound::do_unpend`
  unfoldable pub do_unpend :
      (Code → Session same links → Session same links)
      → Link Address
      → Code
      → Session same links
      → Session same links
  do_unpend handle_started channel ec s =
      handle_started ec (record s { network = Network.unpend same links channel s.network })

  -- `session_outbound::attach_handshake_protocols`
  unfoldable pub attach_handshake_protocols :
      Link Address → ℕ → Session same links → Session same links
  attach_handshake_protocols channel negotiated_version s =
      does same links
        (attaches_handshake channel.pointer (
          handshake_options settings settings.services (minimum_services services settings.services)
            settings.relay_transactions negotiated_version))
        (awaits same links (handshake channel) s)

  -- The handler of the start of a channel: `handle_start`, bound by `register_channel`.
  abbrev pub registered : ℕ → Link Address → Code → Session same links → Session same links
  registered version channel =
      handle_start same links (handle_channel_start version channel) handle_channel_stop channel

  -- The unpend handler, bound by `start_channel`.
  abbrev pub unpend_handler : ℕ → Link Address → Code → Session same links → Session same links
  unpend_handler version channel = do_unpend (registered version channel) channel

  -- `session_outbound::start_channel`: the code of the channel's start, the random nonce and the
  -- negotiated version are what channel and libbitcoin give. `set_notify` acts on the channel that the
  -- pointer shares.
  unfoldable pub start_channel :
      Code → ℕ → ℕ → Link Address → Session same links → Session same links
  start_channel started nonce version channel s =
      let (next, ec) = Network.pend same links channel s.network in
      let pended = record s { network = next } in
      if is_error ec
      then unpend_handler version channel ec pended
      else (let announced = record channel { notify = s.notify_on_connect } in
          Sessions.start_channel same links
            (handle_starting same links (attach_handshake_protocols announced version)
              (unpend_handler version announced))
            started nonce channel pended)

  -- `session_outbound::handle_connect`, with the channel where there is no error.
  unfoldable pub handle_connect :
      Code → Code → ℕ → ℕ → Link Address → Session same links → Session same links
  handle_connect ec started nonce version channel s =
      if is_error ec
      then does same links (delays (cycle_delay settings.connect_timeout_seconds ec))
          (awaits same links retry s)
      else register_channel same links (start_channel started nonce version channel)
          (handle_channel_start version channel) handle_channel_stop s

  -- One wait ends; nothing happens if the end is not one of that wait.
  unfoldable pub dispatch :
      Wait Address → End Address → Session same links → Session same links → Session same links
  dispatch (starting ec) begins s t = handle_started ec t
  dispatch batch (connects ec started nonce version channel) s t =
      handle_connect ec started nonce version channel t
  dispatch retry wakes s t = new_connection t
  dispatch (handshake channel) (shakes ec version) s t =
      handle_handshake same links
        (handshake_complete same links (unpend_handler version channel) channel)
        (unpend_handler version channel) ec t
  dispatch (channel_stop channel) (stops ec) s t =
      handle_remove same links handle_channel_stop channel ec t
  dispatch _ _ s t = s

  unfoldable pub end_wait :
      Option (Wait Address) → ℕ → End Address → Session same links → Session same links
  end_wait none i e s = s
  end_wait (some w) i e s = dispatch w e s (record s { waits = erase_at i s.waits })

  unfoldable pub step : OutboundEvent Address → Session same links → Session same links
  unfolding end_wait
  step (ends i e) s = end_wait (get_elem? s.waits i) i e s
  step (halts ec) s = Sessions.handle_stop same links ec s

  unfoldable pub run : List (OutboundEvent Address) → Session same links → Session same links
  run [] s = s
  run (e ∷ es) s = run es (step e s)
