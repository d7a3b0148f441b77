-- ===== src/Sessions/Seed.antt =====
-- The seed session: src/sessions/session_seed.cpp.
--
-- `waits` are the calls that others make later, each once: of `handle_started` on another thread, of
-- `handle_connect` by a connector, of `handle_channel_start` by the registration of a channel, and of the
-- join handler by the seed protocol of a channel.
pub mod Counting
pub mod Contacting
pub mod Outcome
use bitprim_network.Base.{
  ℕ, zero, suc, ◌+◌, Bool, true, false, not, Option, none, some, List, [], ◌∷◌, ◌++◌, ◌==◌, leb,
  min, max_size_t, length, get_elem?, erase_at, if◌then◌else◌,
}
use bitprim_network.Code.{
  Code, success, service_stopped, channel_stopped, operation_failed, address_blocked,
  peer_throttling, is_error,
}
use bitprim_network.Network.{Link}
use bitprim_network.Sessions.{
  Deed, SessionSettings, HandshakeOptions, handshake_options, blacklisted, subscribes_stop,
  attaches_handshake, attaches_ping_31402, attaches_ping_60001, attaches_reject, attaches_seed,
  starts_channel, stops_channel,
}
use bitprim_network.Sessions.Library.{CountSynchronizers}

pub data SeedWait (Address : Type 0) : Type 0 where
  going_on : Code → SeedWait Address
  connecting : ℕ → SeedWait Address
  registering : Link Address → SeedWait Address
  seeding : Link Address → SeedWait Address

-- What ends a wait: the thread is there; the connector has a code and a channel, with what its start will
-- need (the code of the start, the random nonce, the negotiated version); the registration has a code, and
-- the channel a negotiated version; the seed protocol has a code.
pub data SeedEnd (Address : Type 0) : Type 0 where
  goes_on : SeedEnd Address
  connects : Code → Code → ℕ → ℕ → Link Address → SeedEnd Address
  registers : Code → ℕ → SeedEnd Address
  seeds : Code → SeedEnd Address

-- What can happen to the session: a wait ends; the pool gets another number of addresses; the node stops.
pub data SeedEvent (Address : Type 0) : Type 0 where
  ends : ℕ → SeedEnd Address → SeedEvent Address
  counts : ℕ → SeedEvent Address
  halts : SeedEvent Address

-- `address_count` is the number of addresses in the pool; `calls` are the calls of the handler of `start`,
-- the latest first, each with the number of addresses at that time.
pub record Seeding (join : CountSynchronizers) (Address : Type 0) : Type 0 where
  pub stopped : Bool
  pub address_count : ℕ
  pub start_size : ℕ
  pub made : ℕ
  pub joined : join.State
  pub pended : List ℕ
  pub unpended : List ℕ
  pub deeds : List Deed
  pub waits : List (SeedWait Address)
  pub calls : List (Code × ℕ)

module _ (join : CountSynchronizers) {Address : Type 0} (ip : Address → ℕ)
    (settings : SessionSettings Address) where
  abbrev pub call_handler : Code → Seeding join Address → Seeding join Address
  call_handler ec s = record s { calls = (ec, s.address_count) ∷ s.calls }

  abbrev pub does : Deed → Seeding join Address → Seeding join Address
  does d s = record s { deeds = d ∷ s.deeds }

  abbrev pub awaits : SeedWait Address → Seeding join Address → Seeding join Address
  awaits w s = record s { waits = s.waits ++ w ∷ [] }

  -- `session_seed::handle_complete`
  unfoldable pub handle_complete : Seeding join Address → Seeding join Address
  handle_complete s =
      call_handler
        (if leb (min (s.start_size + 1) max_size_t) s.address_count
          then success
          else peer_throttling)
        s

  -- A call of the join handler, which calls `handle_complete` at the last.
  unfoldable pub join_handler : Code → Seeding join Address → Seeding join Address
  unfolding handle_complete
  join_handler ec s =
      let (next, result) = join.call ec s.joined in
      elim result [
        | none ↦ record s { joined = next }
        | some code ↦ handle_complete (record s { joined = next })
      ]

  -- `session_seed::start_seed`
  unfoldable pub start_seed : Seeding join Address → Seeding join Address
  unfolding join_handler
  start_seed s =
      if s.stopped
      then join_handler channel_stopped s
      else awaits (connecting s.made) (record s { made = s.made + 1; pended = s.made ∷ s.pended })

  -- The loop of `session_seed::start_seeding`.
  unfoldable pub start_seeds : ℕ → Seeding join Address → Seeding join Address
  start_seeds zero s = s
  start_seeds (suc n) s = start_seeds n (start_seed s)

  -- `session_seed::start_seeding`
  unfoldable pub start_seeding : ℕ → Seeding join Address → Seeding join Address
  start_seeding start_size s =
      start_seeds settings.seeds
        (record s { start_size = start_size; joined = join.synchronize settings.seeds })

  -- `session_seed::handle_started`
  unfoldable pub handle_started : Code → Seeding join Address → Seeding join Address
  handle_started ec s =
      if is_error ec
      then call_handler ec s
      else if not (s.address_count == 0)
      then call_handler success s
      else if settings.seeds == 0
      then call_handler operation_failed s
      else start_seeding s.address_count s

  -- `session_seed::start`, with `session::start` of the base class. A thread calls `handle_started` later.
  unfoldable pub start : Seeding join Address → Seeding join Address
  start s =
      if settings.host_pool_capacity == 0
      then call_handler success s
      else if not s.stopped
      then awaits (going_on operation_failed) s
      else awaits (going_on success) (does subscribes_stop (record s { stopped = false }))

  -- `session_seed::attach_protocols`, for a channel of that negotiated version.
  unfoldable pub attach_protocols : Link Address → ℕ → Seeding join Address → Seeding join Address
  attach_protocols channel version s =
      let pinged =
        does
          (if leb settings.bip31 version
            then attaches_ping_60001 channel.pointer
            else attaches_ping_31402 channel.pointer)
          s in
      let reported =
        if leb settings.bip61 version
        then does (attaches_reject channel.pointer) pinged
        else pinged in
      awaits (seeding channel) (does (attaches_seed channel.pointer) reported)

  -- `session_seed::handle_channel_start`
  unfoldable pub handle_channel_start :
      Code → Link Address → ℕ → Seeding join Address → Seeding join Address
  handle_channel_start ec channel version s =
      if is_error ec then join_handler ec s else attach_protocols channel version s

  -- `session_seed::attach_handshake_protocols`, the handshake that the registration attaches: neither
  -- services nor relay are offered or asked for.
  unfoldable pub attach_handshake_protocols : Link Address → ℕ → Deed
  attach_handshake_protocols channel negotiated_version =
      attaches_handshake channel.pointer (handshake_options settings 0 0 false negotiated_version)

  -- `session::handle_start` of the base class, with `handle_channel_start` as its handler of the start.
  unfoldable pub handle_start :
      Code → Link Address → ℕ → Seeding join Address → Seeding join Address
  unfolding handle_channel_start
  handle_start ec channel version s =
      handle_channel_start ec channel version
        (if is_error ec then does (stops_channel channel.pointer ec) s else s)

  -- `session::register_channel` of the base class: the channel starts, and gets its handshake.
  unfoldable pub register_channel :
      Code → ℕ → ℕ → Link Address → Seeding join Address → Seeding join Address
  unfolding handle_start attach_handshake_protocols
  register_channel started nonce version channel s =
      if s.stopped
      then handle_channel_start service_stopped channel version s
      else (let began = does (starts_channel channel.pointer false nonce) s in
          if is_error started
          then handle_start started channel version began
          else awaits (registering channel)
              (does (attach_handshake_protocols channel version) began))

  -- `session_seed::handle_connect`
  unfoldable pub handle_connect :
      Code → Code → ℕ → ℕ → Link Address → ℕ → Seeding join Address → Seeding join Address
  handle_connect ec started nonce version channel connector s =
      let freed = record s { unpended = connector ∷ s.unpended } in
      if is_error ec
      then join_handler ec freed
      else if blacklisted ip settings.blacklists channel.authority
      then join_handler address_blocked freed
      else register_channel started nonce version channel freed

  -- One wait ends; nothing happens if the end is not one of that wait.
  unfoldable pub dispatch :
      SeedWait Address
      → SeedEnd Address
      → Seeding join Address
      → Seeding join Address
      → Seeding join Address
  dispatch (going_on ec) goes_on s t = handle_started ec t
  dispatch (connecting connector) (connects ec started nonce version channel) s t =
      handle_connect ec started nonce version channel connector t
  dispatch (registering channel) (registers ec version) s t = handle_start ec channel version t
  dispatch (seeding channel) (seeds ec) s t = join_handler ec t
  dispatch _ _ s t = s

  unfoldable pub end_wait :
      Option (SeedWait Address) → ℕ → SeedEnd Address → Seeding join Address → Seeding join Address
  end_wait none i e s = s
  end_wait (some w) i e s = dispatch w e s (record s { waits = erase_at i s.waits })

  unfoldable pub step : SeedEvent Address → Seeding join Address → Seeding join Address
  unfolding end_wait
  step (ends i e) s = end_wait (get_elem? s.waits i) i e s
  step (counts n) s = record s { address_count = n }
  step halts s = record s { stopped = true }

  unfoldable pub run : List (SeedEvent Address) → Seeding join Address → Seeding join Address
  run [] s = s
  run (e ∷ es) s = run es (step e s)
