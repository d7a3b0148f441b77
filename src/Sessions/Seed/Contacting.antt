-- ===== src/Sessions/Seed/Contacting.antt =====
-- The answers of the channels that seed: src/sessions/session_seed.cpp.
use bitprim_network.Base.{ℕ, refl, false, List, ◌∷◌, leb, arith, if◌then◌else◌, if-both}
use bitprim_network.Code.{Code, service_stopped, address_blocked, is_error}
use bitprim_network.Network.{Link}
use bitprim_network.Sessions.{
  Deed, SessionSettings, blacklisted, attaches_ping_31402, attaches_ping_60001, attaches_reject,
  attaches_seed, starts_channel,
}
use bitprim_network.Sessions.Library.{CountSynchronizers}
use bitprim_network.Sessions.Seed.{
  Seeding, registering, seeding, does, attach_protocols, handle_channel_start, handle_start,
  register_channel, handle_connect,
}
use bitprim_network.Sessions.Seed.Counting.{
  Owes-moved, awaits-IsRunning, join_handler-IsRunning, IsRunning, Owes, IsSame,
}

module _ (join : CountSynchronizers) {Address : Type 0} (ip : Address → ℕ)
    (settings : SessionSettings Address) where
  reported : Link Address → ℕ → Seeding join Address → Seeding join Address
  reported c version s =
      let pinged =
        does join ip settings
          (if leb settings.bip31 version
            then attaches_ping_60001 c.pointer
            else attaches_ping_31402 c.pointer)
          s in
      does join ip settings (attaches_seed c.pointer) (
        if leb settings.bip61 version
        then does join ip settings (attaches_reject c.pointer) pinged
        else pinged)

  reported-IsSame :
      (c : Link Address) (version : ℕ) (s : Seeding join Address)
      → IsSame join ip settings s (reported c version s)
  unfolding reported
  reported-IsSame c version s = record {
    joined = ground arith;
    calls = ground arith;
    start_size = ground arith;
    pended = ground arith;
    unpended = ground arith;
    waits = ground arith;
  }

  handle_channel_start-IsRunning :
      (ec : Code) (c : Link Address) (version : ℕ) (s : Seeding join Address)
      → Owes join ip settings 0 s
      → IsRunning join ip settings 0 (handle_channel_start join ip settings ec c version s)
  unfolding handle_channel_start attach_protocols reported
  handle_channel_start-IsRunning ec c version s v =
      if-both (IsRunning join ip settings 0) (is_error ec)
        (λ _. join_handler-IsRunning join ip settings ec s 0 v)
        (λ _.
          awaits-IsRunning join ip settings (seeding c) (reported c version s) 0 (λ p. refl)
            (Owes-moved join ip settings s _ (reported-IsSame c version s) v))

  pub handle_start-IsRunning :
      (ec : Code) (c : Link Address) (version : ℕ) (s : Seeding join Address)
      → Owes join ip settings 0 s
      → IsRunning join ip settings 0 (handle_start join ip settings ec c version s)
  unfolding handle_start
  handle_start-IsRunning ec c version s v = handle_channel_start-IsRunning ec c version _ (
      if-both (Owes join ip settings 0) (is_error ec)
        (λ _.
          Owes-moved join ip settings s _
            (record {
              joined = refl;
              calls = refl;
              start_size = refl;
              pended = refl;
              unpended = refl;
              waits = refl;
            })
            v)
        (λ _. v))

  register_channel-IsRunning :
      (started : Code) (nonce version : ℕ) (c : Link Address) (s : Seeding join Address)
      → Owes join ip settings 0 s
      → IsRunning join ip settings 0 (register_channel join ip settings started nonce version c s)
  unfolding register_channel
  register_channel-IsRunning started nonce version c s v =
      let began : Seeding join Address =
        does join ip settings (starts_channel c.pointer false nonce) s in
      let same : (ds : List Deed) → Owes join ip settings 0 (record s { deeds = ds }) = λ ds.
        Owes-moved join ip settings s _
          (record {
            joined = refl;
            calls = refl;
            start_size = refl;
            pended = refl;
            unpended = refl;
            waits = refl;
          })
          v in
      if-both (IsRunning join ip settings 0) s.stopped
        (λ _. handle_channel_start-IsRunning service_stopped c version s v)
        (λ _.
          if-both (IsRunning join ip settings 0) (is_error started)
            (λ _. handle_start-IsRunning started c version began (same began.deeds))
            (λ _. awaits-IsRunning join ip settings (registering c) _ 0 (λ p. refl) (same _)))

  pub handle_connect-IsRunning :
      (ec started : Code) (nonce version : ℕ) (c : Link Address) (connector : ℕ)
      (s : Seeding join Address)
      → Owes join ip settings 0 (record s { unpended = connector ∷ s.unpended })
      → IsRunning join ip settings 0
          (handle_connect join ip settings ec started nonce version c connector s)
  unfolding handle_connect
  handle_connect-IsRunning ec started nonce version c connector s v =
      if-both (IsRunning join ip settings 0) (is_error ec)
        (λ _. join_handler-IsRunning join ip settings ec _ 0 v)
        (λ _.
          if-both (IsRunning join ip settings 0) (blacklisted ip settings.blacklists c.authority)
            (λ _. join_handler-IsRunning join ip settings address_blocked _ 0 v)
            (λ _. register_channel-IsRunning started nonce version c _ v))
