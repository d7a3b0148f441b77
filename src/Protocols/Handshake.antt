-- ===== src/Protocols/Handshake.antt =====
-- What can happen to a handshake, in any order:
-- src/protocols/protocol_version_31402.cpp and protocol_version_70002.cpp.
pub mod Joining
pub mod Receiving
pub mod Steps
pub mod Outcome
pub mod Welcome
pub mod Friendly
use bitprim_network.Base.{
  ℕ, ◌≡◌, ◌⊎◌, inl, inr, refl, Bool, true, false, List, [], ◌∷◌, Option, none, some, ◌||◌, ◌≤◌, ◌-◌,
  ◌++◌, min, length, ◌==◌, if◌then◌else◌, Bool-cases, Option-cases, arith, ltb, ◌&&◌, not, if-both,
  subst, sym, ◌∙◌, ap,
}
use bitprim_network.Code.{Code, success, channel_stopped, channel_timeout, is_error}
use bitprim_network.Protocols.{
  Protocol, VersionMessage, Output, ReasonCode, obsolete, duplicate, reason, sends, subscribes_stop,
  stops, sets_negotiated_version, sets_peer_version, stores, completes, send, emit, construct,
  verack_message,
}
use bitprim_network.Protocols.Library.{Synchronizers}
use bitprim_network.Protocols.Events
use bitprim_network.Protocols.Timer
use bitprim_network.Protocols.Version.{
  Terms, Level, from_31402, from_70002, Handshake, join_handler, sufficient_peer, reject_peer,
  check_peer, start, set_event, accept_version, handle_receive_version, handle_receive_verack,
  handle_receive_reject, answer_reject,
}

-- The codes that the handler of the starter was called with, the latest first.
abbrev pub completions : {Address : Type 0} → List (Output Address) → List Code
completions [] = []
completions (completes ec ∷ os) = ec ∷ completions os
completions (_ ∷ os) = completions os

-- The peer's version message, as it was set last.
abbrev pub peer : {Address : Type 0} → List (Output Address) → Option (VersionMessage Address)
peer [] = none
peer (sets_peer_version m ∷ os) = some m
peer (_ ∷ os) = peer os

-- The negotiated version, as it was set last.
abbrev pub negotiated : {Address : Type 0} → List (Output Address) → Option ℕ
negotiated [] = none
negotiated (sets_negotiated_version v ∷ os) = some v
negotiated (_ ∷ os) = negotiated os

-- What can happen to a handshake.
pub data HandshakeEvent (Address : Type 0) : Type 0 where
  gets_version : Code → VersionMessage Address → HandshakeEvent Address
  gets_verack : Code → HandshakeEvent Address
  gets_reject : Code → Bool → ReasonCode → HandshakeEvent Address
  timer_fires : HandshakeEvent Address
  channel_stops : Code → HandshakeEvent Address

-- A verack was received.
abbrev pub has_verack : {Address : Type 0} → List (HandshakeEvent Address) → Bool
has_verack [] = false
has_verack (gets_verack ec ∷ es) = not (is_error ec) || has_verack es
has_verack (_ ∷ es) = has_verack es

-- The message was received as a version, without an error.
abbrev pub Received :
    {Address : Type 0} → List (HandshakeEvent Address) → VersionMessage Address → Type 0
Received [] message = ⊥
Received (gets_version ec m ∷ es) message =
    ((is_error ec ≡ false) × (m ≡ message)) ⊎ Received es message
Received (_ ∷ es) message = Received es message

module _ {Address : Type 0} (join : Synchronizers) (t : Terms Address) where
  -- A message comes only to a handler that is subscribed, and ends the subscription.
  unfoldable pub step :
      Level
      → HandshakeEvent Address
      → Protocol Address (Handshake join)
      → Protocol Address (Handshake join)
  step level (gets_version ec m) p =
      if p.own.awaits_version
      then handle_receive_version join t level ec m
          (record p { own = record p.own { awaits_version = false } })
      else p
  step level (gets_verack ec) p =
      if p.own.awaits_verack
      then handle_receive_verack join t ec
          (record p { own = record p.own { awaits_verack = false } })
      else p
  step level (gets_reject ec of_version why) p =
      if p.own.awaits_reject
      then (let (q, again) =
            handle_receive_reject join t ec of_version why
              (record p { own = record p.own { awaits_reject = false } }) in
          record q { own = record q.own { awaits_reject = again } })
      else p
  step level timer_fires p = Timer.fire false (join_handler join t) p
  step level (channel_stops ec) p = Timer.handle_stopped false (join_handler join t) ec p

  unfoldable pub run :
      Level
      → List (HandshakeEvent Address)
      → Protocol Address (Handshake join)
      → Protocol Address (Handshake join)
  run level [] p = p
  run level (e ∷ es) p = run level es (step level e p)

  -- The peer's version message that was kept is sufficient and one of those that are expected, and the
  -- lower one of the two versions is agreed on.
  abbrev pub Agrees : (VersionMessage Address → Type 0) → List (Output Address) → Type 0
  Agrees Expected os =
      (m : VersionMessage Address) × (peer os ≡ some m)
      × (negotiated os ≡ some (min m.value t.own_version))
      × (sufficient_peer join t m ≡ true)
      × Expected m
