-- ===== src/Protocols/Handshake/Outcome.antt =====
-- What a handshake comes to, whatever the peer sends: src/protocols/protocol_version_31402.cpp and
-- src/protocols/protocol_version_70002.cpp.
use bitprim_network.Base.{
  ◌≡◌, inl, inr, refl, Bool, true, false, List, [], ◌∷◌, ◌||◌, ◌≤◌, length, arith,
}
use bitprim_network.Code.{success}
use bitprim_network.Protocols.{Protocol, VersionMessage, construct}
use bitprim_network.Protocols.Library.{Synchronizers}
use bitprim_network.Protocols.Version.{Terms, Level, Handshake, start}
use bitprim_network.Protocols.Handshake.{
  completions, has_verack, HandshakeEvent, gets_version, gets_verack, gets_reject, timer_fires,
  channel_stops, step, run, Agrees, Received,
}
use bitprim_network.Protocols.Handshake.Joining.{IsJoining}
use bitprim_network.Protocols.Handshake.Steps.{seen_after, step-IsJoining, start-IsJoining}

module _ {Address : Type 0} (join : Synchronizers) (t : Terms Address)
    (Expected : VersionMessage Address → Type 0) where
  or_false : (b : Bool) → (b || false) ≡ b
  or_false b = ground arith

  has_verack_lem :
      (verack : Bool) (e : HandshakeEvent Address) (es : List (HandshakeEvent Address))
      → (verack || has_verack (e ∷ es)) ≡ (seen_after verack e || has_verack es)
  has_verack_lem verack (gets_version ec m) es = refl
  has_verack_lem verack (gets_verack ec) es = ground arith
  has_verack_lem verack (gets_reject ec b why) es = refl
  has_verack_lem verack timer_fires es = refl
  has_verack_lem verack (channel_stops ec) es = refl

  now-Received :
      (e : HandshakeEvent Address) (es : List (HandshakeEvent Address)) (m : VersionMessage Address)
      → Received (e ∷ []) m
      → Received (e ∷ es) m
  now-Received (gets_version ec m') es m (inl r) = inl r
  now-Received (gets_version ec m') es m (inr r) = absurd r
  now-Received (gets_verack ec) es m r = absurd r
  now-Received (gets_reject ec b why) es m r = absurd r
  now-Received timer_fires es m r = absurd r
  now-Received (channel_stops ec) es m r = absurd r

  later-Received :
      (e : HandshakeEvent Address) (es : List (HandshakeEvent Address)) (m : VersionMessage Address)
      → Received es m
      → Received (e ∷ es) m
  later-Received (gets_version ec m') es m r = inr r
  later-Received (gets_verack ec) es m r = r
  later-Received (gets_reject ec b why) es m r = r
  later-Received timer_fires es m r = r
  later-Received (channel_stops ec) es m r = r

  run-IsJoining :
      (verack : Bool) (level : Level) (es : List (HandshakeEvent Address))
      (p : Protocol Address (Handshake join))
      → ((m : VersionMessage Address) → Received es m → Expected m)
      → IsJoining join t Expected verack p
      → IsJoining join t Expected (verack || has_verack es) (run join t level es p)
  unfolding run
  run-IsJoining verack level [] p known v = rw (or_false verack) v
  run-IsJoining verack level (e ∷ es) p known v = rw (has_verack_lem verack e es) (
      run-IsJoining (seen_after verack e) level es (step join t level e p)
        (λ m r. known m (later-Received e es m r))
        (step-IsJoining join t Expected verack level e p (λ m r. known m (now-Received e es m r))
          v))

module _ {Address : Type 0} (join : Synchronizers) (t : Terms Address) where
  -- Whatever happens to a new handshake after its start, its handler is called once at most.
  pub completions-run :
      (level : Level) (own : Handshake join) (es : List (HandshakeEvent Address))
      → length (completions (run join t level es (start join t level (construct own))).outputs) ≤ 1
  completions-run level own es =
      let v =
        run-IsJoining join t (Received es) false level es _ (λ m r. r)
          (start-IsJoining join t (Received es) level own) in
      ground (arith, v.once)

  -- If after the start of a new handshake, whatever happens, its handler was called with success
  -- alone, then a verack was received, the message that was kept as the peer's is one that was received
  -- as its version without an error and is sufficient, and the negotiated version is the lower one of the
  -- version in it and of ours.
  pub run-Agrees :
      (level : Level) (own : Handshake join) (es : List (HandshakeEvent Address))
      → completions (run join t level es (start join t level (construct own))).outputs
        ≡ success ∷ []
      → Agrees join t
          (Received es)
          (run join t level es (start join t level (construct own))).outputs
        × (has_verack es ≡ true)
  run-Agrees level own es done =
      (run-IsJoining join t (Received es) false level es _ (λ m r. r)
          (start-IsJoining join t (Received es) level own)).whole
        done
