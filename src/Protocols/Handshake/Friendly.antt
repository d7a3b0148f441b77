-- ===== src/Protocols/Handshake/Friendly.antt =====
-- A handshake with a peer that means well ends well: src/protocols/protocol_version_31402.cpp and
-- protocol_version_70002.cpp.
use bitprim_network.Base.{
  ◌≡◌, refl, Bool, true, false, ◌||◌, List, [], ◌∷◌, All, arith, subst, sym, ◌∙◌, if◌then◌else◌,
}
use bitprim_network.Code.{success}
use bitprim_network.Protocols.{Protocol, construct}
use bitprim_network.Protocols.Library.{Synchronizers}
use bitprim_network.Protocols.Events
use bitprim_network.Protocols.Timer
use bitprim_network.Protocols.Version.{Terms, Level, Handshake, start}
use bitprim_network.Protocols.Handshake.{
  completions, HandshakeEvent, gets_version, gets_verack, gets_reject, timer_fires, channel_stops,
  has_verack, step, run,
}
use bitprim_network.Protocols.Handshake.Welcome.{
  handle_receive_version_lem, version-IsAt, verack-IsAt, rejected-IsAt, IsAt, IsFriendly,
  IsConfigured,
}

-- A version message has come.
abbrev pub has_version : {Address : Type 0} → List (HandshakeEvent Address) → Bool
has_version [] = false
has_version (gets_version ec m ∷ es) = true
has_version (_ ∷ es) = has_version es

-- Whether a version message has come by now, and whether a verack has.
abbrev pub version_after : {Address : Type 0} → Bool → HandshakeEvent Address → Bool
version_after version (gets_version ec m) = true
version_after version _ = version

abbrev pub verack_after : {Address : Type 0} → Bool → HandshakeEvent Address → Bool
verack_after verack (gets_verack ec) = true
verack_after verack _ = verack

module _ {Address : Type 0} (join : Synchronizers) (t : Terms Address) where
  again-IsAt :
      (b : Bool) (version verack : Bool) (p q : Protocol Address (Handshake join))
      → b ≡ false
      → IsAt join t version verack p
      → IsAt join t version verack (if b then q else p)
  again-IsAt b version verack p q e v = rw e v

  first-IsAt :
      (b : Bool) (version verack : Bool) (p q r : Protocol Address (Handshake join))
      → b ≡ true
      → q ≡ r
      → IsAt join t version verack r
      → IsAt join t version verack (if b then q else p)
  first-IsAt b version verack p q r e f v = rw (e, f) v

  -- A message that comes twice finds its subscription gone.
  step-IsAt :
      (version verack : Bool) (level : Level) (e : HandshakeEvent Address)
      (p : Protocol Address (Handshake join))
      → IsConfigured join t
      → IsFriendly join t e
      → IsAt join t version verack p
      → IsAt join t (version_after version e) (verack_after verack e) (step join t level e p)
  unfolding step
  step-IsAt true verack level (gets_version ec m) p known good v =
      again-IsAt p.own.awaits_version true verack p _ v.for_version v
  step-IsAt false verack level (gets_version ec m) p known (good, enough) v =
      first-IsAt p.own.awaits_version true verack p _ _ v.for_version
        (rw good (handle_receive_version_lem join t level m _ known enough v.listens))
        (version-IsAt join t m verack p v)
  step-IsAt version true level (gets_verack ec) p known good v =
      again-IsAt p.own.awaits_verack version true p _ v.for_verack v
  step-IsAt version false level (gets_verack ec) p known good v =
      first-IsAt p.own.awaits_verack version true p _ _ v.for_verack (rw good refl)
        (verack-IsAt join t version p v)
  step-IsAt version verack level (gets_reject ec of_version why) p known good v =
      rejected-IsAt join t version verack ec of_version why level p good v
  step-IsAt version verack level timer_fires p known good v = elim good [ ]
  step-IsAt version verack level (channel_stops ec) p known good v = elim good [ ]

  IsAt-both :
      (version verack : Bool) (p : Protocol Address (Handshake join))
      → version ≡ true
      → verack ≡ true
      → IsAt join t version verack p
      → IsAt join t true true p
  IsAt-both version verack p e f v =
      subst (λ x. IsAt join t x true p) e (subst (λ x. IsAt join t version x p) f v)

  has_version_lem :
      (version : Bool) (e : HandshakeEvent Address) (es : List (HandshakeEvent Address))
      → (version || has_version (e ∷ es)) ≡ (version_after version e || has_version es)
  has_version_lem version (gets_version ec m) es = ground arith
  has_version_lem version (gets_verack ec) es = refl
  has_version_lem version (gets_reject ec b why) es = refl
  has_version_lem version timer_fires es = refl
  has_version_lem version (channel_stops ec) es = refl

  has_verack_lem :
      (verack : Bool) (e : HandshakeEvent Address) (es : List (HandshakeEvent Address))
      → IsFriendly join t e
      → (verack || has_verack (e ∷ es)) ≡ (verack_after verack e || has_verack es)
  has_verack_lem verack (gets_version ec m) es good = refl
  has_verack_lem verack (gets_verack ec) es good = rw good (ground arith)
  has_verack_lem verack (gets_reject ec b why) es good = refl
  has_verack_lem verack timer_fires es good = refl
  has_verack_lem verack (channel_stops ec) es good = refl

  run-IsAt :
      (version verack : Bool) (level : Level) (es : List (HandshakeEvent Address))
      (p : Protocol Address (Handshake join))
      → IsConfigured join t
      → All (IsFriendly join t) es
      → (version || has_version es) ≡ true
      → (verack || has_verack es) ≡ true
      → IsAt join t version verack p
      → IsAt join t true true (run join t level es p)
  unfolding run
  run-IsAt version verack level [] p known v has had at =
      IsAt-both version verack p (ground (arith, has)) (ground (arith, had)) at
  run-IsAt version verack level (e ∷ es) p known (good, v) has had at =
      run-IsAt (version_after version e) (verack_after verack e) level es (step join t level e p)
        known v (sym (has_version_lem version e es) ∙ has)
        (sym (has_verack_lem verack e es good) ∙ had)
        (step-IsAt version verack level e p known good at)

  start-IsAt :
      (level : Level) (own : Handshake join)
      → IsAt join t false false (start join t level (construct own))
  unfolding start Timer.start Timer.reset_timer Timer.stopped Events.start Events.stopped
  start-IsAt level own = record {
    listens = ground arith;
    for_version = ground arith;
    for_verack = ground arith;
    left = ground (arith, join.synchronize_lem 2);
    completed = ground arith;
  }

  -- Where the settings allow known versions only, a new handshake that was started ends with success, and
  -- its handler is called just once, as soon as a peer that means well has sent its version and its verack:
  -- in either order, once or several times each, and whatever harmless rejections come along.
  pub completions-run-IsFriendly :
      (level : Level) (own : Handshake join) (es : List (HandshakeEvent Address))
      → IsConfigured join t
      → All (IsFriendly join t) es
      → has_version es ≡ true
      → has_verack es ≡ true
      → completions (run join t level es (start join t level (construct own))).outputs
        ≡ success ∷ []
  completions-run-IsFriendly level own es known v has had =
      (run-IsAt false false level es _ known v has had (start-IsAt level own)).completed
