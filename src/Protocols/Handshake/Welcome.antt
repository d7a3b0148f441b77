-- ===== src/Protocols/Handshake/Welcome.antt =====
-- What a peer that means well sends, and what the handshake makes of it:
-- src/protocols/protocol_version_31402.cpp and protocol_version_70002.cpp.
use bitprim_network.Base.{
  ◌≡◌, Bool, true, false, not, ◌&&◌, ltb, min, [], ◌∷◌, arith, if◌then◌else◌, if-both, Option-cases,
  inl, inr,
}
use bitprim_network.Code.{Code, success}
use bitprim_network.Protocols.{
  Protocol, VersionMessage, ReasonCode, obsolete, duplicate, reason, sets_negotiated_version,
  sets_peer_version, emit, send, verack_message,
}
use bitprim_network.Protocols.Library.{Synchronizers}
use bitprim_network.Protocols.Events
use bitprim_network.Protocols.Timer
use bitprim_network.Protocols.Version.{
  Terms, Level, from_31402, from_70002, Handshake, join_handler, sufficient_peer, reject_peer,
  check_peer, set_event, accept_version, handle_receive_version, handle_receive_verack,
  handle_receive_reject, answer_reject,
}
use bitprim_network.Protocols.Handshake.{
  completions, HandshakeEvent, gets_version, gets_verack, gets_reject, step,
}
use bitprim_network.Protocols.Handshake.Joining.{
  joined-set_event, outputs-set_event, awaits-set_event,
}

module _ {Address : Type 0} (join : Synchronizers) (t : Terms Address) where
  -- The versions that the settings allow are known.
  pub record IsConfigured : Type 0 where
    pub minimum_known : ltb t.protocol_minimum t.level_minimum ≡ false
    pub maximum_known : ltb t.level_maximum t.protocol_maximum ≡ false
    pub in_order : ltb t.protocol_maximum t.protocol_minimum ≡ false

  -- What comes from a peer that means well: a version that is sufficient, a verack, and no rejection of
  -- our version as obsolete or duplicate.
  abbrev pub IsFriendly : HandshakeEvent Address → Type 0
  IsFriendly (gets_version ec m) = (ec ≡ success) × (sufficient_peer join t m ≡ true)
  IsFriendly (gets_verack ec) = ec ≡ success
  IsFriendly (gets_reject ec of_version (reason n)) = ec ≡ success
  IsFriendly (gets_reject ec of_version why) = (ec ≡ success) × (of_version ≡ false)
  IsFriendly _ = ⊥

  -- Where the handshake is, by whether the version and the verack have come.
  pub record IsAt (version verack : Bool) (p : Protocol Address (Handshake join)) : Type 0 where
    pub listens : p.handler ≡ true
    pub for_version : p.own.awaits_version ≡ not version
    pub for_verack : p.own.awaits_verack ≡ not verack
    pub left :
        join.remaining p.own.joined
        ≡ (if version then if verack then 0 else 1 else if verack then 1 else 2)
    pub completed : completions p.outputs ≡ (if version && verack then success ∷ [] else [])

  handler-set_event :
      (p : Protocol Address (Handshake join))
      → p.handler ≡ true
      → (set_event join t success p).handler ≡ true
  unfolding Timer.set_event Events.set_event Timer.handle_notify join_handler Events.stopped_by
      Events.stopped
  handler-set_event p on = elim (Option-cases (join.call success p.own.joined).1) [
    | inl e ↦ ground arith
    | inr (c, e) ↦ ground arith
  ]

  check_peer_lem :
      (level : Level) (m : VersionMessage Address) (p : Protocol Address (Handshake join))
      → sufficient_peer join t m ≡ true
      → check_peer join t level m p ≡ (p, true)
  unfolding check_peer sufficient_peer reject_peer
  check_peer_lem from_31402 m p e = ground (arith, e)
  check_peer_lem from_70002 m p e = ground (arith, e)

  pub handle_receive_version_lem :
      (level : Level) (m : VersionMessage Address) (p : Protocol Address (Handshake join))
      → IsConfigured
      → sufficient_peer join t m ≡ true
      → p.handler ≡ true
      → handle_receive_version join t level success m p ≡ accept_version join t m p
  unfolding handle_receive_version Timer.stopped_by Events.stopped_by Events.stopped
  handle_receive_version_lem level m p known enough on =
      let c = check_peer_lem level m p enough in
      ground (arith, on, c, known.minimum_known, known.maximum_known, known.in_order)

  pub version-IsAt :
      (m : VersionMessage Address) (verack : Bool) (p : Protocol Address (Handshake join))
      → IsAt false verack p
      → IsAt true verack
          (accept_version join t m (record p { own = record p.own { awaits_version = false } }))
  unfolding accept_version
  version-IsAt m verack p v =
      let q : Protocol Address (Handshake join) = record p {
        own = record p.own { awaits_version = false };
      } in
      let b : Protocol Address (Handshake join) = send verack_message (
        emit (sets_peer_version m)
          (emit (sets_negotiated_version (min m.value t.own_version)) q)) in
      let x = joined-set_event join t success b v.listens in
      let y = outputs-set_event join t success b v.listens in
      let z = awaits-set_event join t success b v.listens in
      record {
        listens = handler-set_event b v.listens;
        for_version = ground (arith, z);
        for_verack = ground (arith, z, v.for_verack);
        left = ground (arith, x, v.left);
        completed = ground (arith, y, v.left, v.completed);
      }

  handle_receive_verack_lem :
      (p : Protocol Address (Handshake join))
      → p.handler ≡ true
      → handle_receive_verack join t success p ≡ set_event join t success p
  unfolding handle_receive_verack Timer.stopped_by Events.stopped_by Events.stopped
  handle_receive_verack_lem p on = ground (arith, on)

  pub verack-IsAt :
      (version : Bool) (p : Protocol Address (Handshake join))
      → IsAt version false p
      → IsAt version true (
          handle_receive_verack join t success
            (record p { own = record p.own { awaits_verack = false } }))
  verack-IsAt version p v =
      let q : Protocol Address (Handshake join) = record p {
        own = record p.own { awaits_verack = false };
      } in
      let x = joined-set_event join t success q v.listens in
      let y = outputs-set_event join t success q v.listens in
      let z = awaits-set_event join t success q v.listens in
      rw (handle_receive_verack_lem q v.listens) (record {
        listens = handler-set_event q v.listens;
        for_version = ground (arith, z, v.for_version);
        for_verack = ground (arith, z);
        left = ground (arith, x, v.left);
        completed = ground (arith, y, v.left, v.completed);
      })

  reject_lem :
      (ec : Code) (of_version : Bool) (why : ReasonCode) (p : Protocol Address (Handshake join))
      → IsFriendly (gets_reject ec of_version why)
      → p.handler ≡ true
      → handle_receive_reject join t ec of_version why p ≡ (p, true)
  unfolding handle_receive_reject answer_reject Timer.stopped_by Events.stopped_by Events.stopped
  reject_lem ec of_version (reason n) p e on = rw e (ground (arith, on))
  reject_lem ec of_version obsolete p (e, f) on = rw (e, f) (ground (arith, on))
  reject_lem ec of_version duplicate p (e, f) on = rw (e, f) (ground (arith, on))

  pub rejected-IsAt :
      (version verack : Bool) (ec : Code) (of_version : Bool) (why : ReasonCode) (level : Level)
      (p : Protocol Address (Handshake join))
      → IsFriendly (gets_reject ec of_version why)
      → IsAt version verack p
      → IsAt version verack (step join t level (gets_reject ec of_version why) p)
  unfolding step
  rejected-IsAt version verack ec of_version why level p e v =
      let q : Protocol Address (Handshake join) = record p {
        own = record p.own { awaits_reject = false };
      } in
      if-both (IsAt version verack) p.own.awaits_reject
        (λ _. rw (reject_lem ec of_version why q e v.listens) (record {
          listens = v.listens;
          for_version = v.for_version;
          for_verack = v.for_verack;
          left = v.left;
          completed = v.completed;
        }))
        (λ _. v)
