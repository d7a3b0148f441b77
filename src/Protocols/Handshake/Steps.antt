-- ===== src/Protocols/Handshake/Steps.antt =====
-- What one event makes of a handshake: src/protocols/protocol_version_31402.cpp and
-- src/protocols/protocol_version_70002.cpp.
use bitprim_network.Base.{
  ◌≡◌, inl, inr, refl, Bool, true, false, [], ◌∷◌, if◌then◌else◌, Bool-cases, arith, not, if-both,
  subst, ap,
}
use bitprim_network.Code.{Code, channel_stopped, channel_timeout, is_error}
use bitprim_network.Protocols.{
  Protocol, VersionMessage, ReasonCode, obsolete, duplicate, reason, construct,
}
use bitprim_network.Protocols.Library.{Synchronizers}
use bitprim_network.Protocols.Events
use bitprim_network.Protocols.Timer
use bitprim_network.Protocols.Version.{
  Terms, Level, from_31402, Handshake, join_handler, start, set_event, handle_receive_verack,
  handle_receive_reject, answer_reject,
}
use bitprim_network.Protocols.Handshake.{
  completions, peer, negotiated, HandshakeEvent, gets_version, gets_verack, gets_reject,
  timer_fires, channel_stops, step, Agrees, Received,
}
use bitprim_network.Protocols.Handshake.Joining.{IsJoining, fail-IsJoining}
use bitprim_network.Protocols.Handshake.Receiving.{
  unseen-IsJoining, handle_receive_version-IsJoining, handle_receive_verack-IsJoining,
}

-- A verack was received before, or is received now.
abbrev pub seen_after : {Address : Type 0} → Bool → HandshakeEvent Address → Bool
seen_after verack (gets_verack ec) = if is_error ec then verack else true
seen_after verack _ = verack

module _ {Address : Type 0} (join : Synchronizers) (t : Terms Address)
    (Expected : VersionMessage Address → Type 0) where
  -- A stop or a failure, or a change of nothing that the invariant sees.
  quiet-IsJoining :
      (verack : Bool) (p q : Protocol Address (Handshake join))
      → q.own.joined ≡ p.own.joined
      → q.outputs ≡ p.outputs
      → (p.own.awaits_version ≡ false → q.own.awaits_version ≡ false)
      → (p.own.awaits_verack ≡ false → q.own.awaits_verack ≡ false)
      → IsJoining join t Expected verack p
      → IsJoining join t Expected verack q
  quiet-IsJoining verack p q e f g h v =
      unseen-IsJoining join t Expected verack p q
        (record {
          joined_same = e;
          completions_same = ap completions f;
          version_still = g;
          verack_still = h;
        })
        (ap peer f) (ap negotiated f) v

  event-IsJoining :
      (verack : Bool) (ec : Code) (p : Protocol Address (Handshake join))
      → is_error ec ≡ true
      → IsJoining join t Expected verack p
      → IsJoining join t Expected verack (set_event join t ec p)
  unfolding Timer.set_event Events.set_event
  event-IsJoining verack ec p bad v = elim (Bool-cases p.handler) [
    | inl on ↦ fail-IsJoining join t Expected verack ec p bad on v
    | inr off ↦
        let e : p ≡ set_event join t ec p = ground arith in
        subst (IsJoining join t Expected verack) e v
  ]

  more-IsJoining :
      (verack : Bool) (p : Protocol Address (Handshake join))
      → IsJoining join t Expected verack p
      → IsJoining join t Expected true p
  more-IsJoining verack p v = record {
    at_most = v.at_most;
    once = v.once;
    half = λ one. elim (v.half one) [ inl a ↦ inl a | inr (b, c) ↦ inr (refl, c) ];
    whole = λ done. ((v.whole done).0, refl);
  }

  answer_reject-IsJoining :
      (verack : Bool) (why : ReasonCode) (p : Protocol Address (Handshake join))
      → IsJoining join t Expected verack p
      → IsJoining join t Expected verack (answer_reject join t why p).0
  unfolding answer_reject
  answer_reject-IsJoining verack obsolete p v = event-IsJoining verack channel_stopped p refl v
  answer_reject-IsJoining verack duplicate p v = event-IsJoining verack channel_stopped p refl v
  answer_reject-IsJoining verack (reason n) p v = v

  handle_receive_reject-IsJoining :
      (verack : Bool) (ec : Code) (of_version : Bool) (why : ReasonCode)
      (p : Protocol Address (Handshake join))
      → IsJoining join t Expected verack p
      → IsJoining join t Expected verack (handle_receive_reject join t ec of_version why p).0
  unfolding handle_receive_reject
  handle_receive_reject-IsJoining verack ec of_version why p v =
      let After : Protocol Address (Handshake join) × Bool → Type 0 =
        λ r. IsJoining join t Expected verack r.0 in
      let stopping = event-IsJoining verack channel_stopped p refl v in
      if-both After (Timer.stopped_by false (join_handler join t) ec p) (λ _. v)
        (λ _.
          if-both After (is_error ec) (λ _. stopping)
            (λ _.
              if-both After (not of_version) (λ _. v)
                (λ _. answer_reject-IsJoining verack why p v)))

  fire-IsJoining :
      (verack : Bool) (p : Protocol Address (Handshake join))
      → IsJoining join t Expected verack p
      → IsJoining join t Expected verack (Timer.fire false (join_handler join t) p)
  unfolding Timer.fire Timer.handle_timer
  fire-IsJoining verack p v =
      let q = record p { timer = false } in
      let w = quiet-IsJoining verack p q refl refl (λ x. x) (λ x. x) v in
      if-both (IsJoining join t Expected verack) p.timer
        (λ _.
          if-both (IsJoining join t Expected verack) (Timer.stopped false (join_handler join t) q)
            (λ _. w) (λ _. event-IsJoining verack channel_timeout q refl w))
        (λ _. v)

  failed_verack-IsJoining :
      (verack : Bool) (ec : Code) (p : Protocol Address (Handshake join))
      → is_error ec ≡ true
      → IsJoining join t Expected verack p
      → IsJoining join t Expected verack (step join t from_31402 (gets_verack ec) p)
  unfolding step handle_receive_verack
  failed_verack-IsJoining verack ec p bad v =
      let q = record p { own = record p.own { awaits_verack = false } } in
      let w = quiet-IsJoining verack p q refl refl (λ x. x) (λ _. refl) v in
      let failed = event-IsJoining verack ec q bad w in
      if-both (IsJoining join t Expected verack) p.own.awaits_verack
        (λ _.
          if-both (IsJoining join t Expected verack)
            (Timer.stopped_by false (join_handler join t) ec q) (λ _. w)
            (λ _.
              if-both (IsJoining join t Expected verack) (is_error ec) (λ _. failed)
                (λ good. ground arith)))
        (λ _. v)

  got_verack-IsJoining :
      (ec : Code) (p : Protocol Address (Handshake join))
      → IsJoining join t Expected true p
      → (p.own.awaits_verack ≡ true
          → join.remaining p.own.joined ≡ 1
          → Agrees join t Expected p.outputs)
      → IsJoining join t Expected true (step join t from_31402 (gets_verack ec) p)
  unfolding step
  got_verack-IsJoining ec p v agrees =
      let q = record p { own = record p.own { awaits_verack = false } } in
      let w = quiet-IsJoining true p q refl refl (λ x. x) (λ _. refl) v in
      if-both (IsJoining join t Expected true) p.own.awaits_verack
        (λ waits. handle_receive_verack-IsJoining join t Expected ec q refl (agrees waits) w)
        (λ _. v)

  pub step-IsJoining :
      (verack : Bool) (level : Level) (e : HandshakeEvent Address)
      (p : Protocol Address (Handshake join))
      → ((m : VersionMessage Address) → Received (e ∷ []) m → Expected m)
      → IsJoining join t Expected verack p
      → IsJoining join t Expected (seen_after verack e) (step join t level e p)
  unfolding step Timer.handle_stopped Timer.set_event Events.handle_stopped Events.set_event
  step-IsJoining verack level (gets_version ec m) p known v =
      let q = record p { own = record p.own { awaits_version = false } } in
      let w = quiet-IsJoining verack p q refl refl (λ _. refl) (λ x. x) v in
      if-both (IsJoining join t Expected verack) p.own.awaits_version
        (λ waits.
          handle_receive_version-IsJoining join t Expected verack level ec m q
            (λ good. known m (inl (good, refl))) refl (λ one. ground (arith, v.half one)) w)
        (λ _. v)
  step-IsJoining verack level (gets_verack ec) p known v = elim (Bool-cases (is_error ec)) [
    | inl bad ↦ rw bad (failed_verack-IsJoining verack ec p bad v)
    | inr good ↦ rw good (
        got_verack-IsJoining ec p (more-IsJoining verack p v)
          (λ waits one. elim (v.half one) [ inl (a, off) ↦ a | inr (s, off) ↦ ground arith ]))
  ]
  step-IsJoining verack level (gets_reject ec of_version why) p known v =
      let q = record p { own = record p.own { awaits_reject = false } } in
      let w = quiet-IsJoining verack p q refl refl (λ x. x) (λ x. x) v in
      let r = handle_receive_reject join t ec of_version why q in
      if-both (IsJoining join t Expected verack) p.own.awaits_reject
        (λ waits.
          quiet-IsJoining verack r.0 _ refl refl (λ x. x) (λ x. x)
            (handle_receive_reject-IsJoining verack ec of_version why q w))
        (λ _. v)
  step-IsJoining verack level timer_fires p known v = fire-IsJoining verack p v
  step-IsJoining verack level (channel_stops ec) p known v =
      event-IsJoining verack channel_stopped p refl v

  pub start-IsJoining :
      (level : Level) (own : Handshake join)
      → IsJoining join t Expected false (start join t level (construct own))
  unfolding start Timer.start Timer.reset_timer Timer.stopped Events.start Events.stopped
  start-IsJoining level own = record {
    at_most = ground (arith, join.synchronize_lem 2);
    once = ground (arith, join.synchronize_lem 2);
    half = ground (arith, join.synchronize_lem 2);
    whole = ground arith;
  }
