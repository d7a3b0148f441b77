-- ===== src/Protocols/Handshake/Receiving.antt =====
-- How a handshake takes a version and a verack: src/protocols/protocol_version_31402.cpp and
-- src/protocols/protocol_version_70002.cpp.
use bitprim_network.Base.{
  ◌≡◌, inl, inr, refl, Bool, true, false, min, arith, ltb, not, if-both, sym, ◌∙◌, ap,
}
use bitprim_network.Code.{Code, channel_stopped, is_error}
use bitprim_network.Protocols.{
  Protocol, VersionMessage, sets_negotiated_version, sets_peer_version, send, emit, verack_message,
}
use bitprim_network.Protocols.Library.{Synchronizers}
use bitprim_network.Protocols.Events
use bitprim_network.Protocols.Timer
use bitprim_network.Protocols.Version.{
  Terms, Level, from_31402, from_70002, Handshake, join_handler, sufficient_peer, reject_peer,
  check_peer, accept_version, handle_receive_version, handle_receive_verack,
}
use bitprim_network.Protocols.Handshake.{completions, peer, negotiated, Agrees}
use bitprim_network.Protocols.Handshake.Joining.{
  IsJoining, fail-IsJoining, agree-IsJoining, verack-IsJoining,
}

module _ {Address : Type 0} (join : Synchronizers) (t : Terms Address)
    (Expected : VersionMessage Address → Type 0) where
  -- What the invariant sees of a protocol.
  pub record Same (p q : Protocol Address (Handshake join)) : Type 0 where
    pub joined_same : q.own.joined ≡ p.own.joined
    pub completions_same : completions q.outputs ≡ completions p.outputs
    pub version_still : p.own.awaits_version ≡ false → q.own.awaits_version ≡ false
    pub verack_still : p.own.awaits_verack ≡ false → q.own.awaits_verack ≡ false

  pub unseen-IsJoining :
      (verack : Bool) (p q : Protocol Address (Handshake join))
      → Same p q
      → peer q.outputs ≡ peer p.outputs
      → negotiated q.outputs ≡ negotiated p.outputs
      → IsJoining join t Expected verack p
      → IsJoining join t Expected verack q
  unseen-IsJoining verack p q s e f v =
      let moved : Agrees join t Expected p.outputs → Agrees join t Expected q.outputs =
        λ (m, a, b, c, x). (m, e ∙ a, f ∙ b, c, x) in
      let remains : join.remaining q.own.joined ≡ join.remaining p.own.joined =
        ap join.remaining s.joined_same in
      record {
        at_most = ground arith;
        once = ground (arith, s.completions_same);
        half = λ one. elim (v.half (sym remains ∙ one)) [
          | inl (agrees, off) ↦ inl (moved agrees, s.version_still off)
          | inr (seen, off) ↦ inr (seen, s.verack_still off)
        ];
        whole = λ done.
            let (agrees, seen) = v.whole (sym s.completions_same ∙ done) in (moved agrees, seen);
      }

  pub agreeing-IsJoining :
      (verack : Bool) (p q : Protocol Address (Handshake join))
      → Same p q
      → Agrees join t Expected q.outputs
      → q.own.awaits_version ≡ false
      → IsJoining join t Expected verack p
      → IsJoining join t Expected verack q
  agreeing-IsJoining verack p q s agrees off v =
      let remains : join.remaining q.own.joined ≡ join.remaining p.own.joined =
        ap join.remaining s.joined_same in
      record {
        at_most = ground arith;
        once = ground (arith, s.completions_same);
        half = λ one. inl (agrees, off);
        whole = λ done. (agrees, (v.whole (sym s.completions_same ∙ done)).1);
      }

  pub reject_peer-IsJoining :
      (verack : Bool) (m : VersionMessage Address) (p : Protocol Address (Handshake join))
      → IsJoining join t Expected verack p
      → IsJoining join t Expected verack (reject_peer join t m p)
  unfolding reject_peer
  reject_peer-IsJoining verack m p v =
      unseen-IsJoining verack p (reject_peer join t m p)
        (record {
          joined_same = ground arith;
          completions_same = ground arith;
          version_still = ground arith;
          verack_still = ground arith;
        })
        (ground arith) (ground arith) v

  pub accept_version-IsJoining :
      (verack : Bool) (m : VersionMessage Address) (p : Protocol Address (Handshake join))
      → p.handler ≡ true
      → sufficient_peer join t m ≡ true
      → Expected m
      → p.own.awaits_version ≡ false
      → (join.remaining p.own.joined ≡ 1 → verack ≡ true)
      → IsJoining join t Expected verack p
      → IsJoining join t Expected verack (accept_version join t m p)
  unfolding accept_version
  accept_version-IsJoining verack m p on fits known off last v =
      let b : Protocol Address (Handshake join) = send verack_message (
        emit (sets_peer_version m)
          (emit (sets_negotiated_version (min m.value t.own_version)) p)) in
      let same : Same p b = record {
        joined_same = refl;
        completions_same = refl;
        version_still = λ x. x;
        verack_still = λ x. x;
      } in
      let agrees : Agrees join t Expected b.outputs = (m, refl, refl, fits, known) in
      agree-IsJoining join t Expected verack b on agrees off
        (agreeing-IsJoining verack p b same agrees off v) last

  pub check_peer-IsJoining :
      (verack : Bool) (level : Level) (m : VersionMessage Address)
      (p : Protocol Address (Handshake join))
      → IsJoining join t Expected verack p
      → IsJoining join t Expected verack (check_peer join t level m p).0
  unfolding check_peer
  check_peer-IsJoining verack from_31402 m p v = v
  check_peer-IsJoining verack from_70002 m p v = reject_peer-IsJoining verack m p v

  pub check_peer_lem :
      (level : Level) (m : VersionMessage Address) (p : Protocol Address (Handshake join))
      → ((check_peer join t level m p).1 ≡ sufficient_peer join t m)
        × ((check_peer join t level m p).0.handler ≡ p.handler)
        × ((check_peer join t level m p).0.own ≡ p.own)
  unfolding check_peer reject_peer
  check_peer_lem from_31402 m p = (refl, refl, refl)
  check_peer_lem from_70002 m p = (refl, ground arith, ground arith)

  pub handle_receive_version-IsJoining :
      (verack : Bool) (level : Level) (ec : Code) (m : VersionMessage Address)
      (p : Protocol Address (Handshake join))
      → (is_error ec ≡ false → Expected m)
      → p.own.awaits_version ≡ false
      → (join.remaining p.own.joined ≡ 1 → verack ≡ true)
      → IsJoining join t Expected verack p
      → IsJoining join t Expected verack (handle_receive_version join t level ec m p)
  unfolding handle_receive_version Timer.stopped_by Events.stopped_by Events.stopped
  handle_receive_version-IsJoining verack level ec m p known off last v =
      let (fits, same_handler, same_own) = check_peer_lem level m p in
      let c = check_peer-IsJoining verack level m p v in
      if-both (IsJoining join t Expected verack) (Timer.stopped_by false (join_handler join t) ec p)
        (λ halted. v)
        (λ running.
          let on : p.handler ≡ true = ground arith in
          let stopping = fail-IsJoining join t Expected verack channel_stopped p refl on v in
          if-both (IsJoining join t Expected verack) (is_error ec)
            (λ bad. fail-IsJoining join t Expected verack ec p bad on v)
            (λ good.
              if-both (IsJoining join t Expected verack) (ltb t.protocol_minimum t.level_minimum)
                (λ _. stopping)
                (λ _.
                  if-both (IsJoining join t Expected verack)
                    (ltb t.level_maximum t.protocol_maximum) (λ _. stopping)
                    (λ _.
                      if-both (IsJoining join t Expected verack)
                        (ltb t.protocol_maximum t.protocol_minimum) (λ _. stopping)
                        (λ _.
                          if-both (IsJoining join t Expected verack)
                            (not (check_peer join t level m p).1)
                            (λ _.
                              fail-IsJoining join t Expected verack channel_stopped _ refl
                                (same_handler ∙ on) c)
                            (λ accepted.
                              accept_version-IsJoining verack m _ (same_handler ∙ on) (ground arith)
                                (known good) (ap (λ o. o.awaits_version) same_own ∙ off)
                                (λ one. last (ground arith)) c))))))

  pub handle_receive_verack-IsJoining :
      (ec : Code) (p : Protocol Address (Handshake join))
      → p.own.awaits_verack ≡ false
      → (join.remaining p.own.joined ≡ 1 → Agrees join t Expected p.outputs)
      → IsJoining join t Expected true p
      → IsJoining join t Expected true (handle_receive_verack join t ec p)
  unfolding handle_receive_verack Timer.stopped_by Events.stopped_by Events.stopped
  handle_receive_verack-IsJoining ec p off last v =
      if-both (IsJoining join t Expected true) (Timer.stopped_by false (join_handler join t) ec p)
        (λ halted. v)
        (λ running.
          let on : p.handler ≡ true = ground arith in
          if-both (IsJoining join t Expected true) (is_error ec)
            (λ bad. fail-IsJoining join t Expected true ec p bad on v)
            (λ _. verack-IsJoining join t Expected p on off v last))
