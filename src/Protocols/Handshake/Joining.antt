-- ===== src/Protocols/Handshake/Joining.antt =====
-- How a handshake counts its completions: src/protocols/protocol_version_31402.cpp, and
-- src/protocols/protocol_events.cpp below it.
use bitprim_network.Base.{
  ◌≡◌, ◌⊎◌, inl, inr, refl, Bool, true, false, List, [], ◌∷◌, ◌≤◌, ◌-◌, ◌++◌, length, ◌==◌,
  if◌then◌else◌, Bool-cases, Option-cases, arith, subst,
}
use bitprim_network.Code.{Code, success, is_error}
use bitprim_network.Protocols.{Protocol, VersionMessage, Output, completes}
use bitprim_network.Protocols.Library.{Synchronizers}
use bitprim_network.Protocols.Events
use bitprim_network.Protocols.Timer
use bitprim_network.Protocols.Version.{Terms, Handshake, join_handler, set_event}
use bitprim_network.Protocols.Handshake.{completions, Agrees}

module _ {Address : Type 0} (join : Synchronizers) (t : Terms Address) where
  pub joined-set_event :
      (ec : Code) (p : Protocol Address (Handshake join))
      → p.handler ≡ true
      → join.remaining (set_event join t ec p).own.joined
        ≡ (if is_error ec then 0 else join.remaining p.own.joined - 1)
  unfolding Timer.set_event Events.set_event Timer.handle_notify join_handler Events.stopped_by
      Events.stopped
  joined-set_event ec p on =
      let l = join.call_lem ec p.own.joined in
      elim (Option-cases (join.call ec p.own.joined).1) [
        | inl e ↦ ground (arith, l)
        | inr (c, e) ↦ ground (arith, l)
      ]

  pub outputs-set_event :
      (ec : Code) (p : Protocol Address (Handshake join))
      → p.handler ≡ true
      → (set_event join t ec p).outputs
        ≡ (if join.remaining p.own.joined == 0
            then []
            else if is_error ec
            then completes ec ∷ []
            else if join.remaining p.own.joined == 1
            then completes success ∷ []
            else [])
          ++ p.outputs
  unfolding Timer.set_event Events.set_event Timer.handle_notify join_handler Events.stopped_by
      Events.stopped
  outputs-set_event ec p on =
      let l = join.call_lem ec p.own.joined in
      elim (Option-cases (join.call ec p.own.joined).1) [
        | inl e ↦ ground (arith, l)
        | inr (c, e) ↦ ground (arith, l)
      ]

  pub awaits-set_event :
      (ec : Code) (p : Protocol Address (Handshake join))
      → p.handler ≡ true
      → ((set_event join t ec p).own.awaits_version ≡ p.own.awaits_version)
        × ((set_event join t ec p).own.awaits_verack ≡ p.own.awaits_verack)
  unfolding Timer.set_event Events.set_event Timer.handle_notify join_handler Events.stopped_by
      Events.stopped
  awaits-set_event ec p on = elim (Option-cases (join.call ec p.own.joined).1) [
    | inl e ↦ ground arith
    | inr (c, e) ↦ ground arith
  ]

module _ {Address : Type 0} (join : Synchronizers) (t : Terms Address)
    (Expected : VersionMessage Address → Type 0) where
  -- With `verack` for whether a verack was received.
  pub record IsJoining (verack : Bool) (p : Protocol Address (Handshake join)) : Type 0 where
    pub at_most : join.remaining p.own.joined ≤ 2
    pub once : length (completions p.outputs) ≡ 1 - join.remaining p.own.joined
    pub half :
        join.remaining p.own.joined ≡ 1
        → (Agrees join t Expected p.outputs × (p.own.awaits_version ≡ false))
          ⊎ ((verack ≡ true) × (p.own.awaits_verack ≡ false))
    pub whole :
        completions p.outputs ≡ success ∷ [] → Agrees join t Expected p.outputs × (verack ≡ true)

  pub Wholly : Bool → List (Output Address) → Type 0
  Wholly verack os = completions os ≡ success ∷ [] → Agrees join t Expected os × (verack ≡ true)

  pub fail-IsJoining :
      (verack : Bool) (ec : Code) (p : Protocol Address (Handshake join))
      → is_error ec ≡ true
      → p.handler ≡ true
      → IsJoining verack p
      → IsJoining verack (set_event join t ec p)
  unfolding Wholly
  fail-IsJoining verack ec p bad on v =
      let a = joined-set_event join t ec p on in
      let b = outputs-set_event join t ec p on in
      let c = awaits-set_event join t ec p on in
      record {
        at_most = ground arith;
        once = ground arith;
        half = ground arith;
        whole = elim (Bool-cases (join.remaining p.own.joined == 0)) [
          | inl done ↦
              let same : p.outputs ≡ (set_event join t ec p).outputs = ground arith in
              subst (Wholly verack) same v.whole
          | inr more ↦ λ e. ground arith
        ];
      }

  pub agree-IsJoining :
      (verack : Bool) (p : Protocol Address (Handshake join))
      → p.handler ≡ true
      → Agrees join t Expected p.outputs
      → p.own.awaits_version ≡ false
      → IsJoining verack p
      → (join.remaining p.own.joined ≡ 1 → verack ≡ true)
      → IsJoining verack (set_event join t success p)
  unfolding Wholly
  agree-IsJoining verack p on agrees off v last =
      let a = joined-set_event join t success p on in
      let b = outputs-set_event join t success p on in
      let c = awaits-set_event join t success p on in
      let kept : Agrees join t Expected (set_event join t success p).outputs =
        (let (m, e, f, g, x) = agrees in (m, ground arith, ground arith, g, x)) in
      record {
        at_most = ground arith;
        once = ground arith;
        half = λ e. inl (kept, ground arith);
        whole = elim (Bool-cases (join.remaining p.own.joined == 0)) [
          | inl done ↦
              let same : p.outputs ≡ (set_event join t success p).outputs = ground arith in
              subst (Wholly verack) same v.whole
          | inr more ↦ λ e. (kept, ground arith)
        ];
      }

  pub verack-IsJoining :
      (p : Protocol Address (Handshake join))
      → p.handler ≡ true
      → p.own.awaits_verack ≡ false
      → IsJoining true p
      → (join.remaining p.own.joined ≡ 1 → Agrees join t Expected p.outputs)
      → IsJoining true (set_event join t success p)
  unfolding Wholly
  verack-IsJoining p on off v last =
      let a = joined-set_event join t success p on in
      let b = outputs-set_event join t success p on in
      let c = awaits-set_event join t success p on in
      record {
        at_most = ground arith;
        once = ground arith;
        half = λ e. inr (refl, ground arith);
        whole = elim (Bool-cases (join.remaining p.own.joined == 0)) [
          | inl done ↦
              let same : p.outputs ≡ (set_event join t success p).outputs = ground arith in
              subst (Wholly true) same v.whole
          | inr more ↦ λ e.
              let (m, f, g, h, x) = last (ground arith) in
              ((m, ground arith, ground arith, h, x), refl)
        ];
      }
