-- ===== src/Connector/Race.antt =====
-- A connection ends once, whoever wins: src/connector.cpp.
use bitprim_network.Base.{
  ◌≡◌, ◌⊎◌, inl, inr, refl, Bool, true, false, List, [], ◌∷◌, ◌-◌, ◌==◌, length, arith,
  Option-cases, if◌then◌else◌, if-both, not, ◌∙◌, ap,
}
use bitprim_network.Code.{Code, success, channel_timeout, is_error}
use bitprim_network.Channel.Proxy.{BoostCode}
use bitprim_network.Protocols.Library.{Synchronizers}
use bitprim_network.Connector.{
  Connector, construct, stop, connect, handle_resolve, join_handler, handle_connect, handle_timer,
}

-- What can happen to a connector that was told to connect.
pub data Event : Type 0 where
  resolves : BoostCode → Event
  connects : BoostCode → Event
  times_out : Code → Event
  stops : Event

module _ (join : Synchronizers) (boost_to_error_code : BoostCode → Code) where
  -- What ends is what waits.
  unfoldable pub step : Event → Connector join → Connector join
  step (resolves ec) c =
      if c.resolving
      then handle_resolve join boost_to_error_code ec (record c { resolving = false })
      else c
  step (connects ec) c =
      if c.connecting
      then handle_connect join boost_to_error_code ec (record c { connecting = false })
      else c
  step (times_out ec) c =
      if c.timer then handle_timer join boost_to_error_code ec (record c { timer = false }) else c
  step stops c = stop join boost_to_error_code c

  unfoldable pub run : List Event → Connector join → Connector join
  run [] c = c
  run (e ∷ es) c = run es (step e c)

  -- Resolving, racing, or ended before the race.
  data IsRacing (c : Connector join) : Type 0 where
    resolving :
        c.resolving ≡ true → c.calls ≡ [] → c.connecting ≡ false → c.timer ≡ false → IsRacing c
    racing :
        c.resolving ≡ false
        → length c.calls ≡ 1 - join.remaining c.joined
        → ((join.remaining c.joined ≡ 1) × (c.connecting ≡ true)) ⊎ (join.remaining c.joined ≡ 0)
        → IsRacing c
    ended :
        c.resolving ≡ false
        → length c.calls ≡ 1
        → c.connecting ≡ false
        → c.timer ≡ false
        → IsRacing c

  -- A call of the join handler leaves no call to wait for, and has made one call in all.
  join_handler_lem :
      (ec : Code) (b : Bool) (c : Connector join)
      → length c.calls ≡ 1 - join.remaining c.joined
      → (join.remaining c.joined ≡ 1) ⊎ (join.remaining c.joined ≡ 0)
      → let d = join_handler join boost_to_error_code ec b c in
        (length d.calls ≡ 1) × (join.remaining d.joined ≡ 0) × (d.resolving ≡ c.resolving)
  unfolding join_handler
  join_handler_lem ec b c e f =
      let l = join.call_lem ec c.joined in
      elim (Option-cases (join.call ec c.joined).1) [
        | inl g ↦ ground (arith, l)
        | inr (r, g) ↦ ground (arith, l)
      ]

  -- The join handler is called in the race.
  join_handler-IsRacing :
      (ec : Code) (b : Bool) (c : Connector join)
      → c.resolving ≡ false
      → length c.calls ≡ 1 - join.remaining c.joined
      → (join.remaining c.joined ≡ 1) ⊎ (join.remaining c.joined ≡ 0)
      → IsRacing (join_handler join boost_to_error_code ec b c)
  join_handler-IsRacing ec b c r e f =
      let (x, y, z) = join_handler_lem ec b c e f in racing (z ∙ r) (ground arith) (inr y)

  handle_resolve-IsRacing :
      (ec : BoostCode) (c : Connector join)
      → c.resolving ≡ false
      → c.calls ≡ []
      → c.connecting ≡ false
      → c.timer ≡ false
      → IsRacing (handle_resolve join boost_to_error_code ec c)
  unfolding handle_resolve
  handle_resolve-IsRacing ec c r e f g =
      let one = join.synchronize_lem 1 in
      if-both IsRacing c.stopped (λ _. ended r (ground arith) f g)
        (λ _.
          if-both IsRacing (not (ec == 0)) (λ _. ended r (ground arith) f g)
            (λ _. racing r (ground arith) (inl (one, refl))))

  handle_connect-IsRacing :
      (ec : BoostCode) (c : Connector join)
      → c.resolving ≡ false
      → length c.calls ≡ 1 - join.remaining c.joined
      → (join.remaining c.joined ≡ 1) ⊎ (join.remaining c.joined ≡ 0)
      → IsRacing (handle_connect join boost_to_error_code ec c)
  unfolding handle_connect
  handle_connect-IsRacing ec c r e f =
      if-both IsRacing (not (ec == 0))
        (λ _. join_handler-IsRacing (boost_to_error_code ec) false c r e f)
        (λ _. join_handler-IsRacing success true c r e f)

  handle_timer-IsRacing :
      (ec : Code) (c : Connector join)
      → c.resolving ≡ false
      → length c.calls ≡ 1 - join.remaining c.joined
      → (join.remaining c.joined ≡ 1) ⊎ (join.remaining c.joined ≡ 0)
      → IsRacing (handle_timer join boost_to_error_code ec c)
  unfolding handle_timer
  handle_timer-IsRacing ec c r e f =
      join_handler-IsRacing (if is_error ec then ec else channel_timeout) false c r e f

  stop-IsRacing : (c : Connector join) → IsRacing c → IsRacing (stop join boost_to_error_code c)
  unfolding stop
  stop-IsRacing c (resolving r e f g) =
      if-both IsRacing (not c.stopped) (λ _. resolving r e f refl) (λ _. resolving r e f g)
  stop-IsRacing c (racing r e f) =
      if-both IsRacing (not c.stopped) (λ _. racing r e f) (λ _. racing r e f)
  stop-IsRacing c (ended r e f g) =
      if-both IsRacing (not c.stopped) (λ _. ended r e f refl) (λ _. ended r e f g)

  step-IsRacing : (e : Event) (c : Connector join) → IsRacing c → IsRacing (step e c)
  unfolding step
  step-IsRacing (resolves ec) c (resolving r e f g) =
      if-both IsRacing c.resolving
        (λ _. handle_resolve-IsRacing ec (record c { resolving = false }) refl e f g)
        (λ _. resolving r e f g)
  step-IsRacing (resolves ec) c (racing r e f) =
      if-both IsRacing c.resolving (λ on. ground arith) (λ _. racing r e f)
  step-IsRacing (resolves ec) c (ended r e f g) =
      if-both IsRacing c.resolving (λ on. ground arith) (λ _. ended r e f g)
  step-IsRacing (connects ec) c (resolving r e f g) =
      if-both IsRacing c.connecting (λ on. ground arith) (λ _. resolving r e f g)
  step-IsRacing (connects ec) c (racing r e f) =
      if-both IsRacing c.connecting
        (λ _. handle_connect-IsRacing ec (record c { connecting = false }) r e (ground (arith, f)))
        (λ _. racing r e f)
  step-IsRacing (connects ec) c (ended r e f g) =
      if-both IsRacing c.connecting (λ on. ground arith) (λ _. ended r e f g)
  step-IsRacing (times_out ec) c (resolving r e f g) =
      if-both IsRacing c.timer (λ on. ground arith) (λ _. resolving r e f g)
  step-IsRacing (times_out ec) c (racing r e f) =
      if-both IsRacing c.timer
        (λ _. handle_timer-IsRacing ec (record c { timer = false }) r e (ground (arith, f)))
        (λ _. racing r e f)
  step-IsRacing (times_out ec) c (ended r e f g) =
      if-both IsRacing c.timer (λ on. ground arith) (λ _. ended r e f g)
  step-IsRacing stops c v = stop-IsRacing c v

  run-IsRacing : (es : List Event) (c : Connector join) → IsRacing c → IsRacing (run es c)
  unfolding run
  run-IsRacing [] c v = v
  run-IsRacing (e ∷ es) c v = run-IsRacing es (step e c) (step-IsRacing e c v)

  -- After a connect on a new connector, whatever happens, in whatever order: the handler was called
  -- once, or it was not called and the name is still being resolved or the socket still connecting.
  pub calls-run :
      (es : List Event)
      → let c = run es (connect join boost_to_error_code (construct join boost_to_error_code)) in
        (length c.calls ≡ 1)
        ⊎ ((length c.calls ≡ 0) × ((c.resolving ≡ true) ⊎ (c.connecting ≡ true)))
  unfolding connect construct
  calls-run es = elim (run-IsRacing es _ (resolving refl refl refl refl)) [
    | resolving r e f g ↦ inr (ap length e, inl r)
    | racing r e f ↦ ground (arith, f)
    | ended r e f g ↦ inl e
  ]
