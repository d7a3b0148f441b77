-- ===== src/Sessions/Manual/Handlers.antt =====
-- What becomes of the handlers of those who ask for a manual connection: src/sessions/session_manual.cpp.
use bitprim_network.Base.{
  ℕ, ◌+◌, ◌≡◌, refl, Bool, Option, none, some, List, [], ◌∷◌, get_elem?, erase_at, count_by,
  count_by-erase_at, All, arith, if◌then◌else◌, if-both,
}
use bitprim_network.Code.{success, is_error}
use bitprim_network.Network.{Connections}
use bitprim_network.Sessions.Manual.{
  Manual, ManualParts, ManualWait, ManualEnd, ManualEvent, going_on, connecting, delaying, shaking,
  running, goes_on, wakes, connects, shakes, stops, asks, ends, halts, start, handle_started,
  connect, handle_remove, dispatch, end_wait, step, run, construct,
}
use bitprim_network.Sessions.Manual.Moves.{
  IsTruthful, by_caller, carries, waits_for, asked, held, freed, Moves, one, start_connect-Moves,
  handle_channel_stop-Moves, handle_handshake-Moves, handle_connect-Moves,
}

module _ (w : ManualParts) (p : w.Handler → Bool) (q : ℕ → Bool) where
  open w use {Endpoint, Handler, Address}

  -- A session without the handler that a wait held.
  abbrev Lacks : Option Handler → Manual w → Manual w → Type 0
  Lacks h s t =
      (held w p q t + one w p q h ≡ held w p q s)
      × (count_by q t.pended + freed w p q s ≡ count_by q s.pended + freed w p q t)
      × (t.calls ≡ s.calls)

  -- It is as if the handlers were counted from there.
  record Keeps (s t : Manual w) : Type 0 where
    handlers : held w p q t ≡ held w p q s
    connectors : count_by q t.pended + freed w p q s ≡ count_by q s.pended + freed w p q t
    truthful : All IsTruthful s.calls → All IsTruthful t.calls

  Moves-refl : (s : Manual w) → Moves w p q 0 s s
  Moves-refl s = record { handlers = omega arith; connectors = refl; truthful = λ b. b }

  Lacks-Keeps :
      (h : Option Handler) (s t u : Manual w)
      → Lacks h s t
      → Moves w p q (0 + one w p q h) t u
      → Keeps s u
  Lacks-Keeps h s t u (a, b, c) v = record {
    handlers = omega (arith, v.handlers);
    connectors = omega (arith, v.connectors);
    truthful = λ x. v.truthful (rw c x);
  }

  dispatch-Keeps :
      (wait : ManualWait Endpoint Handler Address) (e : ManualEnd Address) (s t : Manual w)
      → held w p q t + (if carries w p q wait then 1 else 0) ≡ held w p q s
      → freed w p q t + (if waits_for w p q wait then 1 else 0) ≡ freed w p q s
      → t.pended ≡ s.pended
      → t.calls ≡ s.calls
      → Keeps s (dispatch w wait e s t)
  unfolding dispatch handle_started handle_remove
  dispatch-Keeps (going_on ec) goes_on s t a b c d =
      Lacks-Keeps none s t _ (omega arith, ground (arith, b, c), d)
        (if-both (Moves w p q 0 t) (is_error ec)
          (λ _. record { handlers = omega arith; connectors = refl; truthful = λ b. b })
          (λ _. record { handlers = omega arith; connectors = refl; truthful = λ b. b }))
  dispatch-Keeps (connecting connector endpoint remaining handler)
        (connects ec started nonce version channel) s t a b c d =
      let u = record t { unpended = connector ∷ t.unpended } in
      Lacks-Keeps handler s u _ (omega arith, ground (arith, b, c), d)
        (handle_connect-Moves w p q ec started nonce version channel connector endpoint remaining
          handler 0 u t (Moves-refl u))
  dispatch-Keeps (delaying endpoint attempts handler) wakes s t a b c d =
      Lacks-Keeps handler s t _ (omega arith, ground (arith, b, c), d)
        (start_connect-Moves w p q success endpoint attempts handler 0 t t (Moves-refl t))
  dispatch-Keeps (shaking endpoint channel handler) (shakes ec version) s t a b c d =
      Lacks-Keeps handler s t _ (omega arith, ground (arith, b, c), d)
        (handle_handshake-Moves w p q ec endpoint handler channel version 0 t t (Moves-refl t))
  dispatch-Keeps (running endpoint channel) (stops ec) s t a b c d =
      Lacks-Keeps none s t _ (omega arith, ground (arith, b, c), d)
        (handle_channel_stop-Moves w p q success endpoint 0 t _
          (record { handlers = omega arith; connectors = refl; truthful = λ b. b }))
  dispatch-Keeps _ _ s t a b c d = record { handlers = refl; connectors = refl; truthful = λ b. b }

  end_wait-Keeps :
      (wait : Option (ManualWait Endpoint Handler Address)) (i : ℕ) (e : ManualEnd Address)
      (s : Manual w)
      → get_elem? s.waits i ≡ wait
      → Keeps s (end_wait w wait i e s)
  unfolding end_wait
  end_wait-Keeps none i e s at = record { handlers = refl; connectors = refl; truthful = λ b. b }
  end_wait-Keeps (some wait) i e s at =
      dispatch-Keeps wait e s (record s { waits = erase_at i s.waits })
        (omega (arith, count_by-erase_at (carries w p q) i s.waits at))
        (omega (arith, count_by-erase_at (waits_for w p q) i s.waits at)) refl refl

  -- Of so many handlers that came along with a question each was called or dropped, or is held by one
  -- wait; each connector that was pended was unpended, or is waited for; a handler that was called got a
  -- channel exactly with success.
  pub record IsAnswered (n : ℕ) (s : Manual w) : Type 0 where
    pub handlers :
        count_by (λ c. by_caller w p q c.0) s.calls
          + count_by (by_caller w p q) s.dropped
          + count_by (carries w p q) s.waits
        ≡ n
    pub connectors :
        count_by q s.pended ≡ count_by q s.unpended + count_by (waits_for w p q) s.waits
    pub truthful : All IsTruthful s.calls

  step-IsAnswered :
      (n : ℕ) (e : ManualEvent Endpoint Handler Address) (s : Manual w)
      → IsAnswered n s
      → IsAnswered (n + (if asked w p q e then 1 else 0)) (step w e s)
  unfolding step connect
  step-IsAnswered n (asks endpoint handler) s v =
      let u =
        start_connect-Moves w p q success endpoint w.manual_attempt_limit handler 0 s s
          (Moves-refl s) in
      record {
        handlers = omega (arith, u.handlers, v.handlers);
        connectors = omega (arith, u.connectors, v.connectors);
        truthful = u.truthful v.truthful;
      }
  step-IsAnswered n (ends i e) s v =
      let u = end_wait-Keeps (get_elem? s.waits i) i e s refl in
      record {
        handlers = omega (arith, u.handlers, v.handlers);
        connectors = omega (arith, u.connectors, v.connectors);
        truthful = u.truthful v.truthful;
      }
  step-IsAnswered n (halts ec) s v = record {
    handlers = omega (arith, v.handlers);
    connectors = v.connectors;
    truthful = v.truthful;
  }

  run-IsAnswered :
      (n : ℕ) (es : List (ManualEvent Endpoint Handler Address)) (s : Manual w)
      → IsAnswered n s
      → IsAnswered (n + count_by (asked w p q) es) (run w es s)
  unfolding run
  run-IsAnswered n [] s v = record {
    handlers = omega (arith, v.handlers);
    connectors = v.connectors;
    truthful = v.truthful;
  }
  run-IsAnswered n (e ∷ es) s v =
      let u =
        run-IsAnswered (n + (if asked w p q e then 1 else 0)) es _ (step-IsAnswered n e s v) in
      record {
        handlers = omega (arith, u.handlers);
        connectors = u.connectors;
        truthful = u.truthful;
      }

  -- Those who ask a manual session, from its start on, for connections are answered, whatever happens: of
  -- the handlers that they give, told apart by any test, each is called once, or dropped since its channel
  -- did not start, or held by one wait; a call has a channel exactly if it has success; and each
  -- connector that was pended was unpended once, or is waited for.
  pub run-start-IsAnswered :
      (es : List (ManualEvent Endpoint Handler Address)) (notify_on_connect : Bool)
      (network : Connections w.same w.links)
      → IsAnswered
          (count_by (asked w p q) es)
          (run w es (start w (construct w notify_on_connect network)))
  unfolding start construct
  run-start-IsAnswered es notify_on_connect network =
      let v =
        run-IsAnswered 0 es (start w (construct w notify_on_connect network))
          (record { handlers = refl; connectors = refl; truthful = tt }) in
      record {
        handlers = omega (arith, v.handlers);
        connectors = v.connectors;
        truthful = v.truthful;
      }
