-- ===== src/Sessions/Inbound/Cycle.antt =====
-- The accept cycle of the inbound session: src/sessions/session_inbound.cpp.
use bitprim_network.Base.{
  ℕ, ◌+◌, ◌≤◌, ◌≡◌, refl, Bool, true, false, Option, none, some, List, [], ◌∷◌, ◌||◌, ◌==◌, any,
  get_elem?, erase_at, total, total-erase_at, arith, if◌then◌else◌, if-both, ◌∙◌, leb, Bool-cases,
  inl, inr,
}
use bitprim_network.Code.{Code, accept_failed, is_error, is_service_stopped}
use bitprim_network.Network
use bitprim_network.Network.{Link}
use bitprim_network.Network.Library.{Pendings}
use bitprim_network.Sessions
use bitprim_network.Sessions.Registration.{attach_protocols_lem}
use bitprim_network.Sessions.{
  Session, SessionSettings, Wait, starting, batch, retry, accept, handshake, channel_stop, does,
  awaits, delays, cycle_delay, blacklisted, stopped_by, attach_protocols, handle_start,
  handle_starting, handle_handshake, handle_remove, register_channel,
}
use bitprim_network.Sessions.Inbound.{
  start_accept, handle_started, start, handle_stop, handle_channel_start, handle_channel_stop,
  registered, start_channel, handle_accept, handshake_complete, connection_limit, End, begins,
  accepts, wakes, shakes, stops, dispatch, end_wait, InboundEvent, ends, halts, relays_stop, step,
  run,
}

-- The acceptor does not listen, or ends an accept because the service has stopped.
abbrev pub gives_up : {Address : Type 0} → InboundEvent Address → Bool
gives_up (ends i (begins listened)) = is_error listened
gives_up (ends i (accepts ec started nonce version channel)) = is_service_stopped ec
gives_up _ = false

module _ {Address : Type 0} (ip : Address → ℕ) (same : Address → Address → Bool)
    (links : Pendings (Link Address)) (settings : SessionSettings Address) where
  -- Whether a wait is one of the cycle: for its start, for the next channel, or for the delay.
  abbrev turns : Wait Address → ℕ
  turns (starting ec) = if is_error ec then 0 else 1
  turns accept = 1
  turns retry = 1
  turns _ = 0

  -- The session has so many more turns of the cycle.
  record HasMore (k : ℕ) (s t : Session same links) : Type 0 where
    same_stop : t.stopped ≡ s.stopped
    turned : total turns t.waits ≡ total turns s.waits + k

  registered-HasMore :
      (version : ℕ) (c : Link Address) (ec : Code) (k : ℕ) (s t : Session same links)
      → HasMore k s t
      → HasMore k s (registered ip same links settings version c ec t)
  unfolding handle_start handle_channel_start handle_channel_stop
  registered-HasMore version c ec k s t v =
      let a =
        attach_protocols_lem same links settings c version (awaits same links (channel_stop c) t) in
      record { same_stop = ground (arith, a, v.same_stop); turned = ground (arith, a, v.turned) }

  register_channel-HasMore :
      (started : Code) (nonce version : ℕ) (c : Link Address) (k : ℕ) (s t : Session same links)
      → HasMore k s t
      → HasMore k s (
          register_channel same links
            (start_channel ip same links settings started nonce version c)
            (handle_channel_start ip same links settings version c)
            (handle_channel_stop ip same links settings)
            t)
  unfolding register_channel handle_channel_start handle_channel_stop Sessions.start_channel
      handle_starting Sessions.attach_handshake_protocols
  register_channel-HasMore started nonce version c k s t v =
      if-both (HasMore k s) t.stopped (λ _. record { same_stop = v.same_stop; turned = v.turned })
        (λ _.
          if-both (HasMore k s) (is_error started)
            (λ _.
              registered-HasMore version _ started k s _
                (record { same_stop = v.same_stop; turned = v.turned }))
            (λ _. record { same_stop = v.same_stop; turned = ground (arith, v.turned) }))

  -- The delay of the next turn is waited for, whatever becomes of the channel.
  suspended-HasMore :
      (ec started : Code) (nonce version : ℕ) (c : Link Address) (s : Session same links)
      → (s.stopped || is_service_stopped ec) ≡ true
      → HasMore 0 s (handle_accept ip same links settings ec started nonce version c s)
  unfolding handle_accept stopped_by
  suspended-HasMore ec started nonce version c s e =
      rw e (record { same_stop = refl; turned = omega arith })

  accepted-HasMore :
      (ec started : Code) (nonce version : ℕ) (c : Link Address) (s : Session same links)
      → (s.stopped || is_service_stopped ec) ≡ false
      → HasMore 1 s (handle_accept ip same links settings ec started nonce version c s)
  unfolding handle_accept stopped_by
  accepted-HasMore ec started nonce version c s e =
      let next : Session same links =
        does same links (delays (cycle_delay settings.connect_timeout_seconds ec))
          (awaits same links retry s) in
      let v : HasMore 1 s next = record { same_stop = refl; turned = omega arith } in
      rw e (
        if-both (HasMore 1 s) (is_error ec) (λ _. v)
          (λ _.
            if-both (HasMore 1 s) (blacklisted ip settings.blacklists c.authority) (λ _. v)
              (λ _.
                if-both (HasMore 1 s)
                  (leb (connection_limit settings) (Network.connection_count same links s.network))
                  (λ _. v) (λ _. register_channel-HasMore started nonce version c 1 s next v))))

  handle_handshake-HasMore :
      (ec : Code) (version nonce : ℕ) (c : Link Address) (s : Session same links)
      → HasMore 0 s (
          handle_handshake same links
            (handshake_complete ip same links settings
              (registered ip same links settings version c)
              nonce
              c)
            (registered ip same links settings version c)
            ec
            s)
  unfolding handle_handshake handshake_complete Sessions.handshake_complete
  handle_handshake-HasMore ec version nonce c s =
      let v : HasMore 0 s s = record { same_stop = refl; turned = omega arith } in
      if-both (HasMore 0 s) (is_error ec) (λ _. registered-HasMore version c ec 0 s s v)
        (λ _.
          if-both (HasMore 0 s) (Network.pending same links nonce s.network)
            (λ _. registered-HasMore version c accept_failed 0 s s v)
            (λ _.
              registered-HasMore version c _ 0 s _
                (record { same_stop = refl; turned = omega arith })))

  -- The wait at an index ends: the cycle has no more turns than before, and as many unless it gives up or
  -- the session has stopped.
  record Keeps (e : InboundEvent Address) (s t : Session same links) : Type 0 where
    same_stop : t.stopped ≡ s.stopped
    at_most : total turns t.waits ≤ total turns s.waits
    exactly : s.stopped ≡ false → gives_up e ≡ false → total turns t.waits ≡ total turns s.waits

  HasMore-Keeps :
      (e : InboundEvent Address) (k : ℕ) (s t u : Session same links)
      → t.stopped ≡ s.stopped
      → total turns t.waits + k ≡ total turns s.waits
      → HasMore k t u
      → Keeps e s u
  HasMore-Keeps e k s t u a b v = record {
    same_stop = v.same_stop ∙ a;
    at_most = omega (arith, v.turned);
    exactly = λ f g. omega (arith, v.turned);
  }

  dispatch-Keeps :
      (w : Wait Address) (i : ℕ) (e : End Address) (s t : Session same links)
      → t.stopped ≡ s.stopped
      → total turns t.waits + turns w ≡ total turns s.waits
      → Keeps (ends i e) s (dispatch ip same links settings w e s t)
  unfolding dispatch handle_started start_accept handle_remove handle_channel_stop
  dispatch-Keeps (starting ec) i (begins listened) s t a b = record {
    same_stop = ground arith;
    at_most = ground arith;
    exactly = λ f g. ground arith;
  }
  dispatch-Keeps accept i (accepts ec started nonce version c) s t a b =
      elim (Bool-cases (t.stopped || is_service_stopped ec)) [
        | inl bad ↦
            let v = suspended-HasMore ec started nonce version c t bad in
            record {
              same_stop = v.same_stop ∙ a;
              at_most = omega (arith, v.turned);
              exactly = λ f g. ground arith;
            }
        | inr good ↦
            HasMore-Keeps _ 1 s t _ a b (accepted-HasMore ec started nonce version c t good)
      ]
  dispatch-Keeps retry i wakes s t a b = record {
    same_stop = ground arith;
    at_most = ground arith;
    exactly = λ f g. ground arith;
  }
  dispatch-Keeps (handshake c) i (shakes ec version nonce) s t a b =
      HasMore-Keeps _ 0 s t _ a b (handle_handshake-HasMore ec version nonce c t)
  dispatch-Keeps (channel_stop c) i (stops ec) s t a b = record {
    same_stop = a;
    at_most = omega arith;
    exactly = λ f g. omega arith;
  }
  dispatch-Keeps _ i _ s t a b = record {
    same_stop = refl;
    at_most = omega arith;
    exactly = λ f g. refl;
  }

  end_wait-Keeps :
      (w : Option (Wait Address)) (i : ℕ) (e : End Address) (s : Session same links)
      → get_elem? s.waits i ≡ w
      → Keeps (ends i e) s (end_wait ip same links settings w i e s)
  unfolding end_wait
  end_wait-Keeps none i e s at = record {
    same_stop = refl;
    at_most = omega arith;
    exactly = λ f g. refl;
  }
  end_wait-Keeps (some w) i e s at =
      dispatch-Keeps w i e s (record s { waits = erase_at i s.waits }) refl
        (total-erase_at turns i s.waits at)

  -- The cycle has this many turns, unless it has given up or the session has stopped; it never has more.
  pub record IsCycling (k : ℕ) (given_up : Bool) (s : Session same links) : Type 0 where
    pub at_most : total turns s.waits ≤ k
    pub exactly : s.stopped ≡ false → given_up ≡ false → total turns s.waits ≡ k

  step-IsCycling :
      (k : ℕ) (given_up : Bool) (e : InboundEvent Address) (s : Session same links)
      → IsCycling k given_up s
      → IsCycling k (given_up || gives_up e) (step ip same links settings e s)
  unfolding step Sessions.handle_stop handle_stop
  step-IsCycling k given_up (ends i e) s v =
      let w = end_wait-Keeps (get_elem? s.waits i) i e s refl in
      record {
        at_most = omega (arith, v.at_most, w.at_most);
        exactly = λ f g. ground (arith, v.exactly, w.exactly, w.same_stop);
      }
  step-IsCycling k given_up (halts ec) s v = record { at_most = v.at_most; exactly = ground arith }
  step-IsCycling k given_up (relays_stop ec) s v = record {
    at_most = v.at_most;
    exactly = λ f g. ground (arith, v.exactly);
  }

  run-IsCycling :
      (k : ℕ) (given_up : Bool) (es : List (InboundEvent Address)) (s : Session same links)
      → IsCycling k given_up s
      → IsCycling k (given_up || any gives_up es) (run ip same links settings es s)
  unfolding run
  run-IsCycling k given_up [] s v = record {
    at_most = v.at_most;
    exactly = λ f g. ground (arith, v.exactly);
  }
  run-IsCycling k given_up (e ∷ es) s v =
      let w = run-IsCycling k (given_up || gives_up e) es _ (step-IsCycling k given_up e s v) in
      record { at_most = w.at_most; exactly = λ f g. ground (arith, w.exactly) }

  -- An inbound session that was started with no wait, on settings that allow inbound connections, has one
  -- turn of its accept cycle, whatever happens to it: it waits for its start, for the next channel or for
  -- the delay before it, and never for two of them. It is without a turn only after it was stopped, after
  -- the acceptor could not listen, or after an accept ended with `service_stopped`.
  pub run-start-IsCycling :
      (es : List (InboundEvent Address)) (s : Session same links)
      → (settings.inbound_port == 0 || settings.inbound_connections == 0) ≡ false
      → s.stopped ≡ true
      → s.waits ≡ []
      → IsCycling 1
          (any gives_up es)
          (run ip same links settings es (start ip same links settings s))
  unfolding start Sessions.start
  run-start-IsCycling es s allowed halted empty =
      run-IsCycling 1 false es _ (record { at_most = ground arith; exactly = ground arith })
