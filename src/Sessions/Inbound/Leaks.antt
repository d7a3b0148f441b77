-- ===== src/Sessions/Inbound/Leaks.antt =====
-- The channels that the inbound session leaves with the node: src/sessions/session_inbound.cpp and
-- src/sessions/session.cpp over the collections of src/p2p.cpp.
use bitprim_network.Base.{
  ℕ, ◌+◌, ◌≤◌, ◌≡◌, refl, Bool, false, Option, none, some, List, [], ◌∷◌, ◌==◌, leb, get_elem?,
  erase_at, count_by, count_by-erase_at, arith, if◌then◌else◌, if-both, Bool-cases, inl, inr,
}
use bitprim_network.Code.{Code, accept_failed, is_error}
use bitprim_network.Network
use bitprim_network.Network.{Link}
use bitprim_network.Network.Holding.{has, opened_has, store-has, remove-has}
use bitprim_network.Network.Library.{Pendings}
use bitprim_network.Sessions
use bitprim_network.Sessions.{
  Session, SessionSettings, Wait, starting, batch, retry, accept, handshake, channel_stop, does,
  awaits, delays, cycle_delay, blacklisted, stopped_by, stops_channel, handle_start,
  handle_starting, handle_handshake, handle_remove, register_channel,
}
use bitprim_network.Sessions.Registration.{attach_protocols_lem}
use bitprim_network.Sessions.Outbound.Holding.{stops_with}
use bitprim_network.Sessions.Inbound.{
  start_accept, handle_started, start, handle_stop, handle_channel_start, handle_channel_stop,
  registered, start_channel, handle_accept, handshake_complete, connection_limit, End, begins,
  accepts, wakes, shakes, stops, dispatch, end_wait, InboundEvent, ends, halts, relays_stop, step,
  run,
}

module _ {Address : Type 0} (ip : Address → ℕ) (same : Address → Address → Bool)
    (links : Pendings (Link Address)) (settings : SessionSettings Address)
    (is_same_pointer : (c d : Link Address) → links.is_same c d ≡ (c.pointer == d.pointer))
    (pointer : ℕ) where
  -- A link with the pointer is open only where the session waits for its stop, but for so many.
  record IsHeld (n : ℕ) (s : Session same links) : Type 0 where
    held :
        (if opened_has same links pointer s.network then 1 else 0)
        ≤ count_by (stops_with pointer) s.waits + n

  abbrev of : Link Address → ℕ
  of c = if c.pointer == pointer then 1 else 0

  -- The channel was stored if there is no error, and its stop is waited for.
  registered-IsHeld :
      (version : ℕ) (c : Link Address) (ec : Code) (s : Session same links)
      → IsHeld (if is_error ec then 0 else of c) s
      → IsHeld 0 (registered ip same links settings version c ec s)
  unfolding handle_start handle_channel_start handle_channel_stop
  registered-IsHeld version c ec s v =
      let a =
        attach_protocols_lem same links settings c version (awaits same links (channel_stop c) s) in
      elim (Bool-cases (is_error ec)) [
        | inl bad ↦ rw bad (record { held = ground (arith, v.held, bad) })
        | inr good ↦ rw good (record { held = rw (a.2, a.1) (ground (arith, v.held, good)) })
      ]

  register_channel-IsHeld :
      (started : Code) (nonce version : ℕ) (c : Link Address) (s : Session same links)
      → IsHeld 0 s
      → IsHeld 0 (
          register_channel same links
            (start_channel ip same links settings started nonce version c)
            (handle_channel_start ip same links settings version c)
            (handle_channel_stop ip same links settings)
            s)
  unfolding register_channel handle_channel_start handle_channel_stop Sessions.start_channel
      handle_starting Sessions.attach_handshake_protocols Network.set_nonce
  register_channel-IsHeld started nonce version c s v =
      if-both (IsHeld 0) s.stopped (λ _. record { held = v.held })
        (λ _.
          if-both (IsHeld 0) (is_error started)
            (λ bad.
              registered-IsHeld version _ started _ (record { held = ground (arith, v.held, bad) }))
            (λ _. record { held = omega (arith, v.held) }))

  handle_accept-IsHeld :
      (ec started : Code) (nonce version : ℕ) (c : Link Address) (s : Session same links)
      → IsHeld 0 s
      → IsHeld 0 (handle_accept ip same links settings ec started nonce version c s)
  unfolding handle_accept
  handle_accept-IsHeld ec started nonce version c s v =
      let next : Session same links =
        does same links (delays (cycle_delay settings.connect_timeout_seconds ec))
          (awaits same links retry s) in
      let u : IsHeld 0 next = record { held = omega (arith, v.held) } in
      if-both (IsHeld 0) (stopped_by same links ec s) (λ _. v)
        (λ _.
          if-both (IsHeld 0) (is_error ec) (λ _. u)
            (λ _.
              if-both (IsHeld 0) (blacklisted ip settings.blacklists c.authority) (λ _. u)
                (λ _.
                  if-both (IsHeld 0)
                    (leb (connection_limit settings)
                      (Network.connection_count same links s.network))
                    (λ _. u) (λ _. register_channel-IsHeld started nonce version c next u))))

  handle_handshake-IsHeld :
      (ec : Code) (version nonce : ℕ) (c : Link Address) (s : Session same links)
      → IsHeld 0 s
      → IsHeld 0 (
          handle_handshake same links
            (handshake_complete ip same links settings
              (registered ip same links settings version c)
              nonce
              c)
            (registered ip same links settings version c)
            ec
            s)
  unfolding handle_handshake handshake_complete Sessions.handshake_complete
  handle_handshake-IsHeld ec version nonce c s v =
      let h = store-has same links is_same_pointer pointer c s.network in
      let (next, stored) = Network.store same links c s.network in
      if-both (IsHeld 0) (is_error ec)
        (λ bad. registered-IsHeld version c ec s (record { held = ground (arith, v.held, bad) }))
        (λ _.
          if-both (IsHeld 0) (Network.pending same links nonce s.network)
            (λ _. registered-IsHeld version c accept_failed s v)
            (λ _.
              registered-IsHeld version c stored (record s { network = next })
                (record { held = ground (arith, v.held, h) })))

  remove-IsHeld :
      (c : Link Address) (ec : Code) (s : Session same links)
      → IsHeld (of c) s
      → IsHeld 0 (handle_remove same links (handle_channel_stop ip same links settings) c ec s)
  unfolding handle_remove handle_channel_stop
  remove-IsHeld c ec s v = record {
    held = ground (arith, v.held, remove-has same links is_same_pointer pointer c s.network);
  }

  dispatch-IsHeld :
      (w : Wait Address) (e : End Address) (s t : Session same links)
      → IsHeld 0 s
      → IsHeld (if stops_with pointer w then 1 else 0) t
      → IsHeld 0 (dispatch ip same links settings w e s t)
  unfolding dispatch handle_started start_accept
  dispatch-IsHeld (starting ec) (begins listened) s t v u = record { held = ground (arith, u.held) }
  dispatch-IsHeld accept (accepts ec started nonce version c) s t v u =
      handle_accept-IsHeld ec started nonce version c t u
  dispatch-IsHeld retry wakes s t v u = record { held = ground (arith, u.held) }
  dispatch-IsHeld (handshake c) (shakes ec version nonce) s t v u =
      handle_handshake-IsHeld ec version nonce c t u
  dispatch-IsHeld (channel_stop c) (stops ec) s t v u = remove-IsHeld c ec t u
  dispatch-IsHeld _ _ s t v u = v

  end_wait-IsHeld :
      (w : Option (Wait Address)) (i : ℕ) (e : End Address) (s : Session same links)
      → get_elem? s.waits i ≡ w
      → IsHeld 0 s
      → IsHeld 0 (end_wait ip same links settings w i e s)
  unfolding end_wait
  end_wait-IsHeld none i e s at v = v
  end_wait-IsHeld (some w) i e s at v =
      dispatch-IsHeld w e s (record s { waits = erase_at i s.waits }) v
        (record {
          held = omega (arith, v.held, count_by-erase_at (stops_with pointer) i s.waits at);
        })

  step-IsHeld :
      (e : InboundEvent Address) (s : Session same links)
      → IsHeld 0 s
      → IsHeld 0 (step ip same links settings e s)
  unfolding step Sessions.handle_stop handle_stop
  step-IsHeld (ends i e) s v = end_wait-IsHeld (get_elem? s.waits i) i e s refl v
  step-IsHeld (halts ec) s v = record { held = v.held }
  step-IsHeld (relays_stop ec) s v = record { held = v.held }

  run-IsHeld :
      (es : List (InboundEvent Address)) (s : Session same links)
      → IsHeld 0 s
      → IsHeld 0 (run ip same links settings es s)
  unfolding run
  run-IsHeld [] s v = v
  run-IsHeld (e ∷ es) s v = run-IsHeld es _ (step-IsHeld e s v)

  -- The inbound session leaks no channel, whatever happens to it from its start on: a channel that was not
  -- open at the start, by its pointer, is open only while the session waits for its stop. The
  -- collections tell links apart by their pointers.
  pub run-start-closes :
      (es : List (InboundEvent Address)) (s : Session same links)
      → has pointer (links.elements s.network.pending_close) ≡ false
      → let t = run ip same links settings es (start ip same links settings s) in
        (if has pointer (links.elements t.network.pending_close) then 1 else 0)
        ≤ count_by (stops_with pointer) t.waits
  unfolding start Sessions.start
  run-start-closes es s closed =
      let v =
        run-IsHeld es (start ip same links settings s) (record { held = ground (arith, closed) }) in
      omega (arith, v.held)
