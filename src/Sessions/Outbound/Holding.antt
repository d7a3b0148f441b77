-- ===== src/Sessions/Outbound/Holding.antt =====
-- The channels that the steps of the outbound session leave with the node: src/sessions/session_outbound.cpp
-- and src/sessions/session.cpp over the collections of src/p2p.cpp.
use bitprim_network.Base.{
  ℕ, ◌+◌, ◌≤◌, ◌≡◌, Bool, false, ◌==◌, count_by, arith, if◌then◌else◌, if-both, Bool-cases, inl,
  inr,
}
use bitprim_network.Code.{Code, is_error}
use bitprim_network.Network
use bitprim_network.Network.{Link, Connections}
use bitprim_network.Network.Holding.{
  pending_has, opened_has, pend-has, unpend-has, store-has, remove-has,
}
use bitprim_network.Network.Library.{Pendings}
use bitprim_network.Sessions
use bitprim_network.Sessions.{
  Session, SessionSettings, Wait, starting, batch, retry, accept, handshake, channel_stop, does,
  awaits, attach_protocols, handle_start, handle_starting, handle_handshake, handshake_complete,
  handle_remove, register_channel, stops_channel, starts_channel,
}
use bitprim_network.Sessions.Registration.{attach_protocols_lem}
use bitprim_network.Sessions.Outbound.{
  Services, new_connection, handle_channel_start, handle_channel_stop, do_unpend,
  attach_handshake_protocols, registered, unpend_handler, start_channel, handle_connect,
}

-- Whether the wait is for the handshake of a link with this pointer, or for its stop.
abbrev pub shakes_with : {Address : Type 0} → ℕ → Wait Address → Bool
shakes_with pointer (handshake c) = c.pointer == pointer
shakes_with pointer _ = false

abbrev pub stops_with : {Address : Type 0} → ℕ → Wait Address → Bool
stops_with pointer (channel_stop c) = c.pointer == pointer
stops_with pointer _ = false

module _ {Address : Type 0} (same : Address → Address → Bool) (links : Pendings (Link Address))
    (services : Services) (settings : SessionSettings Address)
    (is_same_pointer : (c d : Link Address) → links.is_same c d ≡ (c.pointer == d.pointer))
    (pointer : ℕ) where
  abbrev pub one : Bool → ℕ
  one b = if b then 1 else 0

  -- A link with the pointer is pending, or open, only where the session waits for it, but for so many.
  pub record IsHeld (m n : ℕ) (s : Session same links) : Type 0 where
    pub shaken :
        one (pending_has same links pointer s.network) ≤ count_by (shakes_with pointer) s.waits + m
    pub open_held :
        one (opened_has same links pointer s.network) ≤ count_by (stops_with pointer) s.waits + n

  abbrev of : Link Address → ℕ
  of c = one (c.pointer == pointer)

  unpend-IsHeld :
      (c : Link Address) (n : ℕ) (s : Session same links)
      → IsHeld (of c) n s
      → IsHeld 0 n (record s { network = Network.unpend same links c s.network })
  unpend-IsHeld c n s v =
      let h = unpend-has same links is_same_pointer pointer c s.network in
      record { shaken = ground (arith, h, v.shaken); open_held = ground (arith, h, v.open_held) }

  pub new_connection-IsHeld :
      (m n : ℕ) (s : Session same links)
      → IsHeld m n s
      → IsHeld m n (new_connection same links services settings s)
  unfolding new_connection
  new_connection-IsHeld m n s v =
      if-both (IsHeld m n) s.stopped (λ _. v)
        (λ _. record { shaken = ground (arith, v.shaken); open_held = ground (arith, v.open_held) })

  -- The channel was stored if there is no error, and its stop is waited for.
  registered-IsHeld :
      (version : ℕ) (c : Link Address) (ec : Code) (s : Session same links)
      → IsHeld 0 (if is_error ec then 0 else of c) s
      → IsHeld 0 0 (registered same links services settings version c ec s)
  unfolding handle_start handle_channel_start handle_channel_stop
  registered-IsHeld version c ec s v =
      let a =
        attach_protocols_lem same links settings c version (awaits same links (channel_stop c) s) in
      elim (Bool-cases (is_error ec)) [
        | inl bad ↦ rw bad (
            new_connection-IsHeld 0 0 (does same links (stops_channel c.pointer ec) s)
              (record { shaken = v.shaken; open_held = ground (arith, v.open_held, bad) }))
        | inr good ↦ rw good (record {
          shaken = rw (a.2, a.1) (omega (arith, v.shaken));
          open_held = rw (a.2, a.1) (ground (arith, v.open_held, good));
        })
      ]

  unpend_handler-IsHeld :
      (version : ℕ) (c : Link Address) (ec : Code) (s : Session same links)
      → IsHeld (of c) (if is_error ec then 0 else of c) s
      → IsHeld 0 0 (unpend_handler same links services settings version c ec s)
  unfolding do_unpend
  unpend_handler-IsHeld version c ec s v =
      registered-IsHeld version c ec _ (unpend-IsHeld c (if is_error ec then 0 else of c) s v)

  pend-IsHeld :
      (c : Link Address) (n : ℕ) (s : Session same links)
      → IsHeld 0 n s
      → IsHeld (of c) n (record s { network = (Network.pend same links c s.network).0 })
  pend-IsHeld c n s v =
      let h = pend-has same links is_same_pointer pointer c s.network in
      record { shaken = ground (arith, h, v.shaken); open_held = ground (arith, h, v.open_held) }

  store-IsHeld :
      (c : Link Address) (m : ℕ) (s : Session same links)
      → IsHeld m 0 s
      → let (next, ec) = Network.store same links c s.network in
        IsHeld m (if is_error ec then 0 else of c) (record s { network = next })
  store-IsHeld c m s v =
      let h = store-has same links is_same_pointer pointer c s.network in
      record { shaken = ground (arith, h, v.shaken); open_held = ground (arith, h, v.open_held) }

  start_channel-IsHeld :
      (started : Code) (nonce version : ℕ) (c : Link Address) (s : Session same links)
      → IsHeld 0 0 s
      → IsHeld 0 0 (start_channel same links services settings started nonce version c s)
  unfolding start_channel Sessions.start_channel handle_starting attach_handshake_protocols
      Network.set_nonce
  start_channel-IsHeld started nonce version c s v =
      let p = pend-IsHeld c 0 s v in
      let (next, ec) = Network.pend same links c s.network in
      if-both (IsHeld 0 0) (is_error ec)
        (λ bad.
          unpend_handler-IsHeld version c ec _
            (record { shaken = p.shaken; open_held = ground (arith, p.open_held, bad) }))
        (λ _.
          if-both (IsHeld 0 0) (is_error started)
            (λ bad.
              unpend_handler-IsHeld version (record c { notify = s.notify_on_connect }) started _
                (record { shaken = p.shaken; open_held = ground (arith, p.open_held, bad) }))
            (λ _. record {
              shaken = omega (arith, p.shaken);
              open_held = omega (arith, p.open_held);
            }))

  pub handle_connect-IsHeld :
      (ec started : Code) (nonce version : ℕ) (c : Link Address) (s : Session same links)
      → IsHeld 0 0 s
      → IsHeld 0 0 (handle_connect same links services settings ec started nonce version c s)
  unfolding handle_connect register_channel handle_channel_start handle_channel_stop
  handle_connect-IsHeld ec started nonce version c s v =
      if-both (IsHeld 0 0) (is_error ec)
        (λ _. record { shaken = omega (arith, v.shaken); open_held = omega (arith, v.open_held) })
        (λ _.
          if-both (IsHeld 0 0) s.stopped (λ _. new_connection-IsHeld 0 0 s v)
            (λ _. start_channel-IsHeld started nonce version c s v))

  -- The handshake of a channel ends: it is pending no more, and open only if it was stored.
  pub handle_handshake-IsHeld :
      (ec : Code) (version : ℕ) (c : Link Address) (s : Session same links)
      → IsHeld (of c) 0 s
      → IsHeld 0 0 (
          handle_handshake same links
            (handshake_complete same links
              (unpend_handler same links services settings version c)
              c)
            (unpend_handler same links services settings version c)
            ec
            s)
  unfolding handle_handshake handshake_complete
  handle_handshake-IsHeld ec version c s v =
      if-both (IsHeld 0 0) (is_error ec)
        (λ bad.
          unpend_handler-IsHeld version c ec s
            (record { shaken = v.shaken; open_held = ground (arith, v.open_held, bad) }))
        (λ _. unpend_handler-IsHeld version c _ _ (store-IsHeld c (of c) s v))

  pub remove-IsHeld :
      (c : Link Address) (s : Session same links)
      → IsHeld 0 (of c) s
      → IsHeld 0 0 (record s { network = Network.remove same links c s.network })
  remove-IsHeld c s v =
      let h = remove-has same links is_same_pointer pointer c s.network in
      record { shaken = ground (arith, h, v.shaken); open_held = ground (arith, h, v.open_held) }
