-- ===== src/Sessions/Outbound/Leaks.antt =====
-- The channels that the outbound session leaves with the node: src/sessions/session_outbound.cpp and
-- src/sessions/session.cpp over the collections of src/p2p.cpp.
use bitprim_network.Base.{
  ℕ, zero, suc, ◌≤◌, ◌≡◌, refl, Bool, false, Option, none, some, List, [], ◌∷◌, ◌==◌, get_elem?,
  erase_at, count_by, count_by-erase_at, arith, if◌then◌else◌, if-both,
}
use bitprim_network.Code.{Code, is_error}
use bitprim_network.Network.{Link}
use bitprim_network.Network.Holding.{has}
use bitprim_network.Network.Library.{Pendings}
use bitprim_network.Sessions
use bitprim_network.Sessions.{
  Session, SessionSettings, Wait, starting, batch, retry, accept, handshake, channel_stop, does,
  awaits, attach_protocols, handle_start, handle_starting, handle_handshake, handshake_complete,
  handle_remove, register_channel, stops_channel, starts_channel,
}
use bitprim_network.Sessions.Outbound.{
  Services, new_connections, handle_started, start, handle_channel_stop, End, connects, begins,
  wakes, shakes, stops, dispatch, end_wait, OutboundEvent, ends, halts, step, run,
}
use bitprim_network.Sessions.Outbound.Holding.{
  shakes_with, stops_with, IsHeld, new_connection-IsHeld, handle_connect-IsHeld,
  handle_handshake-IsHeld, remove-IsHeld,
}

module _ {Address : Type 0} (same : Address → Address → Bool) (links : Pendings (Link Address))
    (services : Services) (settings : SessionSettings Address)
    (is_same_pointer : (c d : Link Address) → links.is_same c d ≡ (c.pointer == d.pointer))
    (pointer : ℕ) where
  abbrev Held : ℕ → ℕ → Session same links → Type 0
  Held = IsHeld same links services settings is_same_pointer pointer

  new_connections-IsHeld :
      (n : ℕ) (s : Session same links)
      → Held 0 0 s
      → Held 0 0 (new_connections same links services settings n s)
  unfolding new_connections
  new_connections-IsHeld zero s v = v
  new_connections-IsHeld (suc n) s v =
      new_connections-IsHeld n _
        (new_connection-IsHeld same links services settings is_same_pointer pointer 0 0 s v)

  handle_started-IsHeld :
      (ec : Code) (s : Session same links)
      → Held 0 0 s
      → Held 0 0 (handle_started same links services settings ec s)
  unfolding handle_started
  handle_started-IsHeld ec s v =
      let w = new_connections-IsHeld settings.outbound_connections s v in
      if-both (Held 0 0) (is_error ec) (λ _. record { shaken = v.shaken; open_held = v.open_held })
        (λ _. record { shaken = w.shaken; open_held = w.open_held })

  dispatch-IsHeld :
      (w : Wait Address) (e : End Address) (s t : Session same links)
      → Held 0 0 s
      → Held (if shakes_with pointer w then 1 else 0) (if stops_with pointer w then 1 else 0) t
      → Held 0 0 (dispatch same links services settings w e s t)
  unfolding dispatch handle_remove handle_channel_stop
  dispatch-IsHeld (starting ec) begins s t v u = handle_started-IsHeld ec t u
  dispatch-IsHeld batch (connects ec started nonce version c) s t v u =
      handle_connect-IsHeld same links services settings is_same_pointer pointer ec started nonce
        version c t u
  dispatch-IsHeld retry wakes s t v u =
      new_connection-IsHeld same links services settings is_same_pointer pointer 0 0 t u
  dispatch-IsHeld (handshake c) (shakes ec version) s t v u =
      handle_handshake-IsHeld same links services settings is_same_pointer pointer ec version c t u
  dispatch-IsHeld (channel_stop c) (stops ec) s t v u =
      new_connection-IsHeld same links services settings is_same_pointer pointer 0 0 _
        (remove-IsHeld same links services settings is_same_pointer pointer c t u)
  dispatch-IsHeld _ _ s t v u = v

  end_wait-IsHeld :
      (w : Option (Wait Address)) (i : ℕ) (e : End Address) (s : Session same links)
      → get_elem? s.waits i ≡ w
      → Held 0 0 s
      → Held 0 0 (end_wait same links services settings w i e s)
  unfolding end_wait
  end_wait-IsHeld none i e s at v = v
  end_wait-IsHeld (some w) i e s at v =
      dispatch-IsHeld w e s (record s { waits = erase_at i s.waits }) v
        (record {
          shaken = omega (arith, v.shaken, count_by-erase_at (shakes_with pointer) i s.waits at);
          open_held =
              omega (arith, v.open_held, count_by-erase_at (stops_with pointer) i s.waits at);
        })

  step-IsHeld :
      (e : OutboundEvent Address) (s : Session same links)
      → Held 0 0 s
      → Held 0 0 (step same links services settings e s)
  unfolding step Sessions.handle_stop
  step-IsHeld (ends i e) s v = end_wait-IsHeld (get_elem? s.waits i) i e s refl v
  step-IsHeld (halts ec) s v = record { shaken = v.shaken; open_held = v.open_held }

  run-IsHeld :
      (es : List (OutboundEvent Address)) (s : Session same links)
      → Held 0 0 s
      → Held 0 0 (run same links services settings es s)
  unfolding run
  run-IsHeld [] s v = v
  run-IsHeld (e ∷ es) s v = run-IsHeld es _ (step-IsHeld e s v)

  -- The outbound session leaks no channel, whatever happens to it from its start on: a channel that the
  -- node neither had pending nor open at the start, by its pointer, is pending only while the session waits
  -- for its handshake, and open only while it waits for its stop. The collections tell links apart by
  -- their pointers.
  pub run-start-no_leak :
      (es : List (OutboundEvent Address)) (s : Session same links)
      → has pointer (links.elements s.network.pending_handshake) ≡ false
      → has pointer (links.elements s.network.pending_close) ≡ false
      → let t = run same links services settings es (start same links services settings s) in
        ((if has pointer (links.elements t.network.pending_handshake) then 1 else 0)
          ≤ count_by (shakes_with pointer) t.waits)
        × ((if has pointer (links.elements t.network.pending_close) then 1 else 0)
            ≤ count_by (stops_with pointer) t.waits)
  unfolding start Sessions.start
  run-start-no_leak es s unshaken closed =
      let began = start same links services settings s in
      let v : Held 0 0 began = record {
        shaken = ground (arith, unshaken);
        open_held = ground (arith, closed);
      } in
      let u = run-IsHeld es began v in (omega (arith, u.shaken), omega (arith, u.open_held))
