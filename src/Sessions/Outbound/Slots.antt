-- ===== src/Sessions/Outbound/Slots.antt =====
-- The number of connections that the outbound session works on: src/sessions/session_outbound.cpp.
use bitprim_network.Base.{
  ℕ, zero, suc, ◌+◌, ◌≤◌, ◌≡◌, refl, Bool, true, false, Option, none, some, List, [], ◌∷◌,
  get_elem?, erase_at, total, total-erase_at, arith, if◌then◌else◌, if-both, ◌∙◌,
}
use bitprim_network.Code.{Code, is_error}
use bitprim_network.Network
use bitprim_network.Network.{Link}
use bitprim_network.Network.Library.{Pendings}
use bitprim_network.Sessions
use bitprim_network.Sessions.Registration.{attach_protocols_lem}
use bitprim_network.Sessions.{
  Session, SessionSettings, Wait, starting, batch, retry, accept, handshake, channel_stop, does,
  awaits, attach_protocols, handle_start, handle_starting, handle_handshake, handshake_complete,
  handle_remove, register_channel,
}
use bitprim_network.Sessions.Outbound.{
  Services, new_connection, new_connections, handle_started, start, handle_channel_start,
  handle_channel_stop, do_unpend, attach_handshake_protocols, registered, unpend_handler,
  start_channel, handle_connect, End, connects, begins, wakes, shakes, stops, dispatch, end_wait,
  OutboundEvent, ends, halts, step, run,
}

module _ {Address : Type 0} (same : Address → Address → Bool) (links : Pendings (Link Address))
    (services : Services) (settings : SessionSettings Address) where
  -- How many connections a wait is for: a start is for all of them.
  abbrev slots : Wait Address → ℕ
  slots (starting ec) = if is_error ec then 0 else settings.outbound_connections
  slots _ = 1

  -- One connection more than before; on a session that has stopped, one at most.
  record OneMore (s t : Session same links) : Type 0 where
    same_stop : t.stopped ≡ s.stopped
    at_most : total slots t.waits ≤ total slots s.waits + 1
    exactly : s.stopped ≡ false → total slots t.waits ≡ total slots s.waits + 1

  new_connection-OneMore :
      (s t : Session same links)
      → t.stopped ≡ s.stopped
      → t.waits ≡ s.waits
      → OneMore s (new_connection same links services settings t)
  unfolding new_connection
  new_connection-OneMore s t e f = record {
    same_stop = ground arith;
    at_most = ground arith;
    exactly = ground arith;
  }

  registered-OneMore :
      (version : ℕ) (c : Link Address) (ec : Code) (s t : Session same links)
      → t.stopped ≡ s.stopped
      → t.waits ≡ s.waits
      → OneMore s (registered same links services settings version c ec t)
  unfolding handle_start handle_channel_start handle_channel_stop new_connection
  registered-OneMore version c ec s t e f =
      let a =
        attach_protocols_lem same links settings c version (awaits same links (channel_stop c) t) in
      record {
        same_stop = ground (arith, a);
        at_most = ground (arith, a);
        exactly = ground (arith, a);
      }

  start_channel-OneMore :
      (started : Code) (nonce version : ℕ) (c : Link Address) (s : Session same links)
      → OneMore s (start_channel same links services settings started nonce version c s)
  unfolding start_channel do_unpend Sessions.start_channel handle_starting
      attach_handshake_protocols
  start_channel-OneMore started nonce version c s =
      let (next, ec) = Network.pend same links c s.network in
      if-both (OneMore s) (is_error ec) (λ _. registered-OneMore version c ec s _ refl refl)
        (λ _.
          if-both (OneMore s) (is_error started)
            (λ _. registered-OneMore version _ started s _ refl refl)
            (λ _. record { same_stop = refl; at_most = omega arith; exactly = λ _. omega arith }))

  handle_connect-OneMore :
      (ec started : Code) (nonce version : ℕ) (c : Link Address) (s : Session same links)
      → OneMore s (handle_connect same links services settings ec started nonce version c s)
  unfolding handle_connect register_channel handle_channel_start handle_channel_stop
  handle_connect-OneMore ec started nonce version c s =
      if-both (OneMore s) (is_error ec)
        (λ _. record { same_stop = refl; at_most = omega arith; exactly = λ _. omega arith })
        (λ _.
          if-both (OneMore s) s.stopped (λ _. new_connection-OneMore s s refl refl)
            (λ _. start_channel-OneMore started nonce version c s))

  handle_handshake-OneMore :
      (ec : Code) (version : ℕ) (c : Link Address) (s : Session same links)
      → OneMore s (
          handle_handshake same links
            (handshake_complete same links
              (unpend_handler same links services settings version c)
              c)
            (unpend_handler same links services settings version c)
            ec
            s)
  unfolding handle_handshake handshake_complete do_unpend
  handle_handshake-OneMore ec version c s =
      if-both (OneMore s) (is_error ec) (λ _. registered-OneMore version c ec s _ refl refl)
        (λ _. registered-OneMore version c _ s _ refl refl)

  -- The wait at an index ends, and another takes its place.
  record Keeps (s t : Session same links) : Type 0 where
    same_stop : t.stopped ≡ s.stopped
    at_most : total slots t.waits ≤ total slots s.waits
    exactly : s.stopped ≡ false → total slots t.waits ≡ total slots s.waits

  OneMore-Keeps :
      (s t u : Session same links)
      → t.stopped ≡ s.stopped
      → total slots t.waits + 1 ≡ total slots s.waits
      → OneMore t u
      → Keeps s u
  OneMore-Keeps s t u e f v = record {
    same_stop = ground (arith, v.same_stop);
    at_most = ground (arith, v.at_most);
    exactly = ground (arith, v.exactly);
  }

  new_connections_lem :
      (n : ℕ) (s : Session same links)
      → let t = new_connections same links services settings n s in
        (t.stopped ≡ s.stopped)
        × (total slots t.waits ≤ total slots s.waits + n)
        × (s.stopped ≡ false → total slots t.waits ≡ total slots s.waits + n)
  unfolding new_connections
  new_connections_lem zero s = (refl, omega arith, λ e. omega arith)
  new_connections_lem (suc n) s =
      let v = new_connection-OneMore s s refl refl in
      let (stop, most, exact) =
        new_connections_lem n (new_connection same links services settings s) in
      (
        stop ∙ v.same_stop,
        omega (arith, most, v.at_most),
        λ e. omega (arith, exact (v.same_stop ∙ e), v.exactly e),
      )

  handle_started-Keeps :
      (ec : Code) (s t : Session same links)
      → t.stopped ≡ s.stopped
      → total slots t.waits + slots (starting ec) ≡ total slots s.waits
      → Keeps s (handle_started same links services settings ec t)
  unfolding handle_started
  handle_started-Keeps ec s t a b =
      let (stop, most, exact) = new_connections_lem settings.outbound_connections t in
      if-both (Keeps s) (is_error ec)
        (λ bad. record {
          same_stop = a;
          at_most = ground (arith, b);
          exactly = λ _. ground (arith, b, bad);
        })
        (λ good. record {
          same_stop = stop ∙ a;
          at_most = ground (arith, most, b, good);
          exactly = λ e. ground (arith, exact (a ∙ e), b, good);
        })

  dispatch-Keeps :
      (w : Wait Address) (e : End Address) (s t : Session same links)
      → t.stopped ≡ s.stopped
      → total slots t.waits + slots w ≡ total slots s.waits
      → Keeps s (dispatch same links services settings w e s t)
  unfolding dispatch handle_remove handle_channel_stop
  dispatch-Keeps (starting ec) begins s t a b = handle_started-Keeps ec s t a b
  dispatch-Keeps batch (connects ec started nonce version c) s t a b =
      OneMore-Keeps s t _ a b (handle_connect-OneMore ec started nonce version c t)
  dispatch-Keeps retry wakes s t a b =
      OneMore-Keeps s t _ a b (new_connection-OneMore t t refl refl)
  dispatch-Keeps (handshake c) (shakes ec version) s t a b =
      OneMore-Keeps s t _ a b (handle_handshake-OneMore ec version c t)
  dispatch-Keeps (channel_stop c) (stops ec) s t a b =
      OneMore-Keeps s t _ a b (new_connection-OneMore t _ refl refl)
  dispatch-Keeps _ _ s t a b = record {
    same_stop = refl;
    at_most = omega arith;
    exactly = λ _. refl;
  }

  end_wait-Keeps :
      (w : Option (Wait Address)) (i : ℕ) (e : End Address) (s : Session same links)
      → get_elem? s.waits i ≡ w
      → Keeps s (end_wait same links services settings w i e s)
  unfolding end_wait
  end_wait-Keeps none i e s at = record {
    same_stop = refl;
    at_most = omega arith;
    exactly = λ _. refl;
  }
  end_wait-Keeps (some w) i e s at =
      dispatch-Keeps w e s (record s { waits = erase_at i s.waits }) refl
        (total-erase_at slots i s.waits at)

  -- So many connections are worked on, and on a session that has stopped no more.
  pub record IsFull (k : ℕ) (s : Session same links) : Type 0 where
    pub at_most : total slots s.waits ≤ k
    pub exactly : s.stopped ≡ false → total slots s.waits ≡ k

  step-IsFull :
      (k : ℕ) (e : OutboundEvent Address) (s : Session same links)
      → IsFull k s
      → IsFull k (step same links services settings e s)
  unfolding step Sessions.handle_stop
  step-IsFull k (ends i e) s v =
      let w = end_wait-Keeps (get_elem? s.waits i) i e s refl in
      record {
        at_most = ground (arith, v.at_most, w.at_most);
        exactly = ground (arith, v.exactly, w.exactly, w.same_stop);
      }
  step-IsFull k (halts ec) s v = record { at_most = v.at_most; exactly = ground arith }

  run-IsFull :
      (k : ℕ) (es : List (OutboundEvent Address)) (s : Session same links)
      → IsFull k s
      → IsFull k (run same links services settings es s)
  unfolding run
  run-IsFull k [] s v = v
  run-IsFull k (e ∷ es) s v = run-IsFull k es _ (step-IsFull k e s v)

  -- An outbound session that was started with no wait works on as many connections as the settings say,
  -- whatever happens to it, until it is stopped; from then on it works on no more than that. Each of its
  -- waits is for one connection, but the wait for the thread that goes on with the start, which is for
  -- all of them.
  pub run-start-IsFull :
      (es : List (OutboundEvent Address)) (s : Session same links)
      → s.stopped ≡ true
      → s.waits ≡ []
      → IsFull settings.outbound_connections
          (run same links services settings es (start same links services settings s))
  unfolding start Sessions.start
  run-start-IsFull es s halted empty =
      let k = settings.outbound_connections in
      run-IsFull k es _ (record { at_most = ground arith; exactly = ground arith })
