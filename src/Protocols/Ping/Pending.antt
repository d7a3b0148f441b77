-- ===== src/Protocols/Ping/Pending.antt =====
-- What waits between a ping and its pong: src/protocols/protocol_ping_60001.cpp.
use bitprim_network.Base.{
  ℕ, ◌≡◌, ◌≤◌, ◌⊎◌, refl, true, false, not, List, [], ◌∷◌, ◌++◌, ◌+◌, length, if◌then◌else◌,
  if-both, arith,
}
use bitprim_network.Code.{Code, success, channel_timeout, channel_stopped}
use bitprim_network.Protocols.{Protocol, send, emit, stops, construct, ping_message}
use bitprim_network.Protocols.Events
use bitprim_network.Protocols.Timer
use bitprim_network.Protocols.Ping.{
  from_60001, Ping, send_ping, start, handle_send_ping, handle_receive_ping, handle_receive_pong,
  receive_pong,
}

-- What can happen to a heartbeat.
pub data PingEvent : Type 0 where
  gets_ping : Code → ℕ → PingEvent
  gets_pong : Code → ℕ → PingEvent
  ping_sent : Code → PingEvent
  timer_fires : PingEvent
  channel_stops : Code → PingEvent

module _ (Address : Type 0) (random : ℕ → ℕ) where
  unfoldable pub step : PingEvent → Protocol Address Ping → Protocol Address Ping
  step (gets_ping ec nonce) p =
      if p.own.awaits_ping
      then (let (q, again) =
            handle_receive_ping Address random from_60001 ec nonce
              (record p { own = record p.own { awaits_ping = false } }) in
          record q { own = record q.own { awaits_ping = again } })
      else p
  step (gets_pong ec received) p =
      receive_pong Address random ec received p.own.pongs
        (record p { own = record p.own { pongs = [] } })
  step (ping_sent ec) p = handle_send_ping Address random ec p
  step timer_fires p = Timer.fire true (send_ping Address random from_60001) p
  step (channel_stops ec) p = Timer.handle_stopped true (send_ping Address random from_60001) ec p

  unfoldable pub run : List PingEvent → Protocol Address Ping → Protocol Address Ping
  run [] p = p
  run (e ∷ es) p = run es (step e p)

  -- A ping waits for its pong, or none does.
  record IsPinging (p : Protocol Address Ping) : Type 0 where
    single : length p.own.pongs ≤ 1
    settled : p.own.pending ≡ false → p.own.pongs ≡ []

  send_ping-IsPinging :
      (ec : Code) (p : Protocol Address Ping)
      → IsPinging p
      → IsPinging (send_ping Address random from_60001 ec p)
  unfolding send_ping
  send_ping-IsPinging ec p v = record { single = ground arith; settled = ground arith }

  set_event-IsPinging :
      (ec : Code) (p : Protocol Address Ping)
      → IsPinging p
      → IsPinging (Timer.set_event true (send_ping Address random from_60001) ec p)
  unfolding Timer.set_event Events.set_event Timer.handle_notify
  set_event-IsPinging ec p v =
      if-both IsPinging (not p.handler) (λ _. v)
        (λ _. send_ping-IsPinging ec _ (record { single = ground arith; settled = ground arith }))

  receive_pong-IsPinging :
      (ec : Code) (received : ℕ) (nonces : List ℕ) (p : Protocol Address Ping)
      → p.own.pongs ≡ []
      → (receive_pong Address random ec received nonces p).own.pongs ≡ []
  unfolding receive_pong handle_receive_pong
  receive_pong-IsPinging ec received [] p e = e
  receive_pong-IsPinging ec received (nonce ∷ rest) p e =
      receive_pong-IsPinging ec received rest _ (ground arith)

  fire-IsPinging :
      (p : Protocol Address Ping)
      → IsPinging p
      → IsPinging (Timer.fire true (send_ping Address random from_60001) p)
  unfolding Timer.fire Timer.handle_timer Timer.reset_timer
  fire-IsPinging p v =
      let q = record p { timer = false } in
      let w : IsPinging q = record { single = v.single; settled = v.settled } in
      let s = set_event-IsPinging channel_timeout q w in
      if-both IsPinging p.timer
        (λ _.
          if-both IsPinging (Timer.stopped true (send_ping Address random from_60001) q) (λ _. w)
            (λ _. record {
              single = ground (arith, s.single);
              settled = ground (arith, s.settled);
            }))
        (λ _. v)

  step-IsPinging : (e : PingEvent) (p : Protocol Address Ping) → IsPinging p → IsPinging (step e p)
  unfolding step handle_receive_ping handle_send_ping Timer.handle_stopped Events.handle_stopped
      Timer.set_event
  step-IsPinging (gets_ping ec nonce) p v = record {
    single = ground (arith, v.single);
    settled = ground (arith, v.settled);
  }
  step-IsPinging (gets_pong ec received) p v =
      let e =
        receive_pong-IsPinging ec received p.own.pongs
          (record p { own = record p.own { pongs = [] } }) refl in
      record { single = ground (arith, e); settled = λ _. e }
  step-IsPinging (ping_sent ec) p v = record {
    single = ground (arith, v.single);
    settled = ground (arith, v.settled);
  }
  step-IsPinging timer_fires p v = fire-IsPinging p v
  step-IsPinging (channel_stops ec) p v = set_event-IsPinging channel_stopped p v

  run-IsPinging :
      (es : List PingEvent) (p : Protocol Address Ping) → IsPinging p → IsPinging (run es p)
  unfolding run
  run-IsPinging [] p v = v
  run-IsPinging (e ∷ es) p v = run-IsPinging es (step e p) (step-IsPinging e p v)

  start-IsPinging :
      (p : Protocol Address Ping) → IsPinging p → IsPinging (start Address random from_60001 p)
  unfolding start Timer.start Timer.reset_timer Events.start
  start-IsPinging p v =
      let s =
        set_event-IsPinging success
          (let timed = Timer.start true (send_ping Address random from_60001) p in
            record timed { own = record timed.own { awaits_ping = true } })
          (record { single = ground (arith, v.single); settled = ground (arith, v.settled) }) in
      s

  -- `protocol_ping_60001::protocol_ping_60001`
  abbrev pub fresh : Protocol Address Ping
  fresh = construct (record { pending = false; drawn = 0; awaits_ping = false; pongs = [] })

  -- Of a heartbeat of level 60001 that was constructed and started, at most one ping waits for its
  -- pong, whatever happens, and none does unless the heartbeat is pending.
  pub length-pongs-run :
      (es : List PingEvent)
      → let p = run es (start Address random from_60001 fresh) in
        (length p.own.pongs ≤ 1) × ((p.own.pending ≡ true) ⊎ (p.own.pongs ≡ []))
  length-pongs-run es =
      let v : IsPinging fresh = record { single = ground arith; settled = λ _. refl } in
      let w = run-IsPinging es _ (start-IsPinging fresh v) in ground (arith, w.single, w.settled)

  -- When the timer of a heartbeat of level 60001 that has not stopped fires, the timer waits
  -- again, and: if the heartbeat is pending, then the channel is stopped with a timeout and
  -- nothing is sent, and else a ping with the next random number is sent, whose pong is then
  -- waited for.
  pub fire_lem :
      (p : Protocol Address Ping)
      → p.handler ≡ true
      → p.timer ≡ true
      → step timer_fires p ≡ (
          if p.own.pending
          then emit (stops channel_timeout) p
          else send (ping_message (random p.own.drawn)) (record p {
            own = record p.own {
              pending = true;
              drawn = p.own.drawn + 1;
              pongs = p.own.pongs ++ random p.own.drawn ∷ [];
            };
          }))
  unfolding step Timer.fire Timer.handle_timer Timer.reset_timer Timer.stopped Events.stopped
      Timer.set_event Events.set_event Timer.handle_notify send_ping Events.stopped_by
  fire_lem p on waits = ground arith
