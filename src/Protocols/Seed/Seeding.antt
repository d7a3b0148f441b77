-- ===== src/Protocols/Seed/Seeding.antt =====
-- What a seeding comes to: src/protocols/protocol_seed_31402.cpp.
use bitprim_network.Base.{
  ℕ, ◌≡◌, ◌≢◌, ◌≤◌, ◌⊎◌, inl, inr, refl, Bool, true, false, List, [], ◌∷◌, ◌++◌, ◌+◌, ◌-◌, ◌==◌,
  length, if◌then◌else◌, if-both, ap, sym, ◌∙◌, Bool-cases, Option-cases, arith,
}
use bitprim_network.Code.{Code, success, channel_timeout, channel_stopped, is_error}
use bitprim_network.Protocols.{Protocol, stops, completes, subscribes_stop, construct}
use bitprim_network.Protocols.Handshake.{completions}
use bitprim_network.Protocols.Library.{Synchronizers}
use bitprim_network.Protocols.Events
use bitprim_network.Protocols.Timer
use bitprim_network.Protocols.Seed.{
  Seed, SeedSettings, handle_seeding_complete, join_handler, set_event, send_own_address, start,
  handle_receive_address, handle_send_address, handle_send_get_address, handle_store_addresses,
}
use bitprim_network.Protocols.Seed.Steps.{
  stop_codes, SeedEvent, gets_address, own_sent, request_sent, stored, timer_fires, channel_stops,
  step, run,
}

module _ {Address : Type 0} (join : Synchronizers) (settings : SeedSettings Address) where
  -- As a number.
  abbrev bit : Bool → ℕ
  bit true = 1
  bit false = 0

  -- Either the seeding is complete, or more calls are needed than those that the sends will make.
  record IsSeeding (p : Protocol Address (Seed join)) : Type 0 where
    once : length (completions p.outputs) ≡ 1 - join.remaining p.own.joined
    stopped_so : stop_codes p.outputs ≡ completions p.outputs
    failed : completions p.outputs ≢ success ∷ []
    more :
        (join.remaining p.own.joined ≡ 0)
        ⊎ (1 + bit p.own.sends_own + bit p.own.sends_request ≤ join.remaining p.own.joined)

  joined-set_event :
      (ec : Code) (p : Protocol Address (Seed join))
      → p.handler ≡ true
      → let q = set_event join settings ec p in
        (join.remaining q.own.joined ≡ (if is_error ec then 0 else join.remaining p.own.joined - 1))
        × (q.own.sends_own ≡ p.own.sends_own)
        × (q.own.sends_request ≡ p.own.sends_request)
        × (q.outputs
            ≡ (if join.remaining p.own.joined == 0
                then []
                else if is_error ec
                then stops ec ∷ completes ec ∷ []
                else if join.remaining p.own.joined == 1
                then stops success ∷ completes success ∷ []
                else [])
              ++ p.outputs)
  unfolding Timer.set_event Events.set_event Timer.handle_notify join_handler
      handle_seeding_complete Events.stopped_by Events.stopped
  joined-set_event ec p on =
      let l = join.call_lem ec p.own.joined in
      elim (Option-cases (join.call ec p.own.joined).1) [
        | inl e ↦ ground (arith, l)
        | inr (c, e) ↦ ground (arith, l)
      ]

  event-IsSeeding :
      (ec : Code) (p : Protocol Address (Seed join))
      → (is_error ec ≡ true)
        ⊎ ((join.remaining p.own.joined ≡ 0)
            ⊎ (2 + bit p.own.sends_own + bit p.own.sends_request ≤ join.remaining p.own.joined))
      → IsSeeding p
      → IsSeeding (set_event join settings ec p)
  unfolding Timer.set_event Events.set_event
  event-IsSeeding ec p enough v = elim (Bool-cases p.handler) [
    | inl on ↦
        let (a, b, c, d) = joined-set_event ec p on in
        record {
          once = ground (arith, v.once, v.more);
          stopped_so = ground (arith, v.once, v.stopped_so, v.more);
          failed = λ e. ground (arith, v.once, v.failed, v.more);
          more = ground (arith, v.more);
        }
    | inr off ↦ record {
      once = ground (arith, v.once);
      stopped_so = ground (arith, v.stopped_so);
      failed = λ e. ground (arith, v.failed);
      more = ground (arith, v.more);
    }
  ]

  -- A change that the invariant does not see, but for sends that end.
  quiet-IsSeeding :
      (p q : Protocol Address (Seed join))
      → q.own.joined ≡ p.own.joined
      → completions q.outputs ≡ completions p.outputs
      → stop_codes q.outputs ≡ stop_codes p.outputs
      → bit q.own.sends_own + bit q.own.sends_request
        ≤ bit p.own.sends_own + bit p.own.sends_request
      → IsSeeding p
      → IsSeeding q
  quiet-IsSeeding p q e f g h v =
      let r : join.remaining q.own.joined ≡ join.remaining p.own.joined = ap join.remaining e in
      record {
        once = ground (arith, v.once);
        stopped_so = ground (arith, v.stopped_so);
        failed = λ x. v.failed (sym f ∙ x);
        more = ground (arith, v.more);
      }

  step-IsSeeding :
      (e : SeedEvent Address) (p : Protocol Address (Seed join))
      → IsSeeding p
      → IsSeeding (step join settings e p)
  unfolding step handle_receive_address handle_send_address handle_send_get_address
      handle_store_addresses Timer.fire Timer.handle_timer Timer.handle_stopped
      Events.handle_stopped Timer.set_event
  step-IsSeeding (gets_address ec addresses) p v =
      quiet-IsSeeding p _ (ground arith) (ground arith) (ground arith) (ground arith) v
  step-IsSeeding (own_sent ec) p v =
      let q = record p { own = record p.own { sends_own = false } } in
      let w = quiet-IsSeeding p q refl refl refl (ground arith) v in
      if-both IsSeeding p.own.sends_own
        (λ on.
          if-both IsSeeding (Events.stopped_by ec q) (λ _. w)
            (λ _. event-IsSeeding success q (inr (ground (arith, v.more))) w))
        (λ _. v)
  step-IsSeeding (request_sent ec) p v =
      let q = record p { own = record p.own { sends_request = false } } in
      let w = quiet-IsSeeding p q refl refl refl (ground arith) v in
      if-both IsSeeding p.own.sends_request
        (λ on.
          if-both IsSeeding (Events.stopped_by ec q) (λ _. w)
            (λ _.
              if-both IsSeeding (is_error ec) (λ bad. event-IsSeeding ec q (inl bad) w)
                (λ _. event-IsSeeding success q (inr (ground (arith, v.more))) w)))
        (λ _. v)
  step-IsSeeding (stored ec) p v =
      let q = record p { own = record p.own { storing = false } } in
      let w = quiet-IsSeeding p q refl refl refl (ground arith) v in
      if-both IsSeeding p.own.storing
        (λ on.
          if-both IsSeeding (Events.stopped_by ec q) (λ _. w)
            (λ _.
              if-both IsSeeding (is_error ec) (λ bad. event-IsSeeding ec q (inl bad) w)
                (λ _. event-IsSeeding channel_stopped q (inl refl) w)))
        (λ _. v)
  step-IsSeeding timer_fires p v =
      let q = record p { timer = false } in
      let w = quiet-IsSeeding p q refl refl refl (ground arith) v in
      if-both IsSeeding p.timer
        (λ _.
          if-both IsSeeding (Timer.stopped false (join_handler join settings) q) (λ _. w)
            (λ _. event-IsSeeding channel_timeout q (inl refl) w))
        (λ _. v)
  step-IsSeeding (channel_stops ec) p v = event-IsSeeding channel_stopped p (inl refl) v

  run-IsSeeding :
      (es : List (SeedEvent Address)) (p : Protocol Address (Seed join))
      → IsSeeding p
      → IsSeeding (run join settings es p)
  unfolding run
  run-IsSeeding [] p v = v
  run-IsSeeding (e ∷ es) p v = run-IsSeeding es (step join settings e p) (step-IsSeeding e p v)

  -- `protocol_seed_31402::protocol_seed_31402`
  abbrev pub fresh : Protocol Address (Seed join)
  fresh = construct (record {
    joined = join.synchronize 0;
    awaits_address = false;
    sends_own = false;
    sends_request = false;
    storing = false;
  })

  -- With the request that is sent last.
  Requesting : Protocol Address (Seed join) → Type 0
  Requesting q = IsSeeding (record q { own = record q.own { sends_request = true } })

  send_own_address-Requesting :
      (p : Protocol Address (Seed join))
      → p.handler ≡ true
      → p.own.sends_own ≡ false
      → p.own.sends_request ≡ false
      → join.remaining p.own.joined ≡ 3
      → IsSeeding p
      → Requesting (send_own_address join settings p)
  unfolding Requesting send_own_address
  send_own_address-Requesting p on a b c v =
      let (d, e, f, g) = joined-set_event success p on in
      let w = event-IsSeeding success p (inr (inr (ground arith))) v in
      if-both Requesting (settings.self_port == 0)
        (λ _. record {
          once = ground (arith, w.once);
          stopped_so = ground (arith, w.stopped_so);
          failed = w.failed;
          more = ground arith;
        })
        (λ _. record {
          once = ground (arith, v.once);
          stopped_so = ground (arith, v.stopped_so);
          failed = v.failed;
          more = ground arith;
        })

  start-IsSeeding : IsSeeding (start join settings fresh)
  unfolding start handle_seeding_complete Timer.start Timer.reset_timer Timer.stopped Events.start
      Events.stopped Requesting
  start-IsSeeding =
      let none_left = join.synchronize_lem 0 in
      let three = join.synchronize_lem 3 in
      if-both IsSeeding (settings.host_pool_capacity == 0)
        (λ _. record {
          once = ground arith;
          stopped_so = refl;
          failed = λ e. ground (arith, e);
          more = ground arith;
        })
        (λ _.
          let timed : Protocol Address (Seed join) = record {
            handler = true;
            timer = true;
            outputs = subscribes_stop ∷ [];
            own = record {
              joined = join.synchronize 3;
              awaits_address = true;
              sends_own = false;
              sends_request = false;
              storing = false;
            };
          } in
          let v : IsSeeding timed = record {
            once = ground arith;
            stopped_so = refl;
            failed = λ e. ground (arith, e);
            more = ground arith;
          } in
          let w = send_own_address-Requesting timed refl refl refl three v in
          quiet-IsSeeding _ _ refl refl refl (ground arith) w)

  -- Whatever happens to a seeding that was constructed and started, its handler is called once at
  -- most, never with success, and the channel is stopped with the same codes.
  pub stop_codes-run :
      (es : List (SeedEvent Address))
      → let p = run join settings es (start join settings fresh) in
        (length (completions p.outputs) ≤ 1)
        × (stop_codes p.outputs ≡ completions p.outputs)
        × (completions p.outputs ≢ success ∷ [])
  stop_codes-run es =
      let v = run-IsSeeding es _ start-IsSeeding in (ground (arith, v.once), v.stopped_so, v.failed)
