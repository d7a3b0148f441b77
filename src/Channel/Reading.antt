-- ===== src/Channel/Reading.antt =====
-- The read cycle of a channel: src/proxy.cpp, `handle_read_heading` and `handle_read_payload`.
use bitprim_network.Base.{
  ℕ, ◌≤◌, ◌≡◌, ◌∙◌, sym, ap, subst, ◌≢◌, ◌⊎◌, inl, inr, refl, Bool, true, false, List, [], ◌∷◌,
  arith, ◌==◌, ltb, length, length-eq-zero, not, ◌&&◌, Bool-cases,
}
use bitprim_network.Code.{Code, success}
use bitprim_network.Library.{Subscribers}
use bitprim_network.Messages.{Notice}
use bitprim_network.Messages.Load.{load}
use bitprim_network.Channel.{
  Channel, Read, heading_read, payload_read, Heading, signal_activity, start_inactivity,
}
use bitprim_network.Channel.Proxy.{
  Wire, BoostCode, stop, handle_read_heading, handle_read_payload, finish_payload, read_heading,
  read_payload, handle_send, subscribe_stop, set_negotiated_version,
}
use bitprim_network.Channel.Talk.{handle_expiration, handle_inactivity}
use bitprim_network.Channel.Events.{
  Action, stops_with, subscribes, subscribes_stop, sets_version, Event, acts, heading_ends,
  payload_ends, send_ends, expires, idles, act, perform, step, run, on_heading, on_payload,
}

module _ {Message Handler Waiter : Type 0} (sub : Subscribers Handler (Notice Message))
    (stops : Subscribers Waiter Code) (wire : Wire Message) where
  -- What the code asks of a heading before it reads the payload.
  pub record AcceptsHeading (ec : BoostCode) (head : Heading) (c : Channel sub stops) : Type 0 where
    pub no_error : ec ≡ 0
    pub well_formed : head.valid ≡ true
    pub for_us : head.magic ≡ c.protocol_magic
    pub fits : head.payload_size ≤ c.maximum_payload

  -- On a running channel a heading is followed by the read of its payload, into a buffer of the size
  -- that it names, exactly when it was read without error, is valid, has the magic of the network and
  -- names a payload within the limit. Otherwise the channel is stopped and no read is started.
  pub handle_read_heading_lem :
      (ec : BoostCode) (head : Heading) (c : Channel sub stops)
      → c.stopped ≡ false
      → let d = handle_read_heading sub stops wire ec head c in
        (AcceptsHeading ec head c
          × (d
              ≡ record c { payload_size = head.payload_size; reads = payload_read head ∷ c.reads }))
        ⊎ ((¬ AcceptsHeading ec head c) × (d.stopped ≡ true) × (d.reads ≡ c.reads))
  unfolding handle_read_heading read_payload stop
  handle_read_heading_lem ec head c running = elim (Bool-cases (ec == 0)) [
    | inr error ↦ inr (λ v. ground (arith, v.no_error), ground arith, ground arith)
    | inl e ↦ elim (Bool-cases head.valid) [
      | inr malformed ↦ inr (λ v. ground (arith, v.well_formed), ground arith, ground arith)
      | inl w ↦ elim (Bool-cases (head.magic == c.protocol_magic)) [
        | inr alien ↦ inr (λ v. ground (arith, v.for_us), ground arith, ground arith)
        | inl f ↦ elim (Bool-cases (ltb c.maximum_payload head.payload_size)) [
          | inl large ↦ inr (λ v. ground (arith, v.fits), ground arith, ground arith)
          | inr small ↦ inl (
            record {
              no_error = ground arith;
              well_formed = w;
              for_us = ground arith;
              fits = ground arith;
            },
            ground arith,
          )
        ]
      ]
    ]
  ]

  -- What the code asks of a payload before it reads the next heading: `code` is that of `load`, `rest`
  -- what `load` left of the stream.
  pub record AcceptsPayload (ec : BoostCode) (head : Heading) (payload : List ℕ) (validate : Bool)
      (code : Code) (rest : List ℕ) : Type 0 where
    pub no_error : ec ≡ 0
    pub intact : (validate ≡ false) ⊎ (head.checksum ≡ wire.bitcoin_checksum payload)
    pub loaded : code ≡ success
    pub consumed : rest ≡ []

  -- A stopped channel is left as it is; a running one has its timer anew and reads the next heading.
  abbrev Continues : Channel sub stops → Channel sub stops → Type 0
  Continues c d =
      ((c.stopped ≡ true) × (d ≡ c))
      ⊎ ((c.stopped ≡ false) × (d ≡ record c { inactivity = true; reads = heading_read ∷ c.reads }))

  finish_payload_lem :
      (code : Code) (consumed : Bool) (c : Channel sub stops)
      → ((code ≡ success)
          × (consumed ≡ true)
          × Continues c (finish_payload sub stops wire code consumed c))
        ⊎ (((code ≢ success) ⊎ (consumed ≡ false))
            × ((finish_payload sub stops wire code consumed c).stopped ≡ true)
            × ((finish_payload sub stops wire code consumed c).reads ≡ c.reads))
  unfolding finish_payload stop read_heading signal_activity start_inactivity
  finish_payload_lem success true c = elim (Bool-cases c.stopped) [
    | inl halted ↦ inl (refl, refl, inl (halted, ground arith))
    | inr runs ↦ inl (refl, refl, inr (runs, ground arith))
  ]
  finish_payload_lem success false c = ground arith
  finish_payload_lem _ consumed c = ground arith

  refuted :
      (code : Code) (rest : List ℕ)
      → (code ≢ success) ⊎ ((length rest == 0) ≡ false)
      → code ≡ success
      → rest ≡ []
      → ⊥
  refuted code rest (inl ne) e empty = ne e
  refuted code rest (inr more) e empty = ground (arith, (length-eq-zero rest).1 empty)

  -- What the handlers of a message do starts no read.
  act-reads :
      (x : Action Handler Waiter) (c : Channel sub stops) → (act sub stops x c).reads ≡ c.reads
  unfolding act stop subscribe_stop set_negotiated_version
  act-reads (stops_with ec) c = refl
  act-reads (subscribes t h) c = refl
  act-reads (subscribes_stop w) c = refl
  act-reads (sets_version v) c = refl

  perform-reads :
      (xs : List (Action Handler Waiter)) (c : Channel sub stops)
      → (perform sub stops xs c).reads ≡ c.reads
  unfolding perform
  perform-reads [] c = refl
  perform-reads (x ∷ xs) c = perform-reads xs (act sub stops x c) ∙ act-reads x c

  checksum_ok : Heading → List ℕ → Bool → Bool
  checksum_ok head payload validate =
      not (validate && not (head.checksum == wire.bitcoin_checksum payload))

  -- On a running channel, a payload is accepted exactly when it was read without error, has the checksum
  -- of its heading (if the settings ask for it), was loaded and leaves no byte over. If it is
  -- accepted, the channel is left as the handlers of its message leave it when one of them stopped it,
  -- and else, as the only change after the handlers, the inactivity timer is started anew and the read
  -- of the next heading is started. If it is not accepted, the channel is stopped and no read is
  -- started.
  pub handle_read_payload_lem :
      (actions : List (Action Handler Waiter)) (ec : BoostCode) (head : Heading) (payload : List ℕ)
      (c : Channel sub stops)
      → c.stopped ≡ false
      → let (code, messages, rest) =
          load sub wire.from_data head.type c.version payload c.messages in
        let c' = perform sub stops actions (record c { messages = messages }) in
        let d = handle_read_payload sub stops wire (perform sub stops actions) ec head payload c in
        (AcceptsPayload ec head payload c.validate_checksum code rest
          × (((c'.stopped ≡ true) × (d ≡ c'))
              ⊎ ((c'.stopped ≡ false)
                  × (d ≡ record c' { inactivity = true; reads = heading_read ∷ c'.reads }))))
        ⊎ ((¬ AcceptsPayload ec head payload c.validate_checksum code rest)
            × (d.stopped ≡ true)
            × (d.reads ≡ c.reads))
  unfolding handle_read_payload checksum_ok stop
  handle_read_payload_lem actions ec head payload c running =
      let (code, messages, rest) = load sub wire.from_data head.type c.version payload c.messages in
      let c' = perform sub stops actions (record c { messages = messages }) in
      elim (Bool-cases (ec == 0)) [
        | inr error ↦ inr (λ v. ground (arith, v.no_error), ground arith, ground arith)
        | inl e ↦ elim (Bool-cases (checksum_ok head payload c.validate_checksum)) [
          | inr broken ↦ inr (λ v. ground (arith, v.intact), ground arith, ground arith)
          | inl intact ↦
              let finishes : handle_read_payload sub stops wire (perform sub stops actions) ec head
                    payload c
                  ≡ finish_payload sub stops wire code (length rest == 0) c' =
                ground arith in
              elim (finish_payload_lem code (length rest == 0) c') [
                | inl done ↦ inl (
                  record {
                    no_error = ground arith;
                    intact = ground arith;
                    loaded = done.0;
                    consumed = (length-eq-zero rest).0 done.1;
                  },
                  subst (Continues c') (sym finishes) done.2,
                )
                | inr failed ↦ inr (
                  λ v. refuted code rest failed.0 v.loaded v.consumed,
                  ap (λ d. d.stopped) finishes ∙ failed.1,
                  ap (λ d. d.reads) finishes
                      ∙ failed.2
                      ∙ perform-reads actions (record c { messages = messages }),
                )
              ]
        ]
      ]

  act-stopped :
      (x : Action Handler Waiter) (c : Channel sub stops)
      → c.stopped ≡ true
      → (act sub stops x c).stopped ≡ true
  unfolding act stop subscribe_stop set_negotiated_version
  act-stopped (stops_with ec) c e = refl
  act-stopped (subscribes t h) c e = e
  act-stopped (subscribes_stop w) c e = e
  act-stopped (sets_version v) c e = e

  on_heading-stopped :
      (ec : BoostCode) (head : Heading) (rs : List Read) (c : Channel sub stops)
      → length rs ≤ length c.reads
      → c.stopped ≡ true
      → let d = on_heading sub stops wire ec head rs c in
        (d.stopped ≡ true) × (length d.reads ≤ length c.reads)
  unfolding on_heading handle_read_heading
  on_heading-stopped ec head [] c h e = (e, omega arith)
  on_heading-stopped ec head (heading_read ∷ rest) c h e = ground arith
  on_heading-stopped ec head (payload_read other ∷ rest) c h e = (e, omega arith)

  on_payload-stopped :
      (ec : BoostCode) (payload : List ℕ) (actions : List (Action Handler Waiter)) (rs : List Read)
      (c : Channel sub stops)
      → length rs ≤ length c.reads
      → c.stopped ≡ true
      → let d = on_payload sub stops wire ec payload actions rs c in
        (d.stopped ≡ true) × (length d.reads ≤ length c.reads)
  unfolding on_payload handle_read_payload
  on_payload-stopped ec payload actions [] c h e = (e, omega arith)
  on_payload-stopped ec payload actions (heading_read ∷ rest) c h e = (e, omega arith)
  on_payload-stopped ec payload actions (payload_read head ∷ rest) c h e = ground arith

  step-stopped :
      (x : Event Handler Waiter) (c : Channel sub stops)
      → c.stopped ≡ true
      → let d = step sub stops wire x c in (d.stopped ≡ true) × (length d.reads ≤ length c.reads)
  unfolding step handle_send handle_expiration handle_inactivity
  step-stopped (acts x) c e = ground (arith, act-stopped x c e, act-reads x c)
  step-stopped (heading_ends ec head) c e = on_heading-stopped ec head c.reads c (omega arith) e
  step-stopped (payload_ends ec payload actions) c e =
      on_payload-stopped ec payload actions c.reads c (omega arith) e
  step-stopped (send_ends ec) c e = ground arith
  step-stopped (expires ec) c e = ground arith
  step-stopped (idles ec) c e = ground arith

  -- A stopped channel stays stopped and starts no read, whatever happens to it but a new start.
  pub run-stopped :
      (es : List (Event Handler Waiter)) (c : Channel sub stops)
      → c.stopped ≡ true
      → let d = run sub stops wire es c in (d.stopped ≡ true) × (length d.reads ≤ length c.reads)
  unfolding run
  run-stopped [] c e = (e, omega arith)
  run-stopped (x ∷ es) c e =
      let s = step-stopped x c e in
      let r = run-stopped es (step sub stops wire x c) s.0 in (r.0, omega (arith, r.1, s.1))
