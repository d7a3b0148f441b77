-- ===== src/Channel/Sending/Order.antt =====
-- Messages are written one at a time and in the order in which they were sent: src/proxy.cpp.
use mathlib.Core.List.{append-nil, append_assoc}
use bitprim_network.Base.{
  ℕ, ◌≡◌, refl, sym, subst, ap, ◌∙◌, Bool, true, false, Option, none, some, List, [], ◌∷◌, ◌++◌,
  map, length, arith, if◌then◌else◌, Bool-cases, inl, inr,
}
use bitprim_network.Code.{Code}
use bitprim_network.Library.{Subscribers}
use bitprim_network.Messages.{Notice}
use bitprim_network.Channel.{Channel}
use bitprim_network.Channel.Library.{Sequencers, head, tail, is_some}
use bitprim_network.Channel.Proxy.{Wire, BoostCode}
use bitprim_network.Channel.Sending.{
  Job, SendEvent, sends, write_ends, goes_on, Sending, do_send, begin, send, handle_send, end_write,
  step, run,
}

map-append : {A B : Type 0} (f : A → B) (xs ys : List A) → map f (xs ++ ys) ≡ map f xs ++ map f ys
map-append f [] ys = refl
map-append f (x ∷ xs) ys = ap (λ zs. f x ∷ zs) (map-append f xs ys)

-- A job without its bytes.
abbrev pub seen : {Outgoing Teller : Type 0} → Job Outgoing Teller → Outgoing × Teller
seen job = (job.message, job.teller)

-- What was sent, in order.
abbrev pub asked :
    {Outgoing Teller Handler Waiter : Type 0}
    → List (SendEvent Outgoing Teller Handler Waiter)
    → List (Outgoing × Teller)
asked [] = []
asked (sends message handler ∷ es) = (message, handler) ∷ asked es
asked (_ ∷ es) = asked es

module _ {Message Handler Waiter Outgoing Teller : Type 0}
    (sub : Subscribers Handler (Notice Message)) (stops : Subscribers Waiter Code)
    (wire : Wire Message) (serialize : ℕ → Outgoing → ℕ → List ℕ)
    (sequencer : Sequencers (Job Outgoing Teller)) where
  abbrev S : Type 0
  S = Sending sub stops wire serialize sequencer

  -- What was written or waits is what was sent, in that order; the handlers of what was written were called,
  -- in that order, but for the one whose write the socket has not ended; there is at most one such, and
  -- where there is none, nothing waits.
  pub record InOrder (sent : List (Outgoing × Teller)) (s : S) : Type 0 where
    pub order : map seen (s.written ++ sequencer.waiting s.sequence) ≡ sent
    pub answers :
        map (λ job. job.teller) s.written
        ≡ map (λ c. c.0) s.calls ++ map (λ job. job.teller) s.writing
    pub one_write : length s.writing ≡ (if sequencer.busy s.sequence then 1 else 0)
    pub no_wait : sequencer.busy s.sequence ≡ false → sequencer.waiting s.sequence ≡ []

  -- A write begins.
  do_send-InOrder :
      (job : Job Outgoing Teller) (s : S) (sent : List (Outgoing × Teller))
      → map seen (s.written ++ job ∷ sequencer.waiting s.sequence) ≡ sent
      → map (λ j. j.teller) s.written ≡ map (λ c. c.0) s.calls
      → s.writing ≡ []
      → sequencer.busy s.sequence ≡ true
      → InOrder sent (do_send sub stops wire serialize sequencer job s)
  unfolding do_send
  do_send-InOrder job s sent order answers free busy = record {
    order = rw (append_assoc s.written (job ∷ []) (sequencer.waiting s.sequence)) order;
    answers = rw (free, map-append (λ j. j.teller) s.written (job ∷ []), answers) refl;
    one_write = rw (free, busy) refl;
    no_wait = λ e. ground (arith, busy);
  }

  begin-none :
      (now : Option (Job Outgoing Teller)) (s : S) (sent : List (Outgoing × Teller))
      → now ≡ none
      → InOrder sent s
      → InOrder sent (begin sub stops wire serialize sequencer now s)
  begin-none now s sent e v = rw e v

  begin-some :
      (now : Option (Job Outgoing Teller)) (job : Job Outgoing Teller) (s : S)
      (sent : List (Outgoing × Teller))
      → now ≡ some job
      → InOrder sent (do_send sub stops wire serialize sequencer job s)
      → InOrder sent (begin sub stops wire serialize sequencer now s)
  begin-some now job s sent e v = rw e v

  no_writing :
      (s : S) (sent : List (Outgoing × Teller))
      → InOrder sent s
      → sequencer.busy s.sequence ≡ false
      → s.writing ≡ []
  no_writing s sent v off = ground (arith, v.one_write, off)

  settled :
      (s : S) (sent : List (Outgoing × Teller))
      → InOrder sent s
      → s.writing ≡ []
      → map (λ job. job.teller) s.written ≡ map (λ c. c.0) s.calls
  settled s sent v free =
      v.answers
      ∙ ap (λ xs. map (λ c. c.0) s.calls ++ map (λ job. job.teller) xs) free
      ∙ append-nil (map (λ c. c.0) s.calls)

  send-InOrder :
      (message : Outgoing) (handler : Teller) (s : S) (sent : List (Outgoing × Teller))
      → InOrder sent s
      → InOrder
          (sent ++ (message, handler) ∷ [])
          (send sub stops wire serialize sequencer message handler s)
  unfolding send
  send-InOrder message handler s sent v =
      let job : Job Outgoing Teller = record {
        message = message;
        payload = serialize s.channel.version message s.channel.protocol_magic;
        teller = handler;
      } in
      let (busy, waiting, now) = sequencer.lock_lem job s.sequence in
      let w = sequencer.waiting s.sequence in
      let locked : S = record s { sequence = (sequencer.lock job s.sequence).0 } in
      let queued : map seen (s.written ++ (w ++ job ∷ [])) ≡ sent ++ (message, handler) ∷ [] =
        ap (λ xs. map seen xs) (sym (append_assoc s.written w (job ∷ [])))
        ∙ map-append seen (s.written ++ w) (job ∷ [])
        ∙ ap (λ xs. xs ++ (message, handler) ∷ []) v.order in
      elim (Bool-cases (sequencer.busy s.sequence)) [
        | inl on ↦ begin-none _ locked _ (ground (arith, now, on)) (record {
          order = rw (waiting, on) queued;
          answers = v.answers;
          one_write = ground (arith, v.one_write, busy, on);
          no_wait = λ off. ground (arith, busy, off);
        })
        | inr off ↦
            let free = no_writing s sent v off in
            let all : map seen (s.written ++ (sequencer.waiting s.sequence ++ job ∷ []))
                ≡ sent ++ (message, handler) ∷ [] =
              queued in
            begin-some _ job locked _ (ground (arith, now, off)) (
              do_send-InOrder job locked _
                (rw (waiting, off)
                  (rw (v.no_wait off) (
                    subst
                      (λ xs.
                        map seen (s.written ++ (xs ++ job ∷ [])) ≡ sent ++ (message, handler) ∷ [])
                      (v.no_wait off) all)))
                (settled s sent v free) free busy)
      ]

  -- The write of a job has ended: its handler is called, and the dispatcher goes on to what waits.
  ended-InOrder :
      (job : Job Outgoing Teller) (s t : S) (sent : List (Outgoing × Teller))
      (waiting : List (Job Outgoing Teller)) (now : Option (Job Outgoing Teller))
      → map seen (s.written ++ waiting) ≡ sent
      → t.written ≡ s.written
      → t.writing ≡ []
      → map (λ j. j.teller) s.written ≡ map (λ c. c.0) t.calls
      → sequencer.busy t.sequence ≡ is_some (head waiting)
      → sequencer.waiting t.sequence ≡ tail waiting
      → now ≡ head waiting
      → InOrder sent (begin sub stops wire serialize sequencer now t)
  ended-InOrder job s t sent [] now order same free answers busy rest e =
      begin-none now t sent e (record {
        order = rw (same, rest) order;
        answers =
            ap (λ xs. map (λ j. j.teller) xs) same
            ∙ answers
            ∙ sym (append-nil (map (λ c. c.0) t.calls))
            ∙ ap (λ xs. map (λ c. c.0) t.calls ++ map (λ j. j.teller) xs) (sym free);
        one_write = rw (free, busy) refl;
        no_wait = λ off. rest;
      })
  ended-InOrder job s t sent (next ∷ ws) now order same free answers busy rest e =
      begin-some now next t sent e (
        do_send-InOrder next t sent (rw (same, rest) order)
          (ap (λ xs. map (λ j. j.teller) xs) same ∙ answers) free busy)

  one_left :
      (job : Job Outgoing Teller) (rest : List (Job Outgoing Teller)) (b : Bool)
      → length (job ∷ rest) ≡ (if b then 1 else 0)
      → rest ≡ []
  one_left job [] b e = refl
  one_left job (x ∷ rest) b e = ground (arith, e)

  end_write-InOrder :
      (ec : BoostCode) (writing : List (Job Outgoing Teller)) (s : S)
      (sent : List (Outgoing × Teller))
      → s.writing ≡ writing
      → InOrder sent s
      → InOrder sent (end_write sub stops wire serialize sequencer ec writing s)
  unfolding end_write handle_send
  end_write-InOrder ec [] s sent at v = v
  end_write-InOrder ec (job ∷ rest) s sent at v =
      let (busy, waiting, now) = sequencer.unlock_lem s.sequence in
      let done =
        one_left job rest (sequencer.busy s.sequence)
          (ap (λ xs. length xs) (sym at) ∙ v.one_write) in
      let answered =
        v.answers
        ∙ ap (λ xs. map (λ c. c.0) s.calls ++ map (λ j. j.teller) xs)
            (at ∙ ap (λ xs. job ∷ xs) done)
        ∙ sym (map-append (λ c. c.0) s.calls ((job.teller, _) ∷ [])) in
      ended-InOrder job s _ sent (sequencer.waiting s.sequence) _ v.order refl done answered busy
        waiting now

  step-InOrder :
      (e : SendEvent Outgoing Teller Handler Waiter) (s : S) (sent : List (Outgoing × Teller))
      → InOrder sent s
      → InOrder (sent ++ asked (e ∷ [])) (step sub stops wire serialize sequencer e s)
  unfolding step
  step-InOrder (sends message handler) s sent v = send-InOrder message handler s sent v
  step-InOrder (write_ends ec) s sent v =
      rw (append-nil sent) (end_write-InOrder ec s.writing s sent refl v)
  step-InOrder (goes_on e) s sent v = rw (append-nil sent) (record {
    order = v.order;
    answers = v.answers;
    one_write = v.one_write;
    no_wait = v.no_wait;
  })

  asked-cons :
      (e : SendEvent Outgoing Teller Handler Waiter)
      (es : List (SendEvent Outgoing Teller Handler Waiter))
      → asked (e ∷ es) ≡ asked (e ∷ []) ++ asked es
  asked-cons (sends message handler) es = refl
  asked-cons (write_ends ec) es = refl
  asked-cons (goes_on e) es = refl

  later-InOrder :
      (es : List (SendEvent Outgoing Teller Handler Waiter)) (s : S)
      (sent : List (Outgoing × Teller))
      → InOrder sent s
      → InOrder (sent ++ asked es) (run sub stops wire serialize sequencer es s)
  unfolding run
  later-InOrder [] s sent v = rw (append-nil sent) v
  later-InOrder (e ∷ es) s sent v =
      subst (λ xs. InOrder xs (run sub stops wire serialize sequencer (e ∷ es) s))
        (append_assoc sent (asked (e ∷ [])) (asked es)
          ∙ ap (λ xs. sent ++ xs) (sym (asked-cons e es)))
        (later-InOrder es (step sub stops wire serialize sequencer e s) (sent ++ asked (e ∷ []))
          (step-InOrder e s sent v))

  -- A channel that has sent nothing.
  abbrev pub silent : Channel sub stops → S
  silent channel = record {
    channel = channel;
    sequence = sequencer.create;
    writing = [];
    written = [];
    calls = [];
  }

  -- A channel implements a queue of messages: whatever is sent, however the writes end and whatever else
  -- happens to the channel, its stop included, what was written or waits is what was sent, in that order;
  -- the handlers of what was written were called in that order, but for at most one, whose write the socket
  -- has not ended; and where there is none, nothing waits.
  pub run-InOrder :
      (channel : Channel sub stops) (es : List (SendEvent Outgoing Teller Handler Waiter))
      → InOrder (asked es) (run sub stops wire serialize sequencer es (silent channel))
  run-InOrder channel es =
      let (busy, waiting) = sequencer.create_lem in
      later-InOrder es (silent channel) [] (record {
        order = rw waiting refl;
        answers = refl;
        one_write = rw busy refl;
        no_wait = λ off. waiting;
      })
