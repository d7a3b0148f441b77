-- ===== src/Sessions/Seed/Outcome.antt =====
-- Seeding ends once, and well if and only if the pool has addresses: src/sessions/session_seed.cpp.
use bitprim_network.Base.{
  ℕ, zero, suc, ◌+◌, ◌≡◌, ◌≢◌, ◌≤◌, sym, subst, ◌⊎◌, inl, inr, refl, Bool, true, false, not, Option,
  none, some, List, [], ◌∷◌, ◌==◌, length, get_elem?, erase_at, length-erase_at, count_by,
  count_by-erase_at, All, arith, if-both,
}
use bitprim_network.Code.{Code, success, operation_failed, is_error}
use bitprim_network.Sessions.{SessionSettings}
use bitprim_network.Sessions.Library.{CountSynchronizers}
use bitprim_network.Sessions.Seed.{
  Seeding, SeedWait, going_on, connecting, registering, seeding, SeedEnd, goes_on, connects,
  registers, seeds, SeedEvent, ends, counts, halts, call_handler, start_seeding, handle_started,
  start, dispatch, end_wait, step, run,
}
use bitprim_network.Sessions.Seed.Counting.{
  IsTruthful, waits_for, left, IsRunning, Owes, IsJoined-moved, join_handler-IsRunning,
  start_seeds-IsRunning,
}
use bitprim_network.Sessions.Seed.Contacting.{handle_start-IsRunning, handle_connect-IsRunning}

count_by-nothing : (xs : List ℕ) → count_by (λ x. false) xs ≡ 0
count_by-nothing [] = refl
count_by-nothing (x ∷ xs) = omega (arith, count_by-nothing xs)

module _ (join : CountSynchronizers) {Address : Type 0} (ip : Address → ℕ)
    (settings : SessionSettings Address) where
  -- The start has not gone on.
  record IsStarting (s : Seeding join Address) : Type 0 where
    waits_for_start : s.waits ≡ going_on success ∷ []
    no_calls : s.calls ≡ []
    no_join : left join ip settings s ≡ 0
    from_nothing : s.start_size ≡ 0
    no_pended : s.pended ≡ []
    no_unpended : s.unpended ≡ []

  abbrev Stage : Seeding join Address → Type 0
  Stage s = IsStarting s ⊎ IsRunning join ip settings 0 s

  handle_started-IsRunning :
      (s : Seeding join Address)
      → s.waits ≡ []
      → s.calls ≡ []
      → left join ip settings s ≡ 0
      → s.start_size ≡ 0
      → s.pended ≡ []
      → s.unpended ≡ []
      → IsRunning join ip settings 0 (handle_started join ip settings success s)
  unfolding handle_started start_seeding
  handle_started-IsRunning s a b c d e f =
      let called : (ec : Code)
          → is_error ec ≡ (s.address_count == 0)
          → IsRunning join ip settings 0 (call_handler join ip settings ec s) =
        λ ec ok. record {
          is_joined = record {
            awaited = ground (arith, a, c);
            counted = ground (arith, a, b);
            truthful = (ok, rw b tt);
            from_nothing = d;
          };
          frees = λ p. ground (arith, a, e, f);
        } in
      if-both (IsRunning join ip settings 0) (not (s.address_count == 0))
        (λ some_there. called success (ground (arith, some_there)))
        (λ none_there.
          if-both (IsRunning join ip settings 0) (settings.seeds == 0)
            (λ _. called operation_failed (ground (arith, none_there)))
            (λ some_seeds. start_seeds-IsRunning join ip settings settings.seeds _ (record {
              is_joined = record {
                awaited = ground (arith, a, join.synchronize_lem settings.seeds);
                counted = ground (arith, a, b, some_seeds);
                truthful = rw b tt;
                from_nothing = ground (arith, none_there);
              };
              frees = λ p. ground (arith, a, e, f);
            })))

  -- The answer of a wait that ended, and that was not for a connector, is outstanding.
  erased-Owes :
      (w : SeedWait Address) (i : ℕ) (s : Seeding join Address)
      → get_elem? s.waits i ≡ some w
      → ((p : ℕ → Bool) → waits_for p w ≡ false)
      → IsRunning join ip settings 0 s
      → Owes join ip settings 0 (record s { waits = erase_at i s.waits })
  erased-Owes w i s at other v = record {
    is_joined =
        IsJoined-moved join ip settings (length s.waits + 0) _ s _
          (omega (arith, length-erase_at i s.waits at)) refl refl refl v.is_joined;
    frees = λ p. ground (arith, other p, v.frees p, count_by-erase_at (waits_for p) i s.waits at);
  }

  -- A wait of the running session ends.
  dispatch-IsRunning :
      (w : SeedWait Address) (e : SeedEnd Address) (i : ℕ) (s : Seeding join Address)
      → get_elem? s.waits i ≡ some w
      → IsRunning join ip settings 0 s
      → IsRunning join ip settings 0
          (dispatch join ip settings w e s (record s { waits = erase_at i s.waits }))
  unfolding dispatch
  dispatch-IsRunning (going_on ec) goes_on i s at v =
      let bad : 1 ≤ 0 = omega (
        arith,
        v.frees (λ c. false),
        count_by-nothing s.pended,
        count_by-nothing s.unpended,
        count_by-erase_at (waits_for (λ c. false)) i s.waits at,
      ) in
      elim bad [ ]
  dispatch-IsRunning (connecting c) (connects ec started nonce version channel) i s at v =
      handle_connect-IsRunning join ip settings ec started nonce version channel c _ (record {
        is_joined =
            IsJoined-moved join ip settings (length s.waits + 0) _ s _
              (omega (arith, length-erase_at i s.waits at)) refl refl refl v.is_joined;
        frees = λ p. omega (arith, v.frees p, count_by-erase_at (waits_for p) i s.waits at);
      })
  dispatch-IsRunning (registering channel) (registers ec version) i s at v =
      handle_start-IsRunning join ip settings ec channel version _
        (erased-Owes _ i s at (λ p. refl) v)
  dispatch-IsRunning (seeding channel) (seeds ec) i s at v =
      join_handler-IsRunning join ip settings ec _ 0 (erased-Owes _ i s at (λ p. refl) v)
  dispatch-IsRunning _ _ i s at v = v

  end_wait-IsRunning :
      (at : Option (SeedWait Address)) (i : ℕ) (e : SeedEnd Address) (s : Seeding join Address)
      → get_elem? s.waits i ≡ at
      → IsRunning join ip settings 0 s
      → IsRunning join ip settings 0 (end_wait join ip settings at i e s)
  unfolding end_wait
  end_wait-IsRunning none i e s at v = v
  end_wait-IsRunning (some w) i e s at v = dispatch-IsRunning w e i s at v

  -- The only wait of a start is its own.
  end_start-Stage :
      (i : ℕ) (e : SeedEnd Address) (s : Seeding join Address)
      → IsStarting s
      → Stage (end_wait join ip settings (get_elem? (going_on success ∷ []) i) i e s)
  unfolding end_wait dispatch
  end_start-Stage zero goes_on s v = inr (
      handle_started-IsRunning (record s { waits = erase_at 0 s.waits })
        (ground (arith, v.waits_for_start)) v.no_calls v.no_join v.from_nothing v.no_pended
        v.no_unpended)
  end_start-Stage zero (connects ec started nonce version c) s v = inl v
  end_start-Stage zero (registers ec version) s v = inl v
  end_start-Stage zero (seeds ec) s v = inl v
  end_start-Stage (suc i) e s v = inl v

  moved-Stage :
      (s : Seeding join Address) (count : ℕ) (stopped : Bool)
      → Stage s
      → Stage (record s { address_count = count; stopped = stopped })
  moved-Stage s count stopped (inl v) = inl (record {
    waits_for_start = v.waits_for_start;
    no_calls = v.no_calls;
    no_join = v.no_join;
    from_nothing = v.from_nothing;
    no_pended = v.no_pended;
    no_unpended = v.no_unpended;
  })
  moved-Stage s count stopped (inr v) = inr (record {
    is_joined =
        IsJoined-moved join ip settings (length s.waits + 0) _ s _ refl refl refl refl v.is_joined;
    frees = v.frees;
  })

  step-Stage :
      (e : SeedEvent Address) (s : Seeding join Address)
      → Stage s
      → Stage (step join ip settings e s)
  unfolding step
  step-Stage (ends i e) s (inl v) =
      subst (λ ws. Stage (end_wait join ip settings (get_elem? ws i) i e s)) (sym v.waits_for_start)
        (end_start-Stage i e s v)
  step-Stage (ends i e) s (inr v) = inr (end_wait-IsRunning (get_elem? s.waits i) i e s refl v)
  step-Stage (counts n) s v = moved-Stage s n s.stopped v
  step-Stage halts s v = moved-Stage s s.address_count true v

  run-Stage :
      (es : List (SeedEvent Address)) (s : Seeding join Address)
      → Stage s
      → Stage (run join ip settings es s)
  unfolding run
  run-Stage [] s v = v
  run-Stage (e ∷ es) s v = run-Stage es _ (step-Stage e s v)

  -- What holds of a seeding at any time.
  pub record IsSeeding (s : Seeding join Address) : Type 0 where
    pub at_most_once : length s.calls ≤ 1
    pub answered : s.waits ≡ [] → length s.calls ≡ 1
    pub unanswered : s.waits ≢ [] → s.calls ≡ []
    pub truthful : All IsTruthful s.calls

  -- A session that has done nothing.
  pub record IsFresh (s : Seeding join Address) : Type 0 where
    pub halted : s.stopped ≡ true
    pub no_waits : s.waits ≡ []
    pub no_calls : s.calls ≡ []
    pub no_join : left join ip settings s ≡ 0
    pub from_nothing : s.start_size ≡ 0
    pub no_pended : s.pended ≡ []
    pub no_unpended : s.unpended ≡ []

  IsSeeding-Stage : (s : Seeding join Address) → Stage s → IsSeeding s
  IsSeeding-Stage s (inl v) = record {
    at_most_once = ground (arith, v.no_calls);
    answered = λ none_left. ground (arith, v.waits_for_start, none_left);
    unanswered = λ some_left. v.no_calls;
    truthful = rw (v.no_calls) tt;
  }
  IsSeeding-Stage s (inr v) = record {
    at_most_once = ground (arith, v.is_joined.counted);
    answered = λ none_left. ground (arith, v.is_joined.counted, none_left);
    unanswered = λ some_left. ground (arith, v.is_joined.counted, some_left);
    truthful = v.is_joined.truthful;
  }

  -- Of a fresh seed session, on a pool that may hold addresses, whatever happens to it once it is started: the handler of the
  -- start is called once nothing is waited for any more, not before and not twice, and with success if and
  -- only if the pool has addresses at that time.
  pub run-start-IsSeeding :
      (es : List (SeedEvent Address)) (s : Seeding join Address)
      → (settings.host_pool_capacity == 0) ≡ false
      → IsFresh s
      → IsSeeding (run join ip settings es (start join ip settings s))
  unfolding start
  run-start-IsSeeding es s pooled v = IsSeeding-Stage _ (
      run-Stage es _ (
        rw (pooled, v.halted)
          (inl (record {
            waits_for_start = ground (arith, v.no_waits);
            no_calls = v.no_calls;
            no_join = v.no_join;
            from_nothing = v.from_nothing;
            no_pended = v.no_pended;
            no_unpended = v.no_unpended;
          }))))
