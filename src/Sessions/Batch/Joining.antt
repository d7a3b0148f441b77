-- ===== src/Sessions/Batch/Joining.antt =====
-- A batch calls its handler once, and frees its connectors: src/sessions/session_batch.cpp.
use bitprim_network.Base.{
  ℕ, zero, suc, ◌+◌, ◌-◌, ◌≡◌, ◌≤◌, refl, Bool, true, false, not, Option, none, some, List, [], ◌∷◌,
  ◌==◌, ◌||◌, length, get_elem?, erase_at, length-erase_at, length-snoc, count_by, count_by-snoc,
  count_by-erase_at, All, arith, if◌then◌else◌, if-both,
}
use bitprim_network.Code.{
  Code, success, service_stopped, channel_stopped, address_blocked, is_error, is_service_stopped,
}
use bitprim_network.Sessions.{blacklisted}
use bitprim_network.Sessions.Library.{SuccessSynchronizers}
use bitprim_network.Sessions.Batch.{
  Batch, BatchEvent, ends, halts, batch_size, join_handler, start_connect, new_connect,
  new_connects, connect, handle_connect, end_connect, step, run,
}

-- Whether a channel comes along.
abbrev pub has_channel : {Channel : Type 0} → Option Channel → Bool
has_channel none = false
has_channel (some c) = true

-- A call of the handler is a success if and only if a channel comes along, and a failure only when no
-- connection of the batch is outstanding.
abbrev pub IsFair : {Channel : Type 0} → ℕ → Code × Option Channel → Type 0
IsFair outstanding (ec, channel) =
    (has_channel channel ≡ not (is_error ec)) × (is_error ec ≡ true → outstanding ≡ 0)

All-IsFair :
    {Channel : Type 0} (m n : ℕ) (calls : List (Code × Option Channel))
    → n ≤ m
    → All (IsFair m) calls
    → All (IsFair n) calls
All-IsFair m n [] le v = tt
All-IsFair m n (c ∷ calls) le ((a, b), v) =
    ((a, λ bad. ground (arith, b bad)), All-IsFair m n calls le v)

module _ (join : SuccessSynchronizers) {Channel Address : Type 0} (ip : Address → ℕ)
    (blacklists : List Address) where
  abbrev left : Batch join Channel → ℕ
  left b = join.remaining b.joined

  -- So many connections are outstanding, and the join handler awaits them unless it has called the
  -- handler.
  record IsJoined (outstanding : ℕ) (b : Batch join Channel) : Type 0 where
    counted : length b.calls ≡ (if left b == 0 then 1 else 0)
    awaited : (left b == 0) ≡ false → left b ≡ outstanding
    fair : All (IsFair outstanding) b.calls

  result-IsJoined :
      (ec : Code) (channel : Option Channel) (b : Batch join Channel) (next : join.State)
      (result : Option Code) (m : ℕ)
      → has_channel channel ≡ not (is_error ec)
      → IsJoined (m + 1) b
      → join.remaining next ≡ (if is_error ec then left b - 1 else 0)
      → result ≡ (
          if left b == 0
          then none
          else if is_error ec
          then if left b == 1 then some join.exhausted else none
          else some success)
      → IsJoined m (elim result [
        | none ↦ record b { joined = next }
        | some code ↦ record b { joined = next; calls = (code, channel) ∷ b.calls }
      ])
  result-IsJoined ec channel b next none m e v n r = record {
    counted = ground (arith, v.counted);
    awaited = ground (arith, v.awaited);
    fair = All-IsFair (m + 1) m b.calls (omega arith) v.fair;
  }
  result-IsJoined ec channel b next (some code) m e v n r =
      let x = join.exhausted_lem in
      record {
        counted = ground (arith, v.counted);
        awaited = ground (arith, v.awaited);
        fair = (
          (ground (arith, x), ground (arith, x, v.awaited)),
          All-IsFair (m + 1) m b.calls (omega arith) v.fair,
        );
      }

  join_handler-IsJoined :
      (ec : Code) (channel : Option Channel) (b : Batch join Channel) (m : ℕ)
      → has_channel channel ≡ not (is_error ec)
      → IsJoined (m + 1) b
      → IsJoined m (join_handler join ip blacklists ec channel b)
  unfolding join_handler
  join_handler-IsJoined ec channel b m e v =
      let l = join.call_lem ec b.joined in
      let (next, result) = join.call ec b.joined in
      result-IsJoined ec channel b next result m e v l.0 l.1

  IsJoined-moved :
      (m n : ℕ) (b c : Batch join Channel)
      → m ≡ n
      → c.joined ≡ b.joined
      → c.calls ≡ b.calls
      → IsJoined m b
      → IsJoined n c
  IsJoined-moved m n b c e f g v = record {
    counted = ground (arith, v.counted);
    awaited = ground (arith, v.awaited);
    fair = rw g (All-IsFair m n b.calls (omega arith) v.fair);
  }

  -- A connector was pended as often as it was unpended and still connects.
  abbrev Frees : Batch join Channel → Type 0
  Frees b = (p : ℕ → Bool) → count_by p b.pended ≡ count_by p b.unpended + count_by p b.waiting

  -- With so many hosts still to be tried.
  record IsRunning (todo : ℕ) (b : Batch join Channel) : Type 0 where
    is_joined : IsJoined (length b.waiting + todo) b
    frees : Frees b

  Frees-join_handler :
      (ec : Code) (channel : Option Channel) (b : Batch join Channel)
      → Frees b
      → Frees (join_handler join ip blacklists ec channel b)
  unfolding join_handler
  Frees-join_handler ec channel b v p = ground (arith, v p)

  waiting-join_handler :
      (ec : Code) (channel : Option Channel) (b : Batch join Channel)
      → (join_handler join ip blacklists ec channel b).waiting ≡ b.waiting
  unfolding join_handler
  waiting-join_handler ec channel b = ground arith

  -- One outstanding connection is answered.
  join_handler-IsRunning :
      (ec : Code) (channel : Option Channel) (b : Batch join Channel) (todo : ℕ)
      → has_channel channel ≡ not (is_error ec)
      → IsJoined (length b.waiting + todo + 1) b
      → Frees b
      → IsRunning todo (join_handler join ip blacklists ec channel b)
  join_handler-IsRunning ec channel b todo e v f = record {
    is_joined =
        IsJoined-moved (length b.waiting + todo) _ _ _
          (ground (arith, waiting-join_handler ec channel b)) refl refl
          (join_handler-IsJoined ec channel b (length b.waiting + todo) e v);
    frees = Frees-join_handler ec channel b f;
  }

  new_connect-IsRunning :
      (fetched : Code × Address) (b : Batch join Channel) (todo : ℕ)
      → IsRunning (suc todo) b
      → IsRunning todo (new_connect join ip blacklists fetched b)
  unfolding new_connect start_connect
  new_connect-IsRunning (ec, address) b todo v =
      let owed =
        IsJoined-moved (length b.waiting + suc todo) (length b.waiting + todo + 1) b b (omega arith)
          refl refl v.is_joined in
      let answer : (code : Code)
          → is_error code ≡ true
          → IsRunning todo (join_handler join ip blacklists code none b) =
        λ code bad. join_handler-IsRunning code none b todo (ground (arith, bad)) owed v.frees in
      if-both (IsRunning todo) b.stopped (λ _. answer channel_stopped refl)
        (λ _.
          if-both (IsRunning todo) (b.stopped || is_service_stopped ec)
            (λ _. answer service_stopped refl)
            (λ _.
              if-both (IsRunning todo) (is_error ec) (λ bad. answer ec bad)
                (λ _.
                  if-both (IsRunning todo) (blacklisted ip blacklists address)
                    (λ _. answer address_blocked refl)
                    (λ _. record {
                      is_joined =
                          IsJoined-moved (length b.waiting + suc todo) _ b _
                            (omega (arith, length-snoc b.made b.waiting)) refl refl v.is_joined;
                      frees = λ p. omega (arith, v.frees p, count_by-snoc p b.made b.waiting);
                    }))))

  new_connects-IsRunning :
      (n : ℕ) (fetch : ℕ → Code × Address) (b : Batch join Channel)
      → IsRunning n b
      → IsRunning 0 (new_connects join ip blacklists n fetch b)
  unfolding new_connects
  new_connects-IsRunning zero fetch b v = v
  new_connects-IsRunning (suc n) fetch b v =
      new_connects-IsRunning n fetch _ (new_connect-IsRunning (fetch n) b n v)

  end_connect-IsRunning :
      (at : Option ℕ) (i : ℕ) (ec : Code) (channel : Channel) (b : Batch join Channel)
      → get_elem? b.waiting i ≡ at
      → IsRunning 0 b
      → IsRunning 0 (end_connect join ip blacklists at i ec channel b)
  unfolding end_connect handle_connect
  end_connect-IsRunning none i ec channel b e v = v
  end_connect-IsRunning (some c) i ec channel b e v =
      let freed : Batch join Channel = record b {
        waiting = erase_at i b.waiting;
        unpended = c ∷ b.unpended;
      } in
      let owed =
        IsJoined-moved (length b.waiting + 0) (length freed.waiting + 0 + 1) b freed
          (omega (arith, length-erase_at i b.waiting e)) refl refl v.is_joined in
      let frees : Frees freed = λ p. omega (arith, v.frees p, count_by-erase_at p i b.waiting e) in
      if-both (IsRunning 0) (is_error ec)
        (λ bad. join_handler-IsRunning ec none freed 0 (ground (arith, bad)) owed frees)
        (λ _. join_handler-IsRunning success (some channel) freed 0 refl owed frees)

  run-IsRunning :
      (es : List (BatchEvent Channel)) (b : Batch join Channel)
      → IsRunning 0 b
      → IsRunning 0 (run join ip blacklists es b)
  unfolding run step
  run-IsRunning [] b v = v
  run-IsRunning (ends i ec channel ∷ es) b v =
      run-IsRunning es _ (end_connect-IsRunning (get_elem? b.waiting i) i ec channel b refl v)
  run-IsRunning (halts ∷ es) b v =
      (let halted : Batch join Channel = record b { stopped = true } in
        run-IsRunning es halted (record {
          is_joined = IsJoined-moved (length b.waiting + 0) _ b halted refl refl refl v.is_joined;
          frees = v.frees;
        }))

  -- What holds of a batch at any time.
  pub record IsBatch (b : Batch join Channel) : Type 0 where
    pub at_most_once : length b.calls ≤ 1
    pub answered : b.waiting ≡ [] → length b.calls ≡ 1
    pub fair : All (IsFair (length b.waiting)) b.calls
    pub frees : (p : ℕ → Bool) → count_by p b.pended ≡ count_by p b.unpended + count_by p b.waiting

  -- Of a batch of any size, whatever its fetches return, however its connections end and whether or not the
  -- session stops: its handler is called at most once, and has been called when no connection goes on;
  -- it is called with success if and only if a channel comes along, and with an error only when no
  -- connection goes on; and each connector that was pended was unpended when its connection ended.
  pub run-connect-IsBatch :
      (size : ℕ) (fetch : ℕ → Code × Address) (stopped : Bool) (es : List (BatchEvent Channel))
      → IsBatch (run join ip blacklists es (connect join ip blacklists size fetch stopped))
  unfolding connect batch_size
  run-connect-IsBatch size fetch stopped es =
      let n = batch_size size in
      let began =
        new_connects-IsRunning n fetch
          (record {
            stopped = stopped;
            made = 0;
            joined = join.synchronize n;
            pended = [];
            unpended = [];
            waiting = [];
            calls = [];
          })
          (record {
            is_joined = record {
              counted = ground (arith, join.synchronize_lem n);
              awaited = ground (arith, join.synchronize_lem n);
              fair = tt;
            };
            frees = λ p. refl;
          }) in
      let v = run-IsRunning es _ began in
      let b = run join ip blacklists es (connect join ip blacklists size fetch stopped) in
      record {
        at_most_once = ground (arith, v.is_joined.counted);
        answered = λ none_left. ground (arith, v.is_joined.counted, v.is_joined.awaited);
        fair = All-IsFair (length b.waiting + 0) _ b.calls (omega arith) v.is_joined.fair;
        frees = v.frees;
      }
