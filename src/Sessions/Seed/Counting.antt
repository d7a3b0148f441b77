-- ===== src/Sessions/Seed/Counting.antt =====
-- The answers that the join handler of the seeding awaits: src/sessions/session_seed.cpp.
use bitprim_network.Base.{
  ℕ, zero, suc, ◌+◌, ◌-◌, ◌≡◌, refl, Bool, true, false, Option, none, some, ◌==◌, length,
  length-snoc, count_by-snoc, count_by, All, arith, if◌then◌else◌, if-both,
}
use bitprim_network.Code.{Code, success, channel_stopped, is_error}
use bitprim_network.Sessions.{SessionSettings}
use bitprim_network.Sessions.Library.{CountSynchronizers}
use bitprim_network.Sessions.Seed.{
  Seeding, SeedWait, going_on, connecting, awaits, handle_complete, join_handler, start_seed,
  start_seeds,
}

-- The handler got success if and only if there were addresses.
abbrev pub IsTruthful : Code × ℕ → Type 0
IsTruthful (ec, address_count) = is_error ec ≡ (address_count == 0)

-- Whether a wait is for a connector that passes a test, or for the start.
abbrev pub waits_for : {Address : Type 0} → (ℕ → Bool) → SeedWait Address → Bool
waits_for p (going_on ec) = true
waits_for p (connecting c) = p c
waits_for p _ = false

module _ (join : CountSynchronizers) {Address : Type 0} (ip : Address → ℕ)
    (settings : SessionSettings Address) where
  abbrev pub left : Seeding join Address → ℕ
  left s = join.remaining s.joined

  -- So many answers are outstanding, all of which the join handler awaits; the handler of the start was
  -- called if there is none.
  pub record IsJoined (outstanding : ℕ) (s : Seeding join Address) : Type 0 where
    pub awaited : left s ≡ outstanding
    pub counted : length s.calls ≡ (if outstanding == 0 then 1 else 0)
    pub truthful : All IsTruthful s.calls
    pub from_nothing : s.start_size ≡ 0

  pub IsJoined-moved :
      (m n : ℕ) (s t : Seeding join Address)
      → m ≡ n
      → t.joined ≡ s.joined
      → t.calls ≡ s.calls
      → t.start_size ≡ s.start_size
      → IsJoined m s
      → IsJoined n t
  IsJoined-moved m n s t e f g h v = record {
    awaited = ground (arith, v.awaited);
    counted = ground (arith, v.counted);
    truthful = rw g v.truthful;
    from_nothing = ground (arith, v.from_nothing);
  }

  -- A connector was pended as often as it was unpended and still connects, and no start is waited for.
  abbrev pub Frees : Seeding join Address → Type 0
  Frees s =
      (p : ℕ → Bool) → count_by p s.pended ≡ count_by p s.unpended + count_by (waits_for p) s.waits

  handle_complete-IsTruthful :
      (s : Seeding join Address)
      → s.start_size ≡ 0
      → All IsTruthful s.calls
      → All IsTruthful (handle_complete join ip settings s).calls
  unfolding handle_complete
  handle_complete-IsTruthful s e v = (ground arith, v)

  result-IsJoined :
      (s : Seeding join Address) (next : join.State) (result : Option Code) (m : ℕ)
      → IsJoined (suc m) s
      → join.remaining next ≡ left s - 1
      → result ≡ (if left s == 1 then some success else none)
      → IsJoined m (elim result [
        | none ↦ record s { joined = next }
        | some code ↦ handle_complete join ip settings (record s { joined = next })
      ])
  unfolding handle_complete
  result-IsJoined s next none m v n r = record {
    awaited = ground (arith, v.awaited);
    counted = ground (arith, v.counted, v.awaited);
    truthful = v.truthful;
    from_nothing = v.from_nothing;
  }
  result-IsJoined s next (some code) m v n r = record {
    awaited = ground (arith, v.awaited);
    counted = ground (arith, v.counted, v.awaited);
    truthful = handle_complete-IsTruthful (record s { joined = next }) v.from_nothing v.truthful;
    from_nothing = v.from_nothing;
  }

  -- With so many seeds still to be contacted.
  pub record IsRunning (todo : ℕ) (s : Seeding join Address) : Type 0 where
    pub is_joined : IsJoined (length s.waits + todo) s
    pub frees : Frees s

  -- One more answer is outstanding.
  pub record Owes (todo : ℕ) (s : Seeding join Address) : Type 0 where
    pub is_joined : IsJoined (suc (length s.waits + todo)) s
    pub frees : Frees s

  join_handler_lem :
      (ec : Code) (s : Seeding join Address)
      → ((join_handler join ip settings ec s).waits ≡ s.waits)
        × ((join_handler join ip settings ec s).pended ≡ s.pended)
        × ((join_handler join ip settings ec s).unpended ≡ s.unpended)
  unfolding join_handler handle_complete
  join_handler_lem ec s = (ground arith, ground arith, ground arith)

  join_handler-IsJoined :
      (ec : Code) (s : Seeding join Address) (m : ℕ)
      → IsJoined (suc m) s
      → IsJoined m (join_handler join ip settings ec s)
  unfolding join_handler
  join_handler-IsJoined ec s m v =
      let l = join.call_lem ec s.joined in
      let (next, result) = join.call ec s.joined in result-IsJoined s next result m v l.0 l.1

  pub join_handler-IsRunning :
      (ec : Code) (s : Seeding join Address) (todo : ℕ)
      → Owes todo s
      → IsRunning todo (join_handler join ip settings ec s)
  join_handler-IsRunning ec s todo v =
      let (waits, pended, unpended) = join_handler_lem ec s in
      record {
        is_joined =
            IsJoined-moved (length s.waits + todo) _ _ _ (ground (arith, waits)) refl refl refl
              (join_handler-IsJoined ec s (length s.waits + todo) v.is_joined);
        frees = λ p. ground (arith, waits, pended, unpended, v.frees p);
      }

  -- What two states have in common where only their deeds differ.
  pub record IsSame (s t : Seeding join Address) : Type 0 where
    pub joined : t.joined ≡ s.joined
    pub calls : t.calls ≡ s.calls
    pub start_size : t.start_size ≡ s.start_size
    pub pended : t.pended ≡ s.pended
    pub unpended : t.unpended ≡ s.unpended
    pub waits : t.waits ≡ s.waits

  pub Owes-moved : (s t : Seeding join Address) → IsSame s t → Owes 0 s → Owes 0 t
  Owes-moved s t e v = record {
    is_joined =
        IsJoined-moved (suc (length s.waits + 0)) _ s t (ground (arith, e.waits)) e.joined e.calls
          e.start_size v.is_joined;
    frees = λ p. ground (arith, e.waits, e.pended, e.unpended, v.frees p);
  }

  pub awaits-IsRunning :
      (w : SeedWait Address) (s : Seeding join Address) (todo : ℕ)
      → ((p : ℕ → Bool) → waits_for p w ≡ false)
      → Owes todo s
      → IsRunning todo (awaits join ip settings w s)
  awaits-IsRunning w s todo other v = record {
    is_joined =
        IsJoined-moved (suc (length s.waits + todo)) _ s _ (omega (arith, length-snoc w s.waits))
          refl refl refl v.is_joined;
    frees = λ p. ground (arith, v.frees p, count_by-snoc (waits_for p) w s.waits, other p);
  }

  start_seed-IsRunning :
      (s : Seeding join Address) (todo : ℕ)
      → IsRunning (suc todo) s
      → IsRunning todo (start_seed join ip settings s)
  unfolding start_seed
  start_seed-IsRunning s todo v =
      let owed =
        IsJoined-moved (length s.waits + suc todo) (suc (length s.waits + todo)) s s (omega arith)
          refl refl refl v.is_joined in
      if-both (IsRunning todo) s.stopped
        (λ _.
          join_handler-IsRunning channel_stopped s todo
            (record { is_joined = owed; frees = v.frees }))
        (λ _. record {
          is_joined =
              IsJoined-moved (suc (length s.waits + todo)) _ s _
                (omega (arith, length-snoc (connecting s.made) s.waits)) refl refl refl owed;
          frees = λ p.
              omega (arith, v.frees p, count_by-snoc (waits_for p) (connecting s.made) s.waits);
        })

  pub start_seeds-IsRunning :
      (n : ℕ) (s : Seeding join Address)
      → IsRunning n s
      → IsRunning 0 (start_seeds join ip settings n s)
  unfolding start_seeds
  start_seeds-IsRunning zero s v = v
  start_seeds-IsRunning (suc n) s v =
      start_seeds-IsRunning n (start_seed join ip settings s) (start_seed-IsRunning s n v)
