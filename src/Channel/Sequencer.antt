-- ===== src/Channel/Sequencer.antt =====
-- A small sequencer that behaves as the record `Sequencers` says, for the tests.
use bitprim_network.Base.{
  ◌≡◌, refl, Bool, true, false, Option, none, some, List, [], ◌∷◌, ◌++◌, if◌then◌else◌,
}
use bitprim_network.Channel.Library.{Sequencers, head, tail, is_some}

module _ {A : Type 0} where
  abbrev pub lock : A → Bool × List A → (Bool × List A) × Option A
  lock a (true, queue) = ((true, queue ++ a ∷ []), none)
  lock a (false, queue) = ((true, queue), some a)

  abbrev pub unlock : Bool × List A → (Bool × List A) × Option A
  unlock (busy, queue) = ((is_some (head queue), tail queue), head queue)

  pub lock_lem :
      (a : A) (s : Bool × List A)
      → ((lock a s).0.0 ≡ true)
        × ((lock a s).0.1 ≡ (if s.0 then s.1 ++ a ∷ [] else s.1))
        × ((lock a s).1 ≡ (if s.0 then none else some a))
  lock_lem a (true, queue) = (refl, refl, refl)
  lock_lem a (false, queue) = (refl, refl, refl)

  abbrev pub queue : Sequencers A
  queue = record {
    State = Bool × List A;
    create = (false, []);
    busy = λ s. s.0;
    waiting = λ s. s.1;
    lock = lock;
    unlock = unlock;
    create_lem = (refl, refl);
    lock_lem = lock_lem;
    unlock_lem = λ s. (refl, refl, refl);
  }
