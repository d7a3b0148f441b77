-- ===== src/Library/Plain.antt =====
-- A small subscriber that behaves as the record `Subscribers` says, for the tests.
use bitprim_network.Base.{refl, Bool, true, false, List, [], ◌∷◌, ◌++◌, map, keep, if◌then◌else◌}
use bitprim_network.Library.{Subscribers}

pub record Plain (Handler : Type 0) (Notice : Type 0) : Type 0 where
  pub stopped : Bool
  pub handlers : List Handler
  pub made : List (Handler × Notice)

abbrev pub notify : {H N : Type 0} → (N → H → Bool) → N → Plain H N → Plain H N
notify renews n s = record s {
  handlers = if s.stopped then [] else keep (renews n) s.handlers;
  made = s.made ++ map (λ h. (h, n)) s.handlers;
}

abbrev pub plain : {H N : Type 0} → (N → H → Bool) → Subscribers H N
plain {H} {N} renews = record {
  State = Plain H N;
  renews = renews;
  is_stopped = λ s. s.stopped;
  waiting = λ s. s.handlers;
  calls = λ s. s.made;
  create = record { stopped = true; handlers = []; made = [] };
  start = λ s. record s { stopped = false };
  stop = λ s. record s { stopped = true };
  subscribe = λ h n s. record s {
    handlers = if s.stopped then s.handlers else s.handlers ++ h ∷ [];
    made = if s.stopped then s.made ++ (h, n) ∷ [] else s.made;
  };
  relay = notify renews;
  invoke = notify renews;
  create_lem = (refl, refl, refl);
  start_lem = λ s. (refl, refl, refl);
  stop_lem = λ s. (refl, refl, refl);
  subscribe_lem = λ h n s. (refl, refl, refl);
  relay_lem = λ n s. (refl, refl, refl);
  invoke_lem = λ n s. (refl, refl, refl);
}
