-- ===== src/Network/Plain.antt =====
-- A small collection that behaves as the record `Pendings` says, for the tests.
use bitprim_network.Base.{
  ℕ, ◌≡◌, refl, Bool, true, false, not, List, [], ◌∷◌, ◌++◌, map, length, ◌==◌, any, keep, arith,
  if◌then◌else◌,
}
use bitprim_network.Code.{Code, success, service_stopped, address_in_use}
use bitprim_network.Network.Library.{Pendings}
use bitprim_network.Network.{Link}

pub record Collection (Element : Type 0) : Type 0 where
  pub stopped : Bool
  pub members : List Element
  pub informed : List (Element × Code)

abbrev pub put : {E : Type 0} → E → Collection E → Collection E × Code
put e s =
    if s.stopped
    then (s, service_stopped)
    else (record s { members = s.members ++ e ∷ [] }, success)

abbrev pub put_unless : {E : Type 0} → (E → Bool) → E → Collection E → Collection E × Code
put_unless match e s =
    if s.stopped
    then (s, service_stopped)
    else if any match s.members
    then (s, address_in_use)
    else (record s { members = s.members ++ e ∷ [] }, success)

abbrev pub halt : {E : Type 0} → Code → Collection E → Collection E
halt ec s =
    if s.stopped
    then s
    else record s { stopped = true; informed = s.informed ++ map (λ e. (e, ec)) s.members }

-- The laws of one element type, whose pointers are told apart by a number.
module _ {E : Type 0} (pointer : E → ℕ) where
  pub put_lem :
      (e : E) (s : Collection E)
      → ((put e s).0.stopped ≡ s.stopped)
        × ((put e s).0.members ≡ (if s.stopped then s.members else s.members ++ e ∷ []))
        × ((put e s).1 ≡ (if s.stopped then service_stopped else success))
  put_lem e s = ground arith

  pub put_unless_lem :
      (match : E → Bool) (e : E) (s : Collection E)
      → ((put_unless match e s).0.stopped ≡ s.stopped)
        × ((put_unless match e s).0.members ≡ (
            if s.stopped
            then s.members
            else if any match s.members
            then s.members
            else s.members ++ e ∷ []))
        × ((put_unless match e s).1 ≡ (
            if s.stopped
            then service_stopped
            else if any match s.members
            then address_in_use
            else success))
  put_unless_lem match e s = ground arith

  pub halt_lem :
      (ec : Code) (s : Collection E)
      → ((halt ec s).stopped ≡ true)
        × ((halt ec s).informed
            ≡ (if s.stopped then s.informed else s.informed ++ map (λ e. (e, ec)) s.members))
  halt_lem ec s = ground arith

  pub pointer_refl : (e : E) → (pointer e == pointer e) ≡ true
  pointer_refl e = ground arith

  abbrev pub collections : Pendings E
  collections = record {
    State = Collection E;
    is_stopped = λ s. s.stopped;
    elements = λ s. s.members;
    is_same = λ x y. pointer x == pointer y;
    store = put;
    store_unless = put_unless;
    remove = λ e s. record s { members = keep (λ x. not (pointer x == pointer e)) s.members };
    exists = λ match s. any match s.members;
    size = λ s. length s.members;
    create = λ n. record { stopped = false; members = []; informed = [] };
    stop = halt;
    told = λ s. s.informed;
    store_lem = put_lem;
    store_unless_lem = put_unless_lem;
    remove_lem = λ e s. (refl, refl);
    exists_lem = λ match s. refl;
    size_lem = λ s. refl;
    create_lem = λ n. (refl, refl, refl);
    stop_lem = halt_lem;
    is_same_refl = pointer_refl;
  }

-- Links go to addresses that are numbers.
abbrev pub pendings : Pendings (Link ℕ)
pendings = collections (λ c. c.pointer)

abbrev pub same : ℕ → ℕ → Bool
same a b = a == b

abbrev pub holding : List (Link ℕ) → Collection (Link ℕ)
holding xs = record { stopped = false; members = xs; informed = [] }
