-- ===== src/Hosts/Calls.antt =====
-- Sequences of calls of the pool of src/hosts.cpp: every method that changes its state.
use bitprim_network.Base.{
  ◌≡◌, refl, true, List, [], ◌∷◌, Option, none, some, arith, Option-cases, inl, inr,
}
use bitprim_network.Code.{Code}
use bitprim_network.Hosts.Library.{Addresses, CircularBuffer, Random}
use bitprim_network.Hosts.{
  Hosts, Opening, Outcome, returned, thrown, start, stop, remove, store, store_list, store_loop,
}

module _ (a : Addresses) (cb : CircularBuffer a.Address) where
  open a use {Address, Line}

  -- The calls of the pool that change its state, with the draws and the file that they meet.
  pub data Call : Type 1 where
    starts : Option (List Line) → Call
    stops : Opening → Call
    stores : Address → Call
    stores_list : Random → List Address → Call
    removes : Address → Call

  abbrev pub outcome_hosts : Outcome a cb → Hosts a cb
  outcome_hosts (returned h ec) = h
  outcome_hosts (thrown h) = h

  abbrev pub list_hosts : Hosts a cb → Option (Hosts a cb × Code) → Hosts a cb
  list_hosts h none = h
  list_hosts h (some (h', ec)) = h'

  unfoldable pub after : Call → Hosts a cb → Hosts a cb
  after (starts file) h = outcome_hosts (start a cb file h)
  after (stops opening) h = (stop a cb opening h).0
  after (stores host) h = (store a cb host h).0
  after (stores_list rng hosts) h = list_hosts h (store_list a cb rng hosts h)
  after (removes host) h = (remove a cb host h).0

  unfoldable pub run : List Call → Hosts a cb → Hosts a cb
  run [] h = h
  run (c ∷ cs) h = run cs (after c h)

  -- No call changes the two constants of the pool.
  pub after-config :
      (c : Call) (h : Hosts a cb)
      → ((after c h).capacity ≡ h.capacity) × ((after c h).disabled ≡ h.disabled)
  unfolding after start stop store remove store_list
  after-config (starts none) h = ground arith
  after-config (starts (some lines)) h = ground arith
  after-config (stops opening) h = ground arith
  after-config (stores host) h = ground arith
  after-config (stores_list rng hosts) h = elim (Option-cases (store_loop a cb rng hosts h)) [
    | inl e ↦ rw (e, after, store_list) (ground arith)
    | inr (b, e) ↦ rw (e, after, store_list) (ground arith)
  ]
  after-config (removes host) h = ground arith

  pub run-config :
      (cs : List Call) (h : Hosts a cb)
      → ((run cs h).capacity ≡ h.capacity) × ((run cs h).disabled ≡ h.disabled)
  unfolding run
  run-config [] h = (refl, refl)
  run-config (c ∷ cs) h = ground (arith, run-config cs (after c h), after-config c h)

  -- A disabled pool never changes.
  pub after-disabled : (c : Call) (h : Hosts a cb) → h.disabled ≡ true → after c h ≡ h
  unfolding after start stop store remove store_list
  after-disabled (starts file) h e = ground arith
  after-disabled (stops opening) h e = ground arith
  after-disabled (stores host) h e = ground arith
  after-disabled (stores_list rng hosts) h e = ground arith
  after-disabled (removes host) h e = ground arith

  pub run-disabled : (cs : List Call) (h : Hosts a cb) → h.disabled ≡ true → run cs h ≡ h
  unfolding run
  run-disabled [] h e = refl
  run-disabled (c ∷ cs) h e = rw (after-disabled c h e) (run-disabled cs h e)
