-- ===== src/Hosts/Bounds.antt =====
-- How many addresses the pool of src/hosts.cpp can hold, over any sequence of calls.
use bitprim_network.Base.{
  ℕ, ◌≤◌, ◌≡◌, refl, min, max, List, [], ◌∷◌, ◌++◌, Option, none, some, arith, ◌==◌, length,
  length-append, length-tail, length-erase_at-le, Bool-cases, Option-cases, inl, inr,
}
use bitprim_network.Hosts.Library.{Addresses, CircularBuffer, Random, push_last}
use bitprim_network.Hosts.Calls.{
  Call, starts, stops, stores, stores_list, removes, after, run, outcome_hosts, list_hosts,
  run-config, run-disabled,
}
use bitprim_network.Hosts.Loop.{store_from_inv}
use bitprim_network.Hosts.{
  Hosts, Opening, construct, entries, count, find, admit, visit, load, start, stop, remove, store,
  store_list, store_loop,
}

pub length-push_last {ℓ} :
    {A : Type ℓ} (n : ℕ) (x : A) (xs : List A) → length xs ≤ n → length (push_last n x xs) ≤ n
length-push_last n x xs h = ground (arith, length-append xs (x ∷ []), length-tail (xs ++ x ∷ []))

module _ (a : Addresses) (cb : CircularBuffer a.Address) where
  open a use {Address, Line, max_address}

  -- The buffer holds no more than its capacity, which is `n`.
  pub record Fits (n : ℕ) (b : cb.Buffer) : Type 0 where
    pub within : length (cb.to_list b) ≤ n
    pub fixed : cb.capacity b ≡ n

  push_back-Fits : {n : ℕ} (x : Address) (b : cb.Buffer) → Fits n b → Fits n (cb.push_back x b)
  push_back-Fits x b f = ground (
    arith,
    cb.to_list-push_back x b,
    cb.capacity-push_back x b,
    length-push_last (cb.capacity b) x (cb.to_list b),
  )

  admit-Fits : {n : ℕ} (x : Address) (b : cb.Buffer) → Fits n b → Fits n (admit a cb x b)
  unfolding admit
  admit-Fits x b f = ground (arith, push_back-Fits x b f)

  visit-Fits : {n : ℕ} (x : Address) (b : cb.Buffer) → Fits n b → Fits n (visit a cb x b)
  unfolding visit
  visit-Fits x b f = ground (arith, admit-Fits x b f)

  load-Fits : {n : ℕ} (lines : List Line) (b : cb.Buffer) → Fits n b → Fits n (load a cb lines b).0
  unfolding load
  load-Fits [] b f = f
  load-Fits (line ∷ rest) b f = elim (Option-cases (a.parse line)) [
    | inl e ↦ rw (e, load) f
    | inr (host, e) ↦
        rw (e, load)
          (load-Fits rest _ (ground (arith, push_back-Fits (a.to_network_address host) b f)))
  ]

  -- The state that the constructor and every method leave: the buffer of at least one place within
  -- its capacity, the configured capacity within the limit of the library.
  pub record IsBounded (h : Hosts a cb) : Type 0 where
    pub fits : Fits (max h.capacity 1) h.buffer
    pub limited : h.capacity ≤ max_address

  pub construct-IsBounded : (pool : ℕ) → IsBounded (construct a cb pool)
  unfolding construct
  construct-IsBounded pool =
      let n = min max_address pool in
      record {
        fits = record { within = rw cb.to_list-create (omega arith); fixed = cb.capacity-create _ };
        limited = omega arith;
      }

  start-IsBounded :
      (file : Option (List Line)) (h : Hosts a cb)
      → IsBounded h
      → IsBounded (outcome_hosts a cb (start a cb file h))
  unfolding start
  start-IsBounded none h v = ground arith
  start-IsBounded (some lines) h v = ground (arith, load-Fits lines h.buffer v.fits)

  stop-IsBounded :
      (opening : Opening) (h : Hosts a cb) → IsBounded h → IsBounded (stop a cb opening h).0
  unfolding stop
  stop-IsBounded opening h v = ground (arith, cb.to_list-clear h.buffer, cb.capacity-clear h.buffer)

  store-IsBounded :
      (host : Address) (h : Hosts a cb) → IsBounded h → IsBounded (store a cb host h).0
  unfolding store
  store-IsBounded host h v = ground (arith, admit-Fits host h.buffer v.fits)

  remove-IsBounded :
      (host : Address) (h : Hosts a cb) → IsBounded h → IsBounded (remove a cb host h).0
  unfolding remove
  remove-IsBounded host h v = elim (Option-cases (find a cb host (entries a cb h))) [
    | inl e ↦ rw (e, remove) (ground arith)
    | inr (i, e) ↦
        rw (e, remove)
          (ground (
            arith,
            cb.to_list-erase i h.buffer,
            cb.capacity-erase i h.buffer,
            length-erase_at-le i (entries a cb h),
          ))
  ]

  store_list-IsBounded :
      (rng : Random) (hosts : List Address) (h : Hosts a cb)
      → IsBounded h
      → IsBounded (list_hosts a cb h (store_list a cb rng hosts h))
  unfolding store_list
  store_list-IsBounded rng hosts h v = elim (Option-cases (store_loop a cb rng hosts h)) [
    | inl e ↦ rw (e, store_list) (ground arith)
    | inr (b, e) ↦
        rw (e, store_list)
          (ground
            (arith, store_from_inv a cb (Fits (max h.capacity 1)) visit-Fits _ _ _ _ _ _ e v.fits))
  ]

  after-IsBounded : (c : Call a cb) (h : Hosts a cb) → IsBounded h → IsBounded (after a cb c h)
  unfolding after
  after-IsBounded (starts file) h v = start-IsBounded file h v
  after-IsBounded (stops opening) h v = stop-IsBounded opening h v
  after-IsBounded (stores host) h v = store-IsBounded host h v
  after-IsBounded (stores_list rng hosts) h v = store_list-IsBounded rng hosts h v
  after-IsBounded (removes host) h v = remove-IsBounded host h v

  run-IsBounded : (cs : List (Call a cb)) (h : Hosts a cb) → IsBounded h → IsBounded (run a cb cs h)
  unfolding run
  run-IsBounded [] h v = v
  run-IsBounded (c ∷ cs) h v = run-IsBounded cs (after a cb c h) (after-IsBounded c h v)

  construct-config :
      (pool : ℕ)
      → ((construct a cb pool).capacity ≡ min max_address pool)
        × ((construct a cb pool).disabled ≡ (min max_address pool == 0))
        × (count a cb (construct a cb pool) ≡ 0)
  unfolding construct count
  construct-config pool = (refl, refl, rw cb.to_list-create)

  -- After any sequence of calls on a new pool, the pool holds no more addresses than its configured
  -- capacity and than the limit of the library: none at all, if one of them is zero.
  pub count-run-le :
      (cs : List (Call a cb)) (pool : ℕ)
      → count a cb (run a cb cs (construct a cb pool)) ≤ min max_address pool
  count-run-le cs pool = elim (Bool-cases (min max_address pool == 0)) [
    | inl off ↦
        let same =
          run-disabled a cb cs (construct a cb pool) (ground (arith, construct-config pool)) in
        rw same (omega (arith, construct-config pool))
    | inr on ↦
        let v = (run-IsBounded cs (construct a cb pool) (construct-IsBounded pool)).fits.within in
        unfold count in
        ground (arith, v, (run-config a cb cs (construct a cb pool)).0, construct-config pool)
  ]
