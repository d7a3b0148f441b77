-- ===== src/Hosts/Distinct.antt =====
-- No two entries of the pool have the same port and ip: src/hosts.cpp, `find` and the methods that
-- change the buffer.
use bitprim_network.Base.{
  ℕ, zero, suc, ◌≡◌, refl, true, false, List, [], ◌∷◌, ◌++◌, none, some, arith, length, get_elem?,
  tail, erase_at, All, All-append, ltb, Bool-cases, Option-cases, inl, inr,
}
use bitprim_network.Hosts.Library.{Addresses, CircularBuffer, Random, push_last}
use bitprim_network.Hosts.Loop.{store_from_inv}
use bitprim_network.Hosts.Calls.{Call, starts, stops, stores, stores_list, removes, after, run}
use bitprim_network.Code.{Code}
use bitprim_network.Hosts.{
  store_loop, stop, Opening, Hosts, entries, find, same_host, store, remove, store_list, admit,
  visit,
}

module _ (a : Addresses) (cb : CircularBuffer a.Address) where
  open a use {Address, ip, port}

  -- No entry of the list has this port and ip.
  abbrev pub IsFresh : Address → List Address → Type 0
  IsFresh host xs = All (λ entry. same_host a cb host entry ≡ false) xs

  abbrev pub IsDistinct : List Address → Type 0
  IsDistinct [] = Unit
  IsDistinct (x ∷ xs) = IsFresh x xs × IsDistinct xs

  pub same_host_comm : (x y : Address) → same_host a cb x y ≡ same_host a cb y x
  same_host_comm x y = ground arith

  pub find-IsFresh :
      (host : Address) (xs : List Address) → find a cb host xs ≡ none → IsFresh host xs
  unfolding find
  find-IsFresh host [] e = tt
  find-IsFresh host (x ∷ xs) e = ground (arith, find-IsFresh host xs)

  -- What `find` returns is the index of an entry with this port and ip.
  pub find_sound :
      (host : Address) (xs : List Address) (i : ℕ)
      → find a cb host xs ≡ some i
      → (entry : Address) × (get_elem? xs i ≡ some entry) × (same_host a cb host entry ≡ true)
  unfolding find
  find_sound host [] i e = absurd (cc)
  find_sound host (x ∷ xs) zero e = elim (Bool-cases (same_host a cb host x)) [
    | inl hit ↦ (x, refl, hit)
    | inr miss ↦ absurd (ground arith)
  ]
  find_sound host (x ∷ xs) (suc i) e = elim (Bool-cases (same_host a cb host x)) [
    | inl hit ↦ absurd (ground arith)
    | inr miss ↦ find_sound host xs i (ground arith)
  ]

  IsDistinct-append :
      (xs : List Address) (host : Address)
      → IsFresh host xs
      → IsDistinct xs
      → IsDistinct (xs ++ host ∷ [])
  IsDistinct-append [] host f d = (tt, tt)
  IsDistinct-append (x ∷ xs) host f d = (
    All-append (λ e. same_host a cb x e ≡ false) xs (host ∷ []) d.0
        (rw (same_host_comm x host) f.0, tt),
    IsDistinct-append xs host f.1 d.1,
  )

  IsDistinct-tail : (xs : List Address) → IsDistinct xs → IsDistinct (tail xs)
  IsDistinct-tail [] d = tt
  IsDistinct-tail (x ∷ xs) d = d.1

  IsFresh-erase_at :
      (host : Address) (i : ℕ) (xs : List Address) → IsFresh host xs → IsFresh host (erase_at i xs)
  IsFresh-erase_at host i [] f = tt
  IsFresh-erase_at host zero (x ∷ xs) f = f.1
  IsFresh-erase_at host (suc i) (x ∷ xs) f = (f.0, IsFresh-erase_at host i xs f.1)

  IsDistinct-erase_at : (i : ℕ) (xs : List Address) → IsDistinct xs → IsDistinct (erase_at i xs)
  IsDistinct-erase_at i [] d = tt
  IsDistinct-erase_at zero (x ∷ xs) d = d.1
  IsDistinct-erase_at (suc i) (x ∷ xs) d =
      (IsFresh-erase_at x i xs d.0, IsDistinct-erase_at i xs d.1)

  IsDistinct-push_last :
      (n : ℕ) (host : Address) (xs : List Address)
      → IsFresh host xs
      → IsDistinct xs
      → IsDistinct (push_last n host xs)
  IsDistinct-push_last n host xs f d = elim (Bool-cases (ltb (length xs) n)) [
    | inl e ↦ rw e (IsDistinct-append xs host f d)
    | inr e ↦ rw e (IsDistinct-tail _ (IsDistinct-append xs host f d))
  ]

  admit-IsDistinct :
      (host : Address) (b : cb.Buffer)
      → IsDistinct (cb.to_list b)
      → IsDistinct (cb.to_list (admit a cb host b))
  unfolding admit
  admit-IsDistinct host b d = elim (Option-cases (find a cb host (cb.to_list b))) [
    | inl e ↦
        rw (e, admit)
          (rw cb.to_list-push_back (IsDistinct-push_last _ host _ (find-IsFresh host _ e) d))
    | inr (i, e) ↦ rw (e, admit) d
  ]

  visit-IsDistinct :
      (host : Address) (b : cb.Buffer)
      → IsDistinct (cb.to_list b)
      → IsDistinct (cb.to_list (visit a cb host b))
  unfolding visit
  visit-IsDistinct host b d = ground (arith, admit-IsDistinct host b d)

  store_list-IsDistinct :
      (rng : Random) (hosts : List Address) (h : Hosts a cb) {h' : Hosts a cb} {ec : Code}
      → store_list a cb rng hosts h ≡ some (h', ec)
      → IsDistinct (entries a cb h)
      → IsDistinct (entries a cb h')
  unfolding store_list
  store_list-IsDistinct rng hosts h {h'} {ec} e d =
      elim (Option-cases (store_loop a cb rng hosts h)) [
        | inl stuck ↦ ground arith
        | inr (b, ends) ↦
            let kept =
              store_from_inv a cb (λ b. IsDistinct (cb.to_list b)) visit-IsDistinct _ _ _ _ _ _ ends
                d in
            ground arith
      ]

  store-IsDistinct :
      (host : Address) (h : Hosts a cb)
      → IsDistinct (entries a cb h)
      → IsDistinct (entries a cb (store a cb host h).0)
  unfolding store
  store-IsDistinct host h d = ground (arith, admit-IsDistinct host h.buffer d)

  remove-IsDistinct :
      (host : Address) (h : Hosts a cb)
      → IsDistinct (entries a cb h)
      → IsDistinct (entries a cb (remove a cb host h).0)
  unfolding remove
  remove-IsDistinct host h d = elim (Option-cases (find a cb host (entries a cb h))) [
    | inl e ↦ rw (e, remove) (ground arith)
    | inr (i, e) ↦
        rw (e, remove)
          (ground (arith, cb.to_list-erase i h.buffer, IsDistinct-erase_at i (entries a cb h) d))
  ]

  IsFresh-of_same :
      (x y : Address) (xs : List Address) → same_host a cb x y ≡ true → IsFresh y xs → IsFresh x xs
  IsFresh-of_same x y [] e f = tt
  IsFresh-of_same x y (z ∷ xs) e f = (ground arith, IsFresh-of_same x y xs e f.1)

  IsFresh-find : (host : Address) (xs : List Address) → IsFresh host xs → find a cb host xs ≡ none
  unfolding find
  IsFresh-find host [] f = refl
  IsFresh-find host (x ∷ xs) f = ground (arith, IsFresh-find host xs f.1)

  pub find-erase_at :
      (host : Address) (i : ℕ) (xs : List Address)
      → IsDistinct xs
      → find a cb host xs ≡ some i
      → find a cb host (erase_at i xs) ≡ none
  unfolding find
  find-erase_at host i [] d e = absurd (cc)
  find-erase_at host zero (x ∷ xs) d e = elim (Bool-cases (same_host a cb host x)) [
    | inl hit ↦ IsFresh-find host xs (IsFresh-of_same host x xs hit d.0)
    | inr miss ↦ absurd (ground arith)
  ]
  find-erase_at host (suc i) (x ∷ xs) d e = elim (Bool-cases (same_host a cb host x)) [
    | inl hit ↦ absurd (ground arith)
    | inr miss ↦ ground (arith, find-erase_at host i xs d.1)
  ]

  stop-IsDistinct :
      (opening : Opening) (h : Hosts a cb)
      → IsDistinct (entries a cb h)
      → IsDistinct (entries a cb (stop a cb opening h).0)
  unfolding stop
  stop-IsDistinct opening h d = ground (arith, cb.to_list-clear h.buffer)

  -- Every call but `start`.
  abbrev pub IsUpdate : Call a cb → Type 0
  IsUpdate (starts file) = ⊥
  IsUpdate _ = Unit

  after-IsDistinct :
      (c : Call a cb) (h : Hosts a cb)
      → IsUpdate c
      → IsDistinct (entries a cb h)
      → IsDistinct (entries a cb (after a cb c h))
  unfolding after
  after-IsDistinct (starts file) h u d = absurd u
  after-IsDistinct (stops opening) h u d = stop-IsDistinct opening h d
  after-IsDistinct (stores host) h u d = store-IsDistinct host h d
  after-IsDistinct (stores_list rng hosts) h u d =
      elim (Option-cases (store_list a cb rng hosts h)) [
        | inl e ↦ rw (e, after) d
        | inr ((h', ec), e) ↦ rw (e, after) (store_list-IsDistinct rng hosts h e d)
      ]
  after-IsDistinct (removes host) h u d = remove-IsDistinct host h d

  -- If no two entries have the same port and ip, then none do after any sequence of calls other
  -- than `start`.
  pub run-IsDistinct :
      (cs : List (Call a cb)) (h : Hosts a cb)
      → All IsUpdate cs
      → IsDistinct (entries a cb h)
      → IsDistinct (entries a cb (run a cb cs h))
  unfolding run
  run-IsDistinct [] h u d = d
  run-IsDistinct (c ∷ cs) h u d =
      run-IsDistinct cs (after a cb c h) u.1 (after-IsDistinct c h u.0 d)
