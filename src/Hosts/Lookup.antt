-- ===== src/Hosts/Lookup.antt =====
-- What `remove` and `store` of src/hosts.cpp do to the host that they are given.
use bitprim_network.Base.{
  ℕ, zero, suc, ◌+◌, ◌≤◌, ◌<◌, ◌≡◌, ◌≢◌, ◌⊎◌, refl, true, false, List, [], ◌∷◌, ◌++◌, none, some,
  arith, length, tail, erase_at, ltb, Bool-cases, Option-cases, inl, inr,
}
use bitprim_network.Code.{success, not_found}
use bitprim_network.Hosts.Library.{Addresses, CircularBuffer, push_last}
use bitprim_network.Hosts.Distinct.{IsDistinct, find-erase_at}
use bitprim_network.Hosts.{Hosts, entries, find, same_host, store, remove, admit, count}

pub length-erase_at {ℓ} :
    {A : Type ℓ} (i : ℕ) (xs : List A) → i < length xs → length (erase_at i xs) + 1 ≡ length xs
length-erase_at i [] h = absurd (omega arith)
length-erase_at zero (x ∷ xs) h = omega arith
length-erase_at (suc i) (x ∷ xs) h = omega (arith, length-erase_at i xs (omega arith))

module _ (a : Addresses) (cb : CircularBuffer a.Address) where
  open a use {Address, ip, port}

  find-lt :
      (host : Address) (xs : List Address) (i : ℕ) → find a cb host xs ≡ some i → i < length xs
  unfolding find
  find-lt host [] i e = absurd (cc)
  find-lt host (x ∷ xs) zero e = omega arith
  find-lt host (x ∷ xs) (suc i) e = elim (Bool-cases (same_host a cb host x)) [
    | inl hit ↦ absurd (ground arith)
    | inr miss ↦ omega (arith, find-lt host xs i (ground arith))
  ]

  -- In a running pool with distinct entries, `remove` reports success exactly when the host is there,
  -- and then no entry has its port and ip; else it reports that it was not found and changes nothing.
  pub remove_lem :
      (host : Address) (h : Hosts a cb)
      → h.disabled ≡ false
      → h.stopped ≡ false
      → IsDistinct a cb (entries a cb h)
      → let (h', ec) = remove a cb host h in
        (find a cb host (entries a cb h') ≡ none)
        × (((find a cb host (entries a cb h) ≡ none) × (ec ≡ not_found) × (h' ≡ h))
            ⊎ ((find a cb host (entries a cb h) ≢ none)
                × (ec ≡ success)
                × (count a cb h' + 1 ≡ count a cb h)))
  unfolding remove count
  remove_lem host h on running d = elim (Option-cases (find a cb host (entries a cb h))) [
    | inl e ↦
        let same : remove a cb host h ≡ (h, not_found) = ground arith in
        rw same (e, inl (e, refl, refl))
    | inr (i, e) ↦
        let removed : remove a cb host h ≡ (record h { buffer = cb.erase i h.buffer }, success) =
          ground arith in
        rw (removed, cb.to_list-erase)
          (
            find-erase_at a cb host i (entries a cb h) d e,
            inr (λ missing. cc, refl, length-erase_at i (entries a cb h) (find-lt host _ i e)),
          )
  ]

  find-append : (host : Address) (xs : List Address) → find a cb host (xs ++ host ∷ []) ≢ none
  unfolding find
  find-append host [] e = ground arith
  find-append host (x ∷ xs) e = ground (arith, find-append host xs)

  -- Nor is it lost where the oldest of two or more entries is dropped.
  find-tail :
      (host : Address) (xs : List Address)
      → 1 ≤ length xs
      → find a cb host (tail (xs ++ host ∷ [])) ≢ none
  find-tail host [] h e = absurd (omega arith)
  find-tail host (x ∷ xs) h e = find-append host xs e

  find-push_last :
      (n : ℕ) (host : Address) (xs : List Address)
      → 1 ≤ n
      → find a cb host (push_last n host xs) ≢ none
  find-push_last n host xs h = elim (Bool-cases (ltb (length xs) n)) [
    | inl e ↦ rw e (find-append host xs)
    | inr e ↦ rw e (find-tail host xs (ground arith))
  ]

  -- After `store` of a valid host in a running pool that is enabled and has room for an address it
  -- is found, whether or not it was there before and whether or not the buffer was full.
  pub store-find :
      (host : Address) (h : Hosts a cb)
      → h.disabled ≡ false
      → h.stopped ≡ false
      → a.is_valid host ≡ true
      → 1 ≤ cb.capacity h.buffer
      → let (h', ec) = store a cb host h in
        (ec ≡ success) × (find a cb host (entries a cb h') ≢ none)
  unfolding store admit
  store-find host h on running ok room = elim (Option-cases (find a cb host (entries a cb h))) [
    | inl e ↦
        let stored : store a cb host h
            ≡ (record h { buffer = cb.push_back host h.buffer }, success) =
          ground arith in
        rw (stored, cb.to_list-push_back) (refl, find-push_last _ host _ room)
    | inr (i, e) ↦
        let stored : store a cb host h ≡ (h, success) = ground arith in
        rw stored (refl, λ missing. cc)
  ]
