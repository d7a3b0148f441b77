-- ===== src/Hosts/Fetching.antt =====
-- What the pool hands out: src/hosts.cpp, the two methods `fetch`.
use mathlib.Core.List.{append-nil}
use mathlib.Core.List.Perm
use bitprim_network.Base.{
  ℕ, zero, suc, ◌≤◌, ◌<◌, ◌≡◌, ◌≢◌, refl, subst, false, List, [], ◌∷◌, ◌++◌, ◌/◌, some, arith, ◌==◌,
  min, length, get_elem?, take, Perm, Bool-cases, inl, inr, sub_size, sub_size_lem, size_mod,
}
use native.Mathlib.Nat.{div-le_self, le-div_iff_mul-le, mul-le-mul_left}
use bitprim_network.Code.{success}
use bitprim_network.Hosts.Library.{Addresses, CircularBuffer, Random}
use bitprim_network.Hosts.{Hosts, entries, count, fetch, fetch_list, out_count}

get_elem?-lt {ℓ} :
    {A : Type ℓ} (xs : List A) (i : ℕ) → i < length xs → (x : A) × (get_elem? xs i ≡ some x)
get_elem?-lt [] i h = absurd (omega arith)
get_elem?-lt (x ∷ xs) zero h = (x, refl)
get_elem?-lt (x ∷ xs) (suc i) h = get_elem?-lt xs i (omega arith)

module _ (a : Addresses) (cb : CircularBuffer a.Address) where
  open a use {Address}

  -- The state in which the pool has something to hand out.
  pub record HasHosts (h : Hosts a cb) : Type 0 where
    pub enabled : h.disabled ≡ false
    pub running : h.stopped ≡ false
    pub some_host : 1 ≤ count a cb h

  -- On a running pool that is enabled and holds an address, and fewer than a size_t counts,
  -- `fetch` succeeds with an entry of the pool: the index that it draws is in range.
  pub fetch-success :
      (rng : Random) (h : Hosts a cb)
      → HasHosts h
      → count a cb h < size_mod
      → (i : ℕ) × (entry : Address) × (get_elem? (entries a cb h) i ≡ some entry)
        × (fetch a cb rng h ≡ (success, some entry))
  unfolding fetch count
  fetch-success rng h v fits =
      let last = sub_size (length (entries a cb h)) 1 in
      let e = sub_size_lem (length (entries a cb h)) 1 v.some_host fits in
      let i = rng.next 0 last in
      let (entry, at) =
        get_elem?-lt (entries a cb h) i (omega (arith, rng.next_bounds 0 last (omega arith))) in
      (i, entry, at, ground (arith, v))

  -- A greater divisor gives no more.
  div-antitone : (n : ℕ) {k l : ℕ} → 1 ≤ k → k ≤ l → n / l ≤ n / k
  div-antitone n {k} {l} positive le =
      let product = (le-div_iff_mul-le {k = l} {x = n / l} {y = n} (omega arith)).0 (omega arith) in
      (le-div_iff_mul-le positive).1 (omega (arith, mul-le-mul_left (n / l) le, product))

  taken_none :
      (rng : Random) (h : Hosts a cb) (out : List Address)
      → HasHosts h
      → out_count a cb rng h ≡ 0
      → fetch_list a cb rng h out ≡ (success, out)
  unfolding fetch_list count
  taken_none rng h out v e = ground (arith, v)

  taken_some :
      (rng : Random) (h : Hosts a cb) (out : List Address)
      → HasHosts h
      → out_count a cb rng h ≢ 0
      → fetch_list a cb rng h out
        ≡ (success, rng.shuffle (out ++ take (out_count a cb rng h) (entries a cb h)))
  unfolding fetch_list count
  taken_some rng h out v e = ground (arith, v)

  -- On a running pool that is enabled and holds an address, the call succeeds and the list that comes
  -- back holds, in some order, what was in it and the n first entries of the pool, where n is the number
  -- of its entries, or its capacity where that is less, divided by a number drawn from 1 to 20: so much of a pool within
  -- its capacity is handed out, all of it at most and a twentieth, rounded down, at least.
  pub fetch_list-perm :
      (rng : Random) (h : Hosts a cb) (out : List Address)
      → HasHosts h
      → let n = min (count a cb h) h.capacity / rng.next 1 20 in
        let (ec, handed_out) = fetch_list a cb rng h out in
        (ec ≡ success)
        × Perm handed_out (out ++ take n (entries a cb h))
        × (n ≤ count a cb h)
        × (min (count a cb h) h.capacity / 20 ≤ n)
  unfolding count
  fetch_list-perm rng h out v =
      let n = out_count a cb rng h in
      let (positive, small) = rng.next_bounds 1 20 (omega arith) in
      let twentieth = div-antitone (min (count a cb h) h.capacity) positive small in
      let few : n ≤ length (entries a cb h) =
        omega (arith, div-le_self (min (length (entries a cb h)) h.capacity) (rng.next 1 20)) in
      elim (Bool-cases (n == 0)) [
        | inl e ↦
            let e' : n ≡ 0 = ground arith in
            let unchanged : out ≡ out ++ take n (entries a cb h) = rw (e', append-nil) in
            rw (taken_none rng h out v e')
              (refl, subst (Perm out) unchanged (Perm.refl out), few, twentieth)
        | inr e ↦
            rw (taken_some rng h out v (ground arith))
              (refl, rng.shuffle-perm (out ++ take n (entries a cb h)), few, twentieth)
      ]
