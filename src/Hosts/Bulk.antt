-- ===== src/Hosts/Bulk.antt =====
-- The bulk store: src/hosts.cpp, `hosts::store(const address::list&, result_handler)`.
use native.Mathlib.Decide.{dec_lt}
use native.Mathlib.Nat.{div-mul-le_self}
use bitprim_network.Base.{
  ℕ, zero, suc, ◌+◌, ◌-◌, ◌*◌, ◌/◌, ◌≤◌, ◌<◌, ◌≡◌, sym, ap, ◌∙◌, min, max, false, List, [], ◌∷◌,
  some, arith, ltb, length, take, drop, length-take, max_size_t, Bool-cases, inl, inr, sub_size_lem,
}
use bitprim_network.Code.{success}
use bitprim_network.Hosts.Library.{Addresses, CircularBuffer, Random}
use bitprim_network.Hosts.Bounds.{IsBounded}
use bitprim_network.Hosts.Stride.{
  stride, length-stride, stride-drop, drop-past, drop-drop, drop-take-cons,
}
use bitprim_network.Hosts.{Hosts, entries, visit, store_from, store_list, usable, gap, accept, step}

module _ (a : Addresses) (cb : CircularBuffer a.Address) where
  open a use {Address, ceiling_add, ceiling_add_lem}

  -- What the loop does to the buffer, as a fold over the addresses that it looks at.
  pub visits : List Address → cb.Buffer → cb.Buffer
  visits [] b = b
  visits (x ∷ xs) b = visits xs (visit a cb x b)

  -- Saturated or not, the next index leaves the same addresses.
  drop-ceiling_add :
      (index stride : ℕ) (xs : List Address)
      → length xs ≤ max_size_t
      → drop (ceiling_add index stride) xs ≡ drop (index + stride) xs
  drop-ceiling_add index stride xs h = elim (Bool-cases (ltb (index + stride) max_size_t)) [
    | inl small ↦ ap (λ k. drop k xs) (ground (arith, ceiling_add_lem index stride))
    | inr large ↦
        drop-past (ceiling_add index stride) xs (ground (arith, ceiling_add_lem index stride))
        ∙ sym (drop-past (index + stride) xs (ground arith))
  ]

  stride-next :
      (index step : ℕ) (xs : List Address)
      → length xs ≤ max_size_t
      → 1 ≤ step
      → stride 0 step (drop (ceiling_add index step) xs)
        ≡ stride (step - 1) step (drop (suc index) xs)
  stride-next index step xs h pos =
      let e : index + step ≡ suc index + (step - 1) = omega arith in
      ap (stride 0 step) (
        drop-ceiling_add index step xs h
        ∙ ap (λ k. drop k xs) e
        ∙ sym (drop-drop (step - 1) (suc index) xs))
      ∙ sym (stride-drop (step - 1) step (drop (suc index) xs))

  -- With enough fuel and the limit within the list, the loop ends, reads in range, and visits every
  -- step-th address from its index on.
  store_from_lem :
      (fuel limit step index : ℕ) (hosts : List Address) (b : cb.Buffer)
      → limit ≤ length hosts
      → limit ≤ max_size_t
      → 1 ≤ step
      → limit - index < fuel
      → store_from a cb fuel limit step index hosts b
        ≡ some (visits (stride 0 step (drop index (take limit hosts))) b)
  unfolding store_from visits stride
  store_from_lem zero limit step index hosts b fits small pos enough = absurd (omega arith)
  store_from_lem (suc fuel) limit step index hosts b fits small pos enough =
      elim (Bool-cases (ltb index limit)) [
        | inl more ↦
            let (host, at, rest) = drop-take-cons index limit hosts (ground arith) fits in
            let next = ceiling_add index step in
            rw (rest, more, store_from, at)
              (store_from_lem fuel limit step next hosts (visit a cb host b) fits small pos
                  (ground (arith, ceiling_add_lem index step))
                ∙ ap (λ ys. some (visits ys (visit a cb host b)))
                    (stride-next index step (take limit hosts)
                      (omega (arith, length-take limit hosts)) pos))
        | inr done ↦ rw (
          done,
          store_from,
          drop-past index (take limit hosts) (ground (arith, length-take limit hosts)),
        )
      ]

  -- The addresses that the loop of `store` looks at.
  abbrev pub chosen : Random → List Address → Hosts a cb → List Address
  chosen rng hosts h = stride 0 (step a cb rng h hosts) (take (usable a cb h hosts) hosts)

  le_of_mul_le : (m n s : ℕ) → 1 ≤ s → s * m ≤ n * s → m ≤ n
  le_of_mul_le m n s pos h = grind arith

  -- Steps of `U / A`, and of one at least, come to `A` places, or to all of them.
  steps_cover : (U A L : ℕ) → U ≤ L * max (U / A) 1 + 0 → min U A ≤ L
  steps_cover U A L h = elim (dec_lt 0 (U / A)) [
    | yes many ↦
        let e : max (U / A) 1 ≡ U / A = omega arith in
        let h' : U ≤ L * (U / A) + 0 = rw e at h in
        omega (arith, le_of_mul_le A L (U / A) many (omega (arith, div-mul-le_self U A)))
    | no few ↦
        let e : max (U / A) 1 ≡ 1 = omega arith in let h' : U ≤ L * 1 + 0 = rw e at h in omega arith
  ]

  module _ (small : a.max_address ≤ max_size_t) where
    capacity_bounds :
        (h : Hosts a cb)
        → IsBounded a cb h
        → (length (entries a cb h) ≤ cb.capacity h.buffer)
          × (1 ≤ cb.capacity h.buffer)
          × (cb.capacity h.buffer ≤ max_size_t)
    capacity_bounds h v = omega arith

    -- The subtraction for the gap does not wrap, and at least one address is accepted, so that the
    -- division is by no zero.
    pub accept_lem :
        (rng : Random) (hosts : List Address) (h : Hosts a cb)
        → IsBounded a cb h
        → 1 ≤ length hosts
        → (gap a cb h ≡ cb.capacity h.buffer - length (entries a cb h))
          × (1 ≤ accept a cb rng h hosts)
    accept_lem rng hosts h v some_host =
        let b = capacity_bounds h v in
        (
          sub_size_lem _ _ b.0 (omega arith),
          omega (arith, rng.next_bounds 1 (usable a cb h hosts) (omega arith)),
        )

    -- On a running pool within its bounds and for a list that is not empty, the bulk store returns
    -- success, and what it leaves in the buffer is what visiting the chosen addresses, every step-th
    -- of the usable ones, leaves there; nothing else changes.
    pub store_list_lem :
        (rng : Random) (hosts : List Address) (h : Hosts a cb)
        → IsBounded a cb h
        → h.disabled ≡ false
        → h.stopped ≡ false
        → 1 ≤ length hosts
        → store_list a cb rng hosts h
          ≡ some (record h { buffer = visits (chosen rng hosts h) h.buffer }, success)
    unfolding store_list
    store_list_lem rng hosts h v on running some_host =
        let b = capacity_bounds h v in
        let ends =
          store_from_lem (length hosts + 1) (usable a cb h hosts) (step a cb rng h hosts) 0 hosts
            h.buffer (omega arith) (omega arith) (omega arith) (omega arith) in
        ground (arith, ends)

    -- For a pool within its bounds and a list that is not empty, the bulk store looks at least at
    -- as many addresses as the buffer is short of, or else at all that are usable.
    pub length-chosen-ge :
        (rng : Random) (hosts : List Address) (h : Hosts a cb)
        → IsBounded a cb h
        → 1 ≤ length hosts
        → min (usable a cb h hosts) (cb.capacity h.buffer - length (entries a cb h))
          ≤ length (chosen rng hosts h)
    length-chosen-ge rng hosts h v some_host =
        let part : usable a cb h hosts ≡ length (take (usable a cb h hosts) hosts) =
          omega (arith, length-take (usable a cb h hosts) hosts) in
        let all =
          length-stride 0 (step a cb rng h hosts) (take (usable a cb h hosts) hosts)
            (omega arith) in
        let covered =
          steps_cover (usable a cb h hosts) (accept a cb rng h hosts) (length (chosen rng hosts h))
            (omega arith) in
        omega (arith, covered, accept_lem rng hosts h v some_host)
