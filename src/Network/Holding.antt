-- ===== src/Network/Holding.antt =====
-- What the calls of the node make of the pointers that its collections hold: src/p2p.cpp, `pend`, `unpend`,
-- `store` and `remove`.
use bitprim_network.Base.{
  ℕ, ◌≡◌, Bool, false, not, List, [], ◌∷◌, ◌++◌, ◌==◌, ◌||◌, any, keep, arith, if◌then◌else◌,
}
use bitprim_network.Code.{is_error}
use bitprim_network.Network.{Link, Connections, pend, unpend, store, remove}
use bitprim_network.Network.Library.{Pendings}

-- Whether the list has a link with this pointer.
abbrev pub has : {Address : Type 0} → ℕ → List (Link Address) → Bool
has pointer xs = any (λ x. x.pointer == pointer) xs

module _ {Address : Type 0} (pointer : ℕ) where
  pub has-append :
      (xs : List (Link Address)) (c : Link Address)
      → has pointer (xs ++ c ∷ []) ≡ (has pointer xs || (c.pointer == pointer))
  has-append [] c = ground arith
  has-append (x ∷ xs) c = ground (arith, has-append xs c)

module _ {Address : Type 0} (same : Address → Address → Bool) (links : Pendings (Link Address))
    (pointer : ℕ) where
  -- Whether a channel with the pointer is pending, or open.
  abbrev pub pending_has : Connections same links → Bool
  pending_has n = has pointer (links.elements n.pending_handshake)

  abbrev pub opened_has : Connections same links → Bool
  opened_has n = has pointer (links.elements n.pending_close)

module _ {Address : Type 0} (same : Address → Address → Bool) (links : Pendings (Link Address))
    (is_same_pointer : (c d : Link Address) → links.is_same c d ≡ (c.pointer == d.pointer))
    (pointer : ℕ) where
  has-keep :
      (c : Link Address) (xs : List (Link Address))
      → has pointer (keep (λ x. not (links.is_same x c)) xs)
        ≡ (if c.pointer == pointer then false else has pointer xs)
  has-keep c [] = ground arith
  has-keep c (x ∷ xs) = ground (arith, has-keep c xs, is_same_pointer x c)

  -- A channel that is unpended is not pending any more, and the open ones stay.
  pub unpend-has :
      (c : Link Address) (n : Connections same links)
      → let m = unpend same links c n in
        (pending_has same links pointer m
          ≡ (if c.pointer == pointer then false else pending_has same links pointer n))
        × (opened_has same links pointer m ≡ opened_has same links pointer n)
  unfolding unpend
  unpend-has c n = ground (
    arith,
    links.remove_lem c n.pending_handshake,
    has-keep c (links.elements n.pending_handshake),
  )

  -- A channel that is pended is pending, unless the node has stopped.
  pub pend-has :
      (c : Link Address) (n : Connections same links)
      → let m = (pend same links c n).0 in
        (pending_has same links pointer m ≡ (
          if links.is_stopped n.pending_handshake
          then pending_has same links pointer n
          else pending_has same links pointer n || (c.pointer == pointer)))
        × (opened_has same links pointer m ≡ opened_has same links pointer n)
  unfolding pend
  pend-has c n = ground (
    arith,
    links.store_lem c n.pending_handshake,
    has-append pointer (links.elements n.pending_handshake) c,
  )

  -- A channel that is stored without an error is open; with an error, nothing changes.
  pub store-has :
      (c : Link Address) (n : Connections same links)
      → let (m, ec) = store same links c n in
        (pending_has same links pointer m ≡ pending_has same links pointer n)
        × (opened_has same links pointer m ≡ (
            if is_error ec
            then opened_has same links pointer n
            else opened_has same links pointer n || (c.pointer == pointer)))
  unfolding store
  store-has c n = ground (
    arith,
    links.store_unless_lem (λ element. same element.authority c.authority) c n.pending_close,
    has-append pointer (links.elements n.pending_close) c,
  )

  -- A channel that is removed is not open any more, and the pending ones stay.
  pub remove-has :
      (c : Link Address) (n : Connections same links)
      → let m = remove same links c n in
        (pending_has same links pointer m ≡ pending_has same links pointer n)
        × (opened_has same links pointer m
            ≡ (if c.pointer == pointer then false else opened_has same links pointer n))
  unfolding remove
  remove-has c n =
      ground
        (arith, links.remove_lem c n.pending_close, has-keep c (links.elements n.pending_close))
