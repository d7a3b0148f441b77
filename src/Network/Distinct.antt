-- ===== src/Network/Distinct.antt =====
-- No two open connections go to one address: src/p2p.cpp, `store` and `remove`.
use bitprim_network.Base.{
  ◌≡◌, Bool, false, not, List, [], ◌∷◌, ◌++◌, ◌&&◌, any, keep, All, All-append, if-both,
  if◌then◌else◌, arith,
}
use bitprim_network.Code.{success, address_in_use}
use bitprim_network.Network.Library.{Pendings}
use bitprim_network.Network.{Link, Connections, store, remove, pend, unpend, connected}

-- A call that changes the open connections or those that shake hands.
pub data Call (Address : Type 0) : Type 0 where
  stores : Link Address → Call Address
  removes : Link Address → Call Address
  pends : Link Address → Call Address
  unpends : Link Address → Call Address

module _ {Address : Type 0} (same : Address → Address → Bool)
    (links : Pendings (Link Address)) where
  unfoldable pub after : Call Address → Connections same links → Connections same links
  after (stores c) n = (store same links c n).0
  after (removes c) n = remove same links c n
  after (pends c) n = (pend same links c n).0
  after (unpends c) n = unpend same links c n

  unfoldable pub run : List (Call Address) → Connections same links → Connections same links
  run [] n = n
  run (c ∷ cs) n = run cs (after c n)

  -- No link of the list goes to this address.
  abbrev pub IsFree : Address → List (Link Address) → Type 0
  IsFree address xs = All (λ x. same x.authority address ≡ false) xs

  -- No link goes to the address of an earlier one.
  abbrev pub IsDistinct : List (Link Address) → Type 0
  IsDistinct [] = Unit
  IsDistinct (x ∷ xs) = All (λ y. same x.authority y.authority ≡ false) xs × IsDistinct xs

  any-IsFree :
      (address : Address) (xs : List (Link Address))
      → any (λ x. same x.authority address) xs ≡ false
      → IsFree address xs
  any-IsFree address [] e = tt
  any-IsFree address (x ∷ xs) e = ground (arith, any-IsFree address xs)

  IsDistinct-append :
      (xs : List (Link Address)) (c : Link Address)
      → IsFree c.authority xs
      → IsDistinct xs
      → IsDistinct (xs ++ c ∷ [])
  IsDistinct-append [] c f d = (tt, tt)
  IsDistinct-append (x ∷ xs) c f d = (
    All-append (λ y. same x.authority y.authority ≡ false) xs (c ∷ []) d.0 (f.0, tt),
    IsDistinct-append xs c f.1 d.1,
  )

  All-keep :
      (P : Link Address → Type 0) (p : Link Address → Bool) (xs : List (Link Address))
      → All P xs
      → All P (keep p xs)
  All-keep P p [] v = tt
  All-keep P p (x ∷ xs) (v, w) =
      if-both (All P) (p x) (λ _. (v, All-keep P p xs w)) (λ _. All-keep P p xs w)

  IsDistinct-keep :
      (p : Link Address → Bool) (xs : List (Link Address)) → IsDistinct xs → IsDistinct (keep p xs)
  IsDistinct-keep p [] v = tt
  IsDistinct-keep p (x ∷ xs) (v, w) =
      if-both IsDistinct (p x) (λ _. (All-keep _ p xs v, IsDistinct-keep p xs w))
        (λ _. IsDistinct-keep p xs w)

  abbrev pub opened : Connections same links → List (Link Address)
  opened n = links.elements n.pending_close

  after-IsDistinct :
      (c : Call Address) (n : Connections same links)
      → IsDistinct (opened n)
      → IsDistinct (opened (after c n))
  unfolding after store remove pend unpend
  after-IsDistinct (stores c) n v =
      let l =
        links.store_unless_lem (λ element. same element.authority c.authority) c n.pending_close in
      let e : opened (store same links c n).0 ≡ (
          if links.is_stopped n.pending_close
          then opened n
          else if any (λ element. same element.authority c.authority) (opened n)
          then opened n
          else opened n ++ c ∷ []) =
        ground (arith, l) in
      rw e (
        if-both IsDistinct (links.is_stopped n.pending_close) (λ _. v)
          (λ _.
            if-both IsDistinct (any (λ element. same element.authority c.authority) (opened n))
              (λ _. v)
              (λ unused.
                IsDistinct-append (opened n) c (any-IsFree c.authority (opened n) unused) v)))
  after-IsDistinct (removes c) n v =
      rw ((links.remove_lem c n.pending_close).1) (IsDistinct-keep _ (opened n) v)
  after-IsDistinct (pends c) n v = v
  after-IsDistinct (unpends c) n v = v

  -- If no two open connections go to the same address, then none do after any channels are stored,
  -- removed, pended and unpended, in whatever order.
  pub opened-run-IsDistinct :
      (cs : List (Call Address)) (n : Connections same links)
      → IsDistinct (opened n)
      → IsDistinct (opened (run cs n))
  unfolding run
  opened-run-IsDistinct [] n v = v
  opened-run-IsDistinct (c ∷ cs) n v = opened-run-IsDistinct cs (after c n) (after-IsDistinct c n v)

  -- On a node that has not stopped, a channel is stored unless its address is connected: it is then
  -- refused, and no connection and no announcement is made.
  pub store-connected :
      (c : Link Address) (n : Connections same links)
      → links.is_stopped n.pending_close ≡ false
      → let (m, ec) = store same links c n in
        (ec ≡ (if connected same links c.authority n then address_in_use else success))
        × (opened m ≡ (if connected same links c.authority n then opened n else opened n ++ c ∷ []))
        × (m.announced ≡ (
            if not (connected same links c.authority n) && c.notify
            then c ∷ n.announced
            else n.announced))
  unfolding store connected
  store-connected c n running =
      let l =
        links.store_unless_lem (λ element. same element.authority c.authority) c n.pending_close in
      let x = links.exists_lem (λ element. same element.authority c.authority) n.pending_close in
      ground (arith, l, x)
