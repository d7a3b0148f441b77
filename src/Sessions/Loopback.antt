-- ===== src/Sessions/Loopback.antt =====
-- A node does not keep a connection to itself: src/sessions/session_outbound.cpp and
-- src/sessions/session_inbound.cpp over the pending channels of src/p2p.cpp.
use bitprim_network.Base.{
  ℕ, ◌≡◌, refl, Bool, true, false, not, List, [], ◌∷◌, ◌++◌, ◌==◌, ◌||◌, any, keep, All, ◌&&◌, ◌∙◌,
  arith,
}
use bitprim_network.Code.{Code, success, accept_failed, is_error}
use bitprim_network.Network.{Link, Connections, pend, unpend, store, remove, pending, set_nonce}
use bitprim_network.Network.Library.{Pendings}
use bitprim_network.Sessions
use bitprim_network.Sessions.{Session, SessionSettings, handle_starting}
use bitprim_network.Sessions.Outbound
use bitprim_network.Sessions.Outbound.{Services}
use bitprim_network.Sessions.Inbound

-- What else can happen to the connections of the node in the meantime.
pub data NetworkCall (Address : Type 0) : Type 0 where
  stores removes pends unpends : Link Address → NetworkCall Address
  sets_nonce : ℕ → ℕ → NetworkCall Address

module _ {Address : Type 0} (same : Address → Address → Bool)
    (links : Pendings (Link Address)) where
  unfoldable pub after : NetworkCall Address → Connections same links → Connections same links
  after (stores c) n = (store same links c n).0
  after (removes c) n = remove same links c n
  after (pends c) n = (pend same links c n).0
  after (unpends c) n = unpend same links c n
  after (sets_nonce p v) n = set_nonce same links p v n

  unfoldable pub run : List (NetworkCall Address) → Connections same links → Connections same links
  run [] n = n
  run (c ∷ cs) n = run cs (after c n)

  -- The call neither takes the channel off the pending ones nor changes its nonce.
  abbrev pub Leaves : Link Address → NetworkCall Address → Type 0
  Leaves c (unpends d) = links.is_same c d ≡ false
  Leaves c (sets_nonce p v) = (c.pointer == p) ≡ false
  Leaves c _ = Unit

  -- The channel is pending, with this nonce.
  record IsPending (c : Link Address) (nonce : ℕ) (n : Connections same links) : Type 0 where
    listed :
        (p : Link Address → Bool) → p c ≡ true → any p (links.elements n.pending_handshake) ≡ true
    named : n.nonces c.pointer ≡ nonce

  any-append :
      (p : Link Address → Bool) (xs ys : List (Link Address))
      → any p (xs ++ ys) ≡ (any p xs || any p ys)
  any-append p [] ys = refl
  any-append p (x ∷ xs) ys = ground (arith, any-append p xs ys)

  -- What is kept of a list still holds an element that passes both tests.
  any-keep :
      (p q : Link Address → Bool) (xs : List (Link Address))
      → any p (keep q xs) ≡ any (λ x. q x && p x) xs
  any-keep p q [] = refl
  any-keep p q (x ∷ xs) = ground (arith, any-keep p q xs)

  after-IsPending :
      (c : Link Address) (nonce : ℕ) (call : NetworkCall Address) (n : Connections same links)
      → Leaves c call
      → IsPending c nonce n
      → IsPending c nonce (after call n)
  unfolding after store remove pend unpend set_nonce
  after-IsPending c nonce (stores d) n l v = record {
    listed = λ p h. ground (arith, v.listed p h);
    named = ground (arith, v.named);
  }
  after-IsPending c nonce (removes d) n l v = record { listed = v.listed; named = v.named }
  after-IsPending c nonce (pends d) n l v = record {
    listed = λ p h. ground (
      arith,
      links.store_lem d n.pending_handshake,
      v.listed p h,
      any-append p (links.elements n.pending_handshake) (d ∷ []),
    );
    named = v.named;
  }
  after-IsPending c nonce (unpends d) n l v = record {
    listed = λ p h. ground (
      arith,
      links.remove_lem d n.pending_handshake,
      any-keep p (λ x. not (links.is_same x d)) (links.elements n.pending_handshake),
      v.listed (λ x. not (links.is_same x d) && p x) (ground arith),
    );
    named = v.named;
  }
  after-IsPending c nonce (sets_nonce p v') n l v = record {
    listed = v.listed;
    named = ground (arith, v.named);
  }

  run-IsPending :
      (c : Link Address) (nonce : ℕ) (cs : List (NetworkCall Address)) (n : Connections same links)
      → All (Leaves c) cs
      → IsPending c nonce n
      → IsPending c nonce (run cs n)
  unfolding run
  run-IsPending c nonce [] n l v = v
  run-IsPending c nonce (call ∷ cs) n l v =
      run-IsPending c nonce cs (after call n) l.1 (after-IsPending c nonce call n l.0 v)

  module _ (ip : Address → ℕ) (services : Services) (settings : SessionSettings Address) where
    start_channel-IsPending :
        (nonce version : ℕ) (c : Link Address) (s : Session same links)
        → links.is_stopped s.network.pending_handshake ≡ false
        → IsPending c nonce
            (Outbound.start_channel same links services settings success nonce version c s).network
    unfolding Outbound.start_channel Outbound.attach_handshake_protocols Sessions.start_channel
        handle_starting pend set_nonce
    start_channel-IsPending nonce version c s running =
        let l = links.store_lem c s.network.pending_handshake in
        let ok : is_error (links.store c s.network.pending_handshake).1 ≡ false =
          ground (arith, l) in
        rw ok (record {
          listed = λ p h.
              ground (arith, l, any-append p (links.elements s.network.pending_handshake) (c ∷ []));
          named = ground arith;
        })

    -- From the start of an outbound channel on, whatever is stored, removed, pended and named, until the
    -- channel is taken off the pending ones or its nonce changes: an inbound channel whose peer names
    -- that nonce in its version message, which is the other end of the outbound channel, is refused, and
    -- nothing else happens.
    pub handshake_complete-loopback :
        (nonce version : ℕ) (c d : Link Address) (s t : Session same links)
        (calls : List (NetworkCall Address))
        (handle_started : Code → Session same links → Session same links)
        → links.is_stopped s.network.pending_handshake ≡ false
        → All (Leaves c) calls
        → t.network
          ≡ run calls
              (Outbound.start_channel same links services settings success nonce version c
                s).network
        → Inbound.handshake_complete ip same links settings handle_started nonce d t
          ≡ handle_started accept_failed t
    unfolding Inbound.handshake_complete pending
    handshake_complete-loopback nonce version c d s t calls handle_started running leaves later =
        let began = start_channel-IsPending nonce version c s running in
        let v : IsPending c nonce t.network =
          rw later (run-IsPending c nonce calls _ leaves began) in
        let found = v.listed (λ e. t.network.nonces e.pointer == nonce) (ground (arith, v.named)) in
        let l =
          links.exists_lem (λ e. t.network.nonces e.pointer == nonce) t.network.pending_handshake in
        rw (l ∙ found)
