-- ===== src/Network.antt =====
-- The node: src/p2p.cpp, of which the collection of open connections and the start sequence are here.
pub mod Library
pub mod Plain
pub mod Distinct
pub mod Holding
mod Examples
use bitprim_network.Base.{ℕ, Bool, true, false, not, List, ◌∷◌, ◌&&◌, ◌==◌, if◌then◌else◌}
use bitprim_network.Code.{Code, success, is_error}
use bitprim_network.Network.Library.{Pendings}

-- A shared pointer to a channel, by a number, with what the node reads of the channel once it is
-- registered: its address, and whether it is to be announced. The nonce is set while the channel is
-- pending, so it is looked up by the pointer.
pub record Link (Address : Type 0) : Type 0 where
  pub pointer : ℕ
  pub authority : Address
  pub notify : Bool

module _ {Address : Type 0} (same : Address → Address → Bool)
    (links : Pendings (Link Address)) where
  -- The fields that the handling of channels changes; `announced` are the channels that the
  -- subscribers to connections were told of, the latest first, and `nonces` the nonces of the channels
  -- by their pointers.
  pub record Connections : Type 0 where
    pub pending_handshake : links.State
    pub pending_close : links.State
    pub announced : List (Link Address)
    pub nonces : ℕ → ℕ

  -- `p2p::pend(channel::ptr)`
  unfoldable pub pend : Link Address → Connections → Connections × Code
  pend channel n =
      let (next, ec) = links.store channel n.pending_handshake in
      (record n { pending_handshake = next }, ec)

  -- `p2p::unpend(channel::ptr)`
  unfoldable pub unpend : Link Address → Connections → Connections
  unpend channel n = record n { pending_handshake = links.remove channel n.pending_handshake }

  -- `p2p::pending(uint64_t)`
  unfoldable pub pending : ℕ → Connections → Bool
  pending version_nonce n =
      links.exists (λ element. n.nonces element.pointer == version_nonce) n.pending_handshake

  -- `channel::set_nonce`, on the channel that a pointer shares.
  unfoldable pub set_nonce : ℕ → ℕ → Connections → Connections
  set_nonce pointer nonce n = record n { nonces = λ p. if p == pointer then nonce else n.nonces p }

  -- `p2p::connection_count`
  unfoldable pub connection_count : Connections → ℕ
  connection_count n = links.size n.pending_close

  -- `p2p::connected`
  unfoldable pub connected : Address → Connections → Bool
  connected address n = links.exists (λ element. same element.authority address) n.pending_close

  -- `p2p::store(channel::ptr)`
  unfoldable pub store : Link Address → Connections → Connections × Code
  store channel n =
      let (next, ec) =
        links.store_unless (λ element. same element.authority channel.authority) channel
          n.pending_close in
      let stored = record n { pending_close = next } in
      if not (is_error ec) && channel.notify
      then (record stored { announced = channel ∷ stored.announced }, ec)
      else (stored, ec)

  -- `p2p::remove(channel::ptr)`
  unfoldable pub remove : Link Address → Connections → Connections
  remove channel n = record n { pending_close = links.remove channel n.pending_close }
