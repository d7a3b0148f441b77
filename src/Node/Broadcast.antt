-- ===== src/Node/Broadcast.antt =====
-- A message to all open connections: `broadcast` and `handle_send` of include/bitcoin/network/p2p.hpp and
-- src/p2p.cpp.
--
-- The sends end on other threads, each once and in any order, also while the loop over the channels goes
-- on: each turn of the loop is an event of its own, and so is each end.
pub mod Delivery
use bitprim_network.Base.{
  ℕ, Bool, true, false, Option, none, some, List, [], ◌∷◌, get_elem?, erase_at, length,
}
use bitprim_network.Code.{Code}
use bitprim_network.Network.{Link, Connections}
use bitprim_network.Network.Library.{Pendings}
use bitprim_network.Sessions.Library.{CountSynchronizers}

-- A call of `handle_channel`, with the channel, or of `handle_complete`.
pub data BroadcastCall (Address : Type 0) : Type 0 where
  handles_channel : Code → Link Address → BroadcastCall Address
  handles_complete : Code → BroadcastCall Address

-- What can happen: the loop takes its next turn, or the send at an index ends with a code.
pub data BroadcastEvent : Type 0 where
  goes_on : BroadcastEvent
  ends : ℕ → Code → BroadcastEvent

-- One broadcast of a message: the channels that the loop has not reached, those whose send has not ended,
-- what was sent and the calls of the two handlers, the latest first.
pub record Broadcasting (join : CountSynchronizers) (Address Message : Type 0) : Type 0 where
  pub message : Message
  pub joined : join.State
  pub todo : List (Link Address)
  pub sending : List (Link Address)
  pub sent : List (Link Address × Message)
  pub calls : List (BroadcastCall Address)

module _ (join : CountSynchronizers) {Address Message : Type 0} (same : Address → Address → Bool)
    (links : Pendings (Link Address)) where
  -- `p2p::broadcast`, up to its loop.
  unfoldable pub broadcast : Message → Connections same links → Broadcasting join Address Message
  broadcast message n =
      let channels = links.elements n.pending_close in
      record {
        message = message;
        joined = join.synchronize (length channels);
        todo = channels;
        sending = [];
        sent = [];
        calls = [];
      }

  -- The body of the loop of `p2p::broadcast`.
  unfoldable pub send_next :
      List (Link Address) → Broadcasting join Address Message → Broadcasting join Address Message
  send_next [] b = b
  send_next (channel ∷ channels) b = record b {
    todo = channels;
    sending = channel ∷ b.sending;
    sent = (channel, b.message) ∷ b.sent;
  }

  -- A call of the join handler, which calls `handle_complete` at the last.
  unfoldable pub join_handler :
      Code → Broadcasting join Address Message → Broadcasting join Address Message
  join_handler ec b =
      let (next, result) = join.call ec b.joined in
      elim result [
        | none ↦ record b { joined = next }
        | some code ↦ record b { joined = next; calls = handles_complete code ∷ b.calls }
      ]

  -- `p2p::handle_send`
  unfoldable pub handle_send :
      Code → Link Address → Broadcasting join Address Message → Broadcasting join Address Message
  unfolding join_handler
  handle_send ec channel b =
      join_handler ec (record b { calls = handles_channel ec channel ∷ b.calls })

  unfoldable pub end_send :
      Option (Link Address)
      → ℕ
      → Code
      → Broadcasting join Address Message
      → Broadcasting join Address Message
  unfolding handle_send
  end_send none i ec b = b
  end_send (some channel) i ec b =
      handle_send ec channel (record b { sending = erase_at i b.sending })

  unfoldable pub step :
      BroadcastEvent → Broadcasting join Address Message → Broadcasting join Address Message
  unfolding send_next end_send
  step goes_on b = send_next b.todo b
  step (ends i ec) b = end_send (get_elem? b.sending i) i ec b

  unfoldable pub run :
      List BroadcastEvent → Broadcasting join Address Message → Broadcasting join Address Message
  run [] b = b
  run (e ∷ es) b = run es (step e b)
