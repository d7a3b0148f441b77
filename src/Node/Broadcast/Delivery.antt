-- ===== src/Node/Broadcast/Delivery.antt =====
-- Who is told of a broadcast: `broadcast` and `handle_send` of include/bitcoin/network/p2p.hpp and
-- src/p2p.cpp.
use bitprim_network.Base.{
  ℕ, ◌+◌, ◌-◌, ◌≡◌, refl, Bool, true, false, not, Option, none, some, List, [], ◌∷◌, ◌&&◌, ◌==◌,
  any, tail, get_elem?, erase_at, length, length-erase_at, count_by, count_by-erase_at, All, arith,
  any-count_by, count_by-true, if◌then◌else◌,
}
use bitprim_network.Code.{Code, success}
use bitprim_network.Network.{Link, Connections}
use bitprim_network.Network.Library.{Pendings}
use bitprim_network.Sessions.Library.{CountSynchronizers}
use bitprim_network.Node.Broadcast.{
  Broadcasting, BroadcastCall, BroadcastEvent, handles_channel, handles_complete, goes_on, ends,
  broadcast, send_next, join_handler, handle_send, end_send, step, run,
}

-- A call of `handle_channel` for a channel that passes a test.
abbrev pub is_for : {Address : Type 0} → (Link Address → Bool) → BroadcastCall Address → Bool
is_for p (handles_channel ec channel) = p channel
is_for p (handles_complete ec) = false

abbrev pub is_completion : {Address : Type 0} → BroadcastCall Address → Bool
is_completion (handles_channel ec channel) = false
is_completion (handles_complete ec) = true

-- A completion has success.
abbrev pub IsSuccessful : {Address : Type 0} → BroadcastCall Address → Type 0
IsSuccessful (handles_channel ec channel) = Unit
IsSuccessful (handles_complete ec) = ec ≡ success

module _ (join : CountSynchronizers) {Address Message : Type 0} (same : Address → Address → Bool)
    (links : Pendings (Link Address)) where
  -- The message was sent to the channels that the loop has reached, to each as often as it stands in the
  -- collection; `handle_channel` was called as often as the sends to it have ended; `handle_complete` was
  -- called once if there are channels and nothing is left to send or to end, and else never; with success,
  -- and as the last call.
  pub record IsDelivered (channels : List (Link Address)) (message : Message)
      (b : Broadcasting join Address Message) : Type 0 where
    pub same_message : b.message ≡ message
    pub awaited : join.remaining b.joined ≡ length b.todo + length b.sending
    pub reached :
        (p : Link Address → Bool)
        → count_by (λ x. p x.0) b.sent + count_by p b.todo ≡ count_by p channels
    pub messages : All (λ x. x.1 ≡ message) b.sent
    pub handled :
        (p : Link Address → Bool)
        → count_by (is_for p) b.calls + count_by p b.sending + count_by p b.todo
          ≡ count_by p channels
    pub completed :
        count_by is_completion b.calls
        ≡ (if length b.todo + length b.sending == 0 && not (length channels == 0) then 1 else 0)
    pub complete_last : any is_completion (tail b.calls) ≡ false
    pub successful : All IsSuccessful b.calls

  send_next-IsDelivered :
      (channels todo : List (Link Address)) (message : Message)
      (b : Broadcasting join Address Message)
      → b.todo ≡ todo
      → IsDelivered channels message b
      → IsDelivered channels message (send_next join same links todo b)
  unfolding send_next
  send_next-IsDelivered channels [] message b e v = v
  send_next-IsDelivered channels (c ∷ cs) message b e v = record {
    same_message = v.same_message;
    awaited = ground (arith, v.awaited, e);
    reached = λ p. ground (arith, v.reached p, e);
    messages = (v.same_message, v.messages);
    handled = λ p. ground (arith, v.handled p, e);
    completed = ground (arith, v.completed, e);
    complete_last = v.complete_last;
    successful = v.successful;
  }

  join_handler-IsDelivered :
      (channels : List (Link Address)) (message : Message) (i : ℕ) (ec : Code) (c : Link Address)
      (b : Broadcasting join Address Message) (next : join.State) (result : Option Code)
      → get_elem? b.sending i ≡ some c
      → join.remaining next ≡ join.remaining b.joined - 1
      → result ≡ (if join.remaining b.joined == 1 then some success else none)
      → IsDelivered channels message b
      → let told = record b {
        sending = erase_at i b.sending;
        calls = handles_channel ec c ∷ b.calls;
      } in
        IsDelivered channels message (elim result [
          | none ↦ record told { joined = next }
          | some code ↦ record told { joined = next; calls = handles_complete code ∷ told.calls }
        ])
  join_handler-IsDelivered channels message i ec c b next none at m r v =
      let l = length-erase_at i b.sending at in
      record {
        same_message = v.same_message;
        awaited = ground (arith, v.awaited, l);
        reached = v.reached;
        messages = v.messages;
        handled = λ p. ground (arith, v.handled p, count_by-erase_at p i b.sending at);
        completed = ground (arith, v.completed, v.awaited, l);
        complete_last =
            any-count_by is_completion b.calls (ground (arith, v.completed, v.awaited, l));
        successful = (tt, v.successful);
      }
  join_handler-IsDelivered channels message i ec c b next (some code) at m r v =
      let l = length-erase_at i b.sending at in
      let nonempty : (length channels == 0) ≡ false =
        ground (arith, v.handled (λ _. true), count_by-true channels, l, count_by-true b.sending) in
      record {
        same_message = v.same_message;
        awaited = ground (arith, v.awaited, l);
        reached = v.reached;
        messages = v.messages;
        handled = λ p. ground (arith, v.handled p, count_by-erase_at p i b.sending at);
        completed = ground (arith, v.completed, v.awaited, l, nonempty);
        complete_last =
            any-count_by is_completion b.calls (ground (arith, v.completed, v.awaited, l));
        successful = (ground arith, (tt, v.successful));
      }

  end_send-IsDelivered :
      (channels : List (Link Address)) (message : Message) (i : ℕ) (ec : Code)
      (at : Option (Link Address)) (b : Broadcasting join Address Message)
      → get_elem? b.sending i ≡ at
      → IsDelivered channels message b
      → IsDelivered channels message (end_send join same links at i ec b)
  unfolding end_send handle_send join_handler
  end_send-IsDelivered channels message i ec none b e v = v
  end_send-IsDelivered channels message i ec (some c) b e v =
      let l = join.call_lem ec b.joined in
      let (next, result) = join.call ec b.joined in
      join_handler-IsDelivered channels message i ec c b next result e l.0 l.1 v

  step-IsDelivered :
      (channels : List (Link Address)) (message : Message) (e : BroadcastEvent)
      (b : Broadcasting join Address Message)
      → IsDelivered channels message b
      → IsDelivered channels message (step join same links e b)
  unfolding step
  step-IsDelivered channels message goes_on b v =
      send_next-IsDelivered channels b.todo message b refl v
  step-IsDelivered channels message (ends i ec) b v =
      end_send-IsDelivered channels message i ec (get_elem? b.sending i) b refl v

  run-IsDelivered :
      (channels : List (Link Address)) (message : Message) (es : List BroadcastEvent)
      (b : Broadcasting join Address Message)
      → IsDelivered channels message b
      → IsDelivered channels message (run join same links es b)
  unfolding run
  run-IsDelivered channels message [] b v = v
  run-IsDelivered channels message (e ∷ es) b v =
      run-IsDelivered channels message es _ (step-IsDelivered channels message e b v)

  -- After any events of a broadcast: the message was sent to the channels that the loop has reached, of
  -- those that were open when it began; `handle_channel` was called for each of them whose send has ended,
  -- once for each send; and `handle_complete` was called once, with success and as the last call of all,
  -- if there were channels and each send has ended, and never if a send is left or if there were none.
  pub run-broadcast-IsDelivered :
      (message : Message) (es : List BroadcastEvent) (n : Connections same links)
      → IsDelivered
          (links.elements n.pending_close)
          message
          (run join same links es (broadcast join same links message n))
  unfolding broadcast
  run-broadcast-IsDelivered message es n =
      let channels = links.elements n.pending_close in
      run-IsDelivered channels message es _ (record {
        same_message = refl;
        awaited = ground (arith, join.synchronize_lem (length channels));
        reached = λ p. omega arith;
        messages = tt;
        handled = λ p. omega arith;
        completed = ground arith;
        complete_last = refl;
        successful = tt;
      })
