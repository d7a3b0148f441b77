-- ===== src/Channel/Sending.antt =====
-- The messages that a channel sends: src/proxy.cpp and include/bitcoin/network/proxy.hpp.
pub mod Order
use bitprim_network.Base.{ℕ, Option, none, some, List, [], ◌∷◌, ◌++◌}
use bitprim_network.Code.{Code}
use bitprim_network.Library.{Subscribers}
use bitprim_network.Messages.{Notice}
use bitprim_network.Channel.{Channel}
use bitprim_network.Channel.Library.{Sequencers}
use bitprim_network.Channel.Proxy
use bitprim_network.Channel.Proxy.{Wire, BoostCode}
use bitprim_network.Channel.Events
use bitprim_network.Channel.Events.{Event}

-- A message that is sent, its bytes, and the handler of the sender.
pub record Job (Outgoing Teller : Type 0) : Type 0 where
  pub message : Outgoing
  pub payload : List ℕ
  pub teller : Teller

-- What can happen: a message is sent; the write that waits ends with a code; or something else happens to
-- the channel.
pub data SendEvent (Outgoing Teller Handler Waiter : Type 0) : Type 0 where
  sends : Outgoing → Teller → SendEvent Outgoing Teller Handler Waiter
  write_ends : BoostCode → SendEvent Outgoing Teller Handler Waiter
  goes_on : Event Handler Waiter → SendEvent Outgoing Teller Handler Waiter

module _ {Message Handler Waiter Outgoing Teller : Type 0}
    (sub : Subscribers Handler (Notice Message)) (stops : Subscribers Waiter Code)
    (wire : Wire Message) (serialize : ℕ → Outgoing → ℕ → List ℕ)
    (sequencer : Sequencers (Job Outgoing Teller)) where
  -- The channel; its dispatcher's sequencer; the writes that the socket has not ended, the first first; all
  -- writes that were begun; and the calls of the senders' handlers, the earliest first.
  pub record Sending : Type 0 where
    pub channel : Channel sub stops
    pub sequence : sequencer.State
    pub writing : List (Job Outgoing Teller)
    pub written : List (Job Outgoing Teller)
    pub calls : List (Teller × Code)

  -- `proxy::do_send`
  unfoldable pub do_send : Job Outgoing Teller → Sending → Sending
  do_send job s = record s { writing = s.writing ++ job ∷ []; written = s.written ++ job ∷ [] }

  -- The action that the dispatcher runs, if there is one.
  abbrev pub begin : Option (Job Outgoing Teller) → Sending → Sending
  begin none s = s
  begin (some job) s = do_send job s

  -- `proxy::send`
  unfoldable pub send : Outgoing → Teller → Sending → Sending
  send message handler s =
      let job : Job Outgoing Teller = record {
        message = message;
        payload = serialize s.channel.version message s.channel.protocol_magic;
        teller = handler;
      } in
      let (next, now) = sequencer.lock job s.sequence in begin now (record s { sequence = next })

  -- `proxy::handle_send`, which unlocks the dispatcher.
  unfoldable pub handle_send : BoostCode → Job Outgoing Teller → Sending → Sending
  handle_send ec job s =
      let (next, now) = sequencer.unlock s.sequence in
      let (channel, error) = Proxy.handle_send sub stops wire ec s.channel in
      begin now (record s {
        sequence = next;
        channel = channel;
        calls = s.calls ++ (job.teller, error) ∷ [];
      })

  unfoldable pub end_write : BoostCode → List (Job Outgoing Teller) → Sending → Sending
  end_write ec [] s = s
  end_write ec (job ∷ rest) s = handle_send ec job (record s { writing = rest })

  unfoldable pub step : SendEvent Outgoing Teller Handler Waiter → Sending → Sending
  unfolding end_write
  step (sends message handler) s = send message handler s
  step (write_ends ec) s = end_write ec s.writing s
  step (goes_on e) s = record s { channel = Events.step sub stops wire e s.channel }

  unfoldable pub run : List (SendEvent Outgoing Teller Handler Waiter) → Sending → Sending
  run [] s = s
  run (e ∷ es) s = run es (step e s)
