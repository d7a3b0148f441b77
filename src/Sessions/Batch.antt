-- ===== src/Sessions/Batch.antt =====
-- The connections of a batch: src/sessions/session_batch.cpp.
--
-- A connector is seen by its number. `waiting` are the connectors whose connection has not ended:
-- each ends later, with one call of `handle_connect`.
pub mod Joining
use bitprim_network.Base.{
  ℕ, zero, suc, ◌+◌, Bool, true, false, Option, none, some, List, [], ◌∷◌, ◌++◌, ◌||◌, max,
  get_elem?, erase_at, if◌then◌else◌,
}
use bitprim_network.Code.{
  Code, success, service_stopped, channel_stopped, address_blocked, is_error, is_service_stopped,
}
use bitprim_network.Sessions.{blacklisted}
use bitprim_network.Sessions.Library.{SuccessSynchronizers}

-- `session_batch::session_batch`: the size of a batch, of `settings::connect_batch_size`.
unfoldable pub batch_size : ℕ → ℕ
batch_size connect_batch_size = max connect_batch_size 1

-- One batch of the session: the connectors made, pended and unpended, the synchronizer of its join handler,
-- and the calls of the handler of `connect`, the latest first, with the channel if one comes along.
pub record Batch (join : SuccessSynchronizers) (Channel : Type 0) : Type 0 where
  pub stopped : Bool
  pub made : ℕ
  pub joined : join.State
  pub pended : List ℕ
  pub unpended : List ℕ
  pub waiting : List ℕ
  pub calls : List (Code × Option Channel)

-- What can happen to a batch: the connection of the connector at an index ends with a code and, where that
-- is success, a channel; or the session stops.
pub data BatchEvent (Channel : Type 0) : Type 0 where
  ends : ℕ → Code → Channel → BatchEvent Channel
  halts : BatchEvent Channel

module _ (join : SuccessSynchronizers) {Channel Address : Type 0} (ip : Address → ℕ)
    (blacklists : List Address) where
  -- What a call of the join handler comes to: a call of the handler, or none.
  unfoldable pub join_handler : Code → Option Channel → Batch join Channel → Batch join Channel
  join_handler ec channel b =
      let (next, result) = join.call ec b.joined in
      elim result [
        | none ↦ record b { joined = next }
        | some code ↦ record b { joined = next; calls = (code, channel) ∷ b.calls }
      ]

  -- `session_batch::start_connect`
  unfoldable pub start_connect : Code → Address → Batch join Channel → Batch join Channel
  start_connect ec host b =
      if b.stopped || is_service_stopped ec
      then join_handler service_stopped none b
      else if is_error ec
      then join_handler ec none b
      else if blacklisted ip blacklists host
      then join_handler address_blocked none b
      else record b {
        made = b.made + 1;
        pended = b.made ∷ b.pended;
        waiting = b.waiting ++ b.made ∷ [];
      }

  -- `session_batch::new_connect`, with what `fetch_address` returns.
  unfoldable pub new_connect : Code × Address → Batch join Channel → Batch join Channel
  new_connect (ec, address) b =
      if b.stopped then join_handler channel_stopped none b else start_connect ec address b

  -- The loop of `session_batch::connect` over that many hosts, with what each fetch returns.
  unfoldable pub new_connects : ℕ → (ℕ → Code × Address) → Batch join Channel → Batch join Channel
  new_connects zero fetch b = b
  new_connects (suc n) fetch b = new_connects n fetch (new_connect (fetch n) b)

  -- `session_batch::connect`, by whether the session has stopped.
  unfoldable pub connect : ℕ → (ℕ → Code × Address) → Bool → Batch join Channel
  connect connect_batch_size fetch stopped =
      new_connects (batch_size connect_batch_size) fetch (record {
        stopped = stopped;
        made = 0;
        joined = join.synchronize (batch_size connect_batch_size);
        pended = [];
        unpended = [];
        waiting = [];
        calls = [];
      })

  -- `session_batch::handle_connect`
  unfoldable pub handle_connect : Code → Channel → ℕ → Batch join Channel → Batch join Channel
  handle_connect ec channel connector b =
      let freed = record b { unpended = connector ∷ b.unpended } in
      if is_error ec then join_handler ec none freed else join_handler success (some channel) freed

  unfoldable pub end_connect :
      Option ℕ → ℕ → Code → Channel → Batch join Channel → Batch join Channel
  end_connect none i ec channel b = b
  end_connect (some connector) i ec channel b =
      handle_connect ec channel connector (record b { waiting = erase_at i b.waiting })

  unfoldable pub step : BatchEvent Channel → Batch join Channel → Batch join Channel
  unfolding end_connect
  step (ends i ec channel) b = end_connect (get_elem? b.waiting i) i ec channel b
  step halts b = record b { stopped = true }

  unfoldable pub run : List (BatchEvent Channel) → Batch join Channel → Batch join Channel
  run [] b = b
  run (e ∷ es) b = run es (step e b)
