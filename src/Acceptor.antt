-- ===== src/Acceptor.antt =====
-- An acceptor: src/acceptor.cpp. The socket that it listens on is seen by the codes that it returns, and by
-- the handlers that wait on it.
pub mod Answers
mod Examples
use bitprim_network.Base.{
  ℕ, ◌+◌, Bool, true, false, not, Option, none, some, List, [], ◌∷◌, ◌==◌, get_elem?, erase_at,
  if◌then◌else◌,
}
use bitprim_network.Code.{Code, success, service_stopped, operation_failed}
use bitprim_network.Channel.Proxy.{BoostCode}

-- A handler that is called later: by the socket that accepts, or by the dispatcher since the acceptor has
-- stopped.
pub data AcceptorWait (Handler : Type 0) : Type 0 where
  accepting : Handler → AcceptorWait Handler
  refused : Handler → AcceptorWait Handler

-- What the steps of opening the socket return: open, set_option, bind and listen.
pub record Opening : Type 0 where
  pub opened : BoostCode
  pub option_set : BoostCode
  pub bound : BoostCode
  pub listened : BoostCode

-- What can happen to an acceptor: it listens, is given a handler, is stopped; a wait ends with a code.
pub data AcceptorEvent (Handler : Type 0) : Type 0 where
  listens : ℕ → Opening → AcceptorEvent Handler
  accepts : Handler → AcceptorEvent Handler
  halts : Code → AcceptorEvent Handler
  ends : ℕ → BoostCode → AcceptorEvent Handler

-- `endpoint` is what the socket was opened for at last: whether for IPv6, and the port. `cancels` counts the
-- cancellations of the socket. `calls` are the calls of handlers, the latest first: the code, and whether
-- a channel comes along.
pub record Acceptor (Handler : Type 0) : Type 0 where
  pub stopped : Bool
  pub endpoint : Option (Bool × ℕ)
  pub cancels : ℕ
  pub waits : List (AcceptorWait Handler)
  pub calls : List (Handler × Code × Bool)

-- The first error of an opening: each step is made if those before it made none.
unfoldable pub first_error : Opening → BoostCode
first_error o =
    if not (o.opened == 0)
    then o.opened
    else if not (o.option_set == 0)
    then o.option_set
    else if not (o.bound == 0)
    then o.bound
    else o.listened

-- The parameters are `settings::use_ipv6` and `settings::inbound_port`.
module _ {Handler : Type 0} (boost_to_error_code : BoostCode → Code) (use_ipv6 : Bool)
    (inbound_port : ℕ) where
  -- `acceptor::acceptor`
  unfoldable pub construct : Acceptor Handler
  construct = record { stopped = true; endpoint = none; cancels = 0; waits = []; calls = [] }

  -- `acceptor::stop`. The socket calls the handler of a pending accept later, cancelled.
  unfoldable pub stop : Code → Acceptor Handler → Acceptor Handler
  stop ec s = if not s.stopped then record s { cancels = s.cancels + 1; stopped = true } else s

  -- `acceptor::listen`
  unfoldable pub listen : ℕ → Opening → Acceptor Handler → Acceptor Handler × Code
  unfolding first_error
  listen port o s = if not s.stopped then (s, operation_failed) else (
    record s { endpoint = some (use_ipv6, inbound_port); stopped = false },
    boost_to_error_code (first_error o),
  )

  -- `acceptor::accept`
  unfoldable pub accept : Handler → Acceptor Handler → Acceptor Handler
  accept handler s =
      if s.stopped
      then record s { waits = refused handler ∷ s.waits }
      else record s { waits = accepting handler ∷ s.waits }

  abbrev pub call : Handler → Code → Bool → Acceptor Handler → Acceptor Handler
  call handler ec channel s = record s { calls = (handler, ec, channel) ∷ s.calls }

  -- `acceptor::handle_accept`
  unfoldable pub handle_accept : BoostCode → Handler → Acceptor Handler → Acceptor Handler
  handle_accept ec handler s =
      if not (ec == 0)
      then call handler (boost_to_error_code ec) false s
      else call handler success true s

  unfoldable pub end_wait :
      Option (AcceptorWait Handler) → ℕ → BoostCode → Acceptor Handler → Acceptor Handler
  end_wait none i ec s = s
  end_wait (some (accepting handler)) i ec s =
      handle_accept ec handler (record s { waits = erase_at i s.waits })
  end_wait (some (refused handler)) i ec s =
      call handler service_stopped false (record s { waits = erase_at i s.waits })

  unfoldable pub step : AcceptorEvent Handler → Acceptor Handler → Acceptor Handler
  unfolding end_wait
  step (listens port o) s = (listen port o s).0
  step (accepts handler) s = accept handler s
  step (halts ec) s = stop ec s
  step (ends i ec) s = end_wait (get_elem? s.waits i) i ec s

  unfoldable pub run : List (AcceptorEvent Handler) → Acceptor Handler → Acceptor Handler
  run [] s = s
  run (e ∷ es) s = run es (step e s)
