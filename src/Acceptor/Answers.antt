-- ===== src/Acceptor/Answers.antt =====
-- What an acceptor answers: src/acceptor.cpp.
use bitprim_network.Base.{
  ℕ, ◌+◌, ◌≡◌, refl, Bool, true, false, not, Option, none, some, List, [], ◌∷◌, ◌==◌, get_elem?,
  count_by, count_by-erase_at, All, arith, if◌then◌else◌, if-both,
}
use bitprim_network.Code.{Code, is_error}
use bitprim_network.Channel.Proxy.{BoostCode}
use bitprim_network.Acceptor.{
  Acceptor, AcceptorWait, accepting, refused, AcceptorEvent, listens, accepts, halts, ends,
  construct, stop, listen, accept, handle_accept, end_wait, step, run,
}

abbrev pub handler_of : {Handler : Type 0} → AcceptorWait Handler → Handler
handler_of (accepting h) = h
handler_of (refused h) = h

-- How many of the handlers that pass a test an event hands over.
abbrev pub asked : {Handler : Type 0} → (Handler → Bool) → AcceptorEvent Handler → ℕ
asked p (accepts h) = if p h then 1 else 0
asked p _ = 0

abbrev pub asked_all : {Handler : Type 0} → (Handler → Bool) → List (AcceptorEvent Handler) → ℕ
asked_all p [] = 0
asked_all p (e ∷ es) = asked p e + asked_all p es

-- A call with a channel has the code of success.
abbrev pub IsFair : {Handler : Type 0} → Handler × Code × Bool → Type 0
IsFair (h, ec, channel) = channel ≡ true → is_error ec ≡ false

module _ {Handler : Type 0} (boost_to_error_code : BoostCode → Code) (use_ipv6 : Bool)
    (inbound_port : ℕ) where
  -- How many of the handlers that pass a test were called or wait.
  abbrev pub held : (Handler → Bool) → Acceptor Handler → ℕ
  held p s = count_by (λ c. p c.0) s.calls + count_by (λ w. p (handler_of w)) s.waits

  held-end_wait :
      (p : Handler → Bool) (at : Option (AcceptorWait Handler)) (i : ℕ) (ec : BoostCode)
      (s : Acceptor Handler)
      → get_elem? s.waits i ≡ at
      → held p (end_wait boost_to_error_code use_ipv6 inbound_port at i ec s) ≡ held p s
  unfolding end_wait handle_accept
  held-end_wait p none i ec s e = refl
  held-end_wait p (some (accepting h)) i ec s e =
      ground (arith, count_by-erase_at (λ w. p (handler_of w)) i s.waits e)
  held-end_wait p (some (refused h)) i ec s e =
      ground (arith, count_by-erase_at (λ w. p (handler_of w)) i s.waits e)

  held-step :
      (p : Handler → Bool) (e : AcceptorEvent Handler) (s : Acceptor Handler)
      → held p (step boost_to_error_code use_ipv6 inbound_port e s) ≡ held p s + asked p e
  unfolding step listen accept stop
  held-step p (listens port o) s = ground arith
  held-step p (accepts h) s = ground arith
  held-step p (halts ec) s = ground arith
  held-step p (ends i ec) s = omega (arith, held-end_wait p (get_elem? s.waits i) i ec s refl)

  held-run :
      (p : Handler → Bool) (es : List (AcceptorEvent Handler)) (s : Acceptor Handler)
      → held p (run boost_to_error_code use_ipv6 inbound_port es s) ≡ held p s + asked_all p es
  unfolding run
  held-run p [] s = omega arith
  held-run p (e ∷ es) s =
      omega
        (arith, held-step p e s, held-run p es (step boost_to_error_code use_ipv6 inbound_port e s))

  abbrev Fair : Acceptor Handler → Type 0
  Fair s = All IsFair s.calls

  end_wait-IsFair :
      (at : Option (AcceptorWait Handler)) (i : ℕ) (ec : BoostCode) (s : Acceptor Handler)
      → All IsFair s.calls
      → All IsFair (end_wait boost_to_error_code use_ipv6 inbound_port at i ec s).calls
  unfolding end_wait handle_accept
  end_wait-IsFair none i ec s v = v
  end_wait-IsFair (some (accepting h)) i ec s v =
      if-both Fair (not (ec == 0)) (λ _. ((λ e. ground arith), v)) (λ _. ((λ e. refl), v))
  end_wait-IsFair (some (refused h)) i ec s v = ((λ e. ground arith), v)

  step-IsFair :
      (e : AcceptorEvent Handler) (s : Acceptor Handler)
      → All IsFair s.calls
      → All IsFair (step boost_to_error_code use_ipv6 inbound_port e s).calls
  unfolding step listen accept stop
  step-IsFair (listens port o) s v =
      if-both (λ (t : Acceptor Handler × Code). Fair t.0) (not s.stopped) (λ _. v) (λ _. v)
  step-IsFair (accepts h) s v = if-both Fair s.stopped (λ _. v) (λ _. v)
  step-IsFair (halts ec) s v = if-both Fair (not s.stopped) (λ _. v) (λ _. v)
  step-IsFair (ends i ec) s v = end_wait-IsFair (get_elem? s.waits i) i ec s v

  run-IsFair :
      (es : List (AcceptorEvent Handler)) (s : Acceptor Handler)
      → All IsFair s.calls
      → All IsFair (run boost_to_error_code use_ipv6 inbound_port es s).calls
  unfolding run
  run-IsFair [] s v = v
  run-IsFair (e ∷ es) s v = run-IsFair es _ (step-IsFair e s v)

  -- Of a new acceptor, whatever happens to it: each handler that it is given is called once or still waits,
  -- on the socket or on the dispatcher, as often as it was given; and a channel comes along only with the
  -- code of success.
  pub held-run-construct :
      (p : Handler → Bool) (es : List (AcceptorEvent Handler))
      → let s =
          run boost_to_error_code use_ipv6 inbound_port es
            (construct boost_to_error_code use_ipv6 inbound_port) in
        (held p s ≡ asked_all p es) × All IsFair s.calls
  unfolding construct
  held-run-construct p es =
      let new : Acceptor Handler = construct boost_to_error_code use_ipv6 inbound_port in
      (omega (arith, held-run p es new), run-IsFair es new tt)
