-- ===== src/Acceptor/Examples.antt =====
-- Tests of the acceptor, and its theorem at a concrete input.
use bitprim_network.Base.{ℕ, ◌≡◌, refl, true, false, List, [], ◌∷◌, ◌==◌, All}
use bitprim_network.Code.{success, service_stopped, operation_failed, other}
use bitprim_network.Acceptor.{
  Acceptor, AcceptorEvent, Opening, listens, accepts, halts, ends, construct, listen, stop, accept,
  handle_accept, end_wait, step, run, first_error,
}
use bitprim_network.Acceptor.Answers.{IsFair, held, held-run-construct}

abbrev acceptor : Acceptor ℕ
acceptor = construct other true 8333

-- The port is taken.
abbrev taken : Opening
taken = record { opened = 0; option_set = 0; bound = 98; listened = 0 }

abbrev clear : Opening
clear = record { opened = 0; option_set = 0; bound = 0; listened = 0 }

-- A handler is given too early, one is answered with a channel, and the last is cancelled by the stop.
abbrev happenings : List (AcceptorEvent ℕ)
happenings =
    accepts 1
    ∷ listens 8333 clear
    ∷ accepts 2
    ∷ ends 0 0
    ∷ accepts 3
    ∷ halts service_stopped
    ∷ ends 0 125
    ∷ ends 0 0
    ∷ []

calls_of_happenings :
    (run other true 8333 happenings acceptor).calls
    ≡ (1, service_stopped, false) ∷ (3, other 125, false) ∷ (2, success, true) ∷ []
unfolding run step listen first_error accept stop end_wait handle_accept construct
calls_of_happenings = refl

-- After a listen that failed, the next is refused.
listens_again :
    (listen other true 8333 8333 clear (listen other true 8333 8333 taken acceptor).0).1
    ≡ operation_failed
unfolding listen construct
listens_again = refl

held-run-construct_example :
    let s = run other true 8333 happenings acceptor in
    (held other true 8333 (λ h. h == 2) s ≡ 1) × All IsFair s.calls
held-run-construct_example = held-run-construct other true 8333 (λ h. h == 2) happenings
