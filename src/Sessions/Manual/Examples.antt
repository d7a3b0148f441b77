-- ===== src/Sessions/Manual/Examples.antt =====
-- Tests of the manual session, and the theorems at concrete inputs.
use bitprim_network.Base.{ℕ, ◌≡◌, refl, ◌==◌, Bool, true, length, none, some, List, [], ◌∷◌}
use bitprim_network.Code.{Code, success, channel_timeout, resolve_failed}
use bitprim_network.Network
use bitprim_network.Network.{Link}
use bitprim_network.Network.Plain.{pendings, same}
use bitprim_network.Sessions
use bitprim_network.Sessions.Examples.{other, network, settings}
use bitprim_network.Sessions.Manual
use bitprim_network.Sessions.Manual.{
  Manual, ManualParts, ManualEvent, asks, ends, halts, goes_on, wakes, connects, shakes, stops,
  construct, start, connect, run,
}
use bitprim_network.Sessions.Manual.Handlers.{IsAnswered, run-start-IsAnswered}
use bitprim_network.Sessions.Manual.Attempts.{failures, run-failures-connect}

abbrev parts : ManualParts
parts = record {
  Endpoint = ℕ;
  Handler = ℕ;
  Address = ℕ;
  same = same;
  links = pendings;
  settings = settings;
  manual_attempt_limit = 2;
}

abbrev fresh : Manual parts
fresh = construct parts true network

-- Three callers. The first connection fails once, is tried again and gets a channel, which stops and is
-- replaced; the second fails as often as the limit says; the third caller comes after the stop.
abbrev happenings : List (ManualEvent ℕ ℕ ℕ)
happenings =
    ends 0 goes_on
    ∷ asks 8333 (some 1)
    ∷ ends 0 (connects channel_timeout success 0 0 other)
    ∷ ends 0 wakes
    ∷ ends 0 (connects success success 77 70013 other)
    ∷ ends 0 (shakes success 70013)
    ∷ asks 18333 (some 2)
    ∷ ends 1 (stops channel_timeout)
    ∷ ends 1 (connects resolve_failed success 0 0 other)
    ∷ ends 0 (connects resolve_failed success 0 0 other)
    ∷ halts success
    ∷ asks 8333 (some 3)
    ∷ []

calls_of_happenings :
    (run parts happenings (start parts fresh)).calls
    ≡ (some 3, Code.service_stopped, none) ∷ (some 1, success, some other) ∷ []
unfolding run Manual.step Manual.end_wait Manual.dispatch Manual.handle_connect Manual.connect
    Manual.start_connect Manual.retry Manual.register_channel Manual.handle_handshake
    Manual.handle_start Manual.handle_channel_start Manual.handle_channel_stop Manual.handle_started
    Manual.handle_remove Manual.attach_protocols start construct Network.store Network.remove
    Network.set_nonce Sessions.cycle_delay Sessions.handshake_options
calls_of_happenings = refl

abbrev started : Manual parts
started = record {
  stopped = Bool.false;
  notify_on_connect = true;
  network = network;
  made = 0;
  pended = [];
  unpended = [];
  deeds = [];
  waits = [];
  calls = [];
  dropped = [];
}

-- A handshake fails: the caller's handler is given up, and the connection is tried again without it.
abbrev failed_handshake : List (ManualEvent ℕ ℕ ℕ)
failed_handshake =
    asks 8333 (some 1)
    ∷ ends 0 (connects success success 77 70013 other)
    ∷ ends 0 (shakes channel_timeout 70013)
    ∷ []

dropped_of_failure :
    let s = run parts failed_handshake started in
    (s.calls ≡ []) × (s.dropped ≡ some 1 ∷ []) × (s.waits ≡ Manual.connecting 1 8333 1 none ∷ [])
unfolding run Manual.step Manual.end_wait Manual.dispatch Manual.handle_connect Manual.connect
    Manual.start_connect Manual.register_channel Manual.handle_handshake Manual.handle_start
    Manual.handle_channel_start Manual.handle_channel_stop Network.set_nonce
    Sessions.handshake_options
dropped_of_failure = (refl, refl, refl)

run-start-IsAnswered_example :
    IsAnswered parts (λ h. h == 1) (λ c. c == 0) 1 (run parts happenings (start parts fresh))
run-start-IsAnswered_example =
    run-start-IsAnswered parts (λ h. h == 1) (λ c. c == 0) happenings true network

-- One failure more than the limit.
abbrev codes : List Code
codes = channel_timeout ∷ resolve_failed ∷ channel_timeout ∷ []

run-failures-connect_example :
    let t = run parts (failures parts other codes) (connect parts 8333 (some 1) started) in
    (t.calls ≡ (some 1, resolve_failed, none) ∷ []) × (length t.waits ≡ 0)
run-failures-connect_example =
    run-failures-connect parts other 8333 (some 1) codes started refl refl
      (refl, (refl, (refl, tt)))
