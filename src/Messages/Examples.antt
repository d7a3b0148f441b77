-- ===== src/Messages/Examples.antt =====
-- Tests of the subscribers of messages, and the theorems at concrete inputs.
use bitprim_network.Base.{ℕ, ◌≡◌, ◌≢◌, refl, true, false, List, [], ◌∷◌, none, some, ◌==◌}
use bitprim_network.Code.{success, channel_stopped}
use bitprim_network.Library.{Subscribers}
use bitprim_network.Library.Plain.{plain, Plain}
use bitprim_network.Messages.Kind.{ping, pong}
use bitprim_network.Messages.{
  Notice, Parser, MessageSubscriber, construct, start, stop, broadcast, subscribe,
}
use bitprim_network.Messages.Load.{load}
use bitprim_network.Messages.Lifecycle.{subscriber, broadcast-stop, subscribe-stop, subscribe-start}
use bitprim_network.Messages.Dispatch.{Loads, load_lem}

-- Handler 1 stays subscribed.
abbrev sub : Subscribers ℕ (Notice ℕ)
sub = plain (λ n h. h == 1)

-- A message is one byte; an empty stream is malformed.
abbrev first_byte : Parser ℕ
first_byte t v [] = (none, [])
first_byte t v (b ∷ bs) = (some b, bs)

abbrev waiting_for : List ℕ → Plain ℕ (Notice ℕ)
waiting_for hs = record { stopped = false; handlers = hs; made = [] }

-- Two handlers wait for a ping.
listening : MessageSubscriber sub
unfolding construct start subscribe
listening = subscribe sub ping 2 (subscribe sub ping 1 (start sub (construct sub)))

listening-ping : subscriber sub ping listening ≡ some (waiting_for (1 ∷ 2 ∷ []))
unfolding listening
listening-ping = refl

-- Handler 1 alone is there for the next one.
load_ping :
    subscriber sub ping (load sub first_byte ping 70002 (9 ∷ []) listening).1
    ≡ some (record (waiting_for (1 ∷ [])) {
      made = (1, (success, some 9)) ∷ (2, (success, some 9)) ∷ [];
    })
unfolding listening load
load_ping = refl

broadcast-stop_example :
    (s' : Plain ℕ (Notice ℕ)) × (subscriber sub ping
        (broadcast sub channel_stopped (stop sub listening))
      ≡ some s')
    × (s'.stopped ≡ true)
    × (s'.handlers ≡ [])
    × (s'.made ≡ (1, (channel_stopped, none)) ∷ (2, (channel_stopped, none)) ∷ [])
broadcast-stop_example = broadcast-stop sub ping channel_stopped listening listening-ping

subscribe-stop_example :
    (s' : Plain ℕ (Notice ℕ)) × (subscriber sub ping (subscribe sub ping 7 (stop sub listening))
      ≡ some s')
    × (s'.handlers ≡ 1 ∷ 2 ∷ [])
    × (s'.made ≡ (7, (channel_stopped, none)) ∷ [])
subscribe-stop_example = subscribe-stop sub ping 7 listening listening-ping

subscribe-start_example :
    (s' : Plain ℕ (Notice ℕ)) × (subscriber sub ping (subscribe sub ping 7 (start sub listening))
      ≡ some s')
    × (s'.handlers ≡ 1 ∷ 2 ∷ 7 ∷ [])
    × (s'.made ≡ [])
subscribe-start_example = subscribe-start sub ping 7 listening listening-ping

ping-ne-pong : ping ≢ pong
ping-ne-pong e = cc

load_lem_example :
    Loads sub first_byte ping pong 70002 (9 ∷ []) listening (waiting_for (1 ∷ 2 ∷ [])) (some 9, [])
load_lem_example =
    load_lem sub first_byte ping pong 70002 (9 ∷ []) listening listening-ping ping-ne-pong
