-- ===== src/Protocols/Ping.antt =====
-- The heartbeat: src/protocols/protocol_ping_31402.cpp and protocol_ping_60001.cpp.
pub mod Pending
use bitprim_network.Base.{
  ℕ, Bool, true, false, not, List, [], ◌∷◌, ◌++◌, ◌+◌, ◌&&◌, ◌==◌, if◌then◌else◌,
}
use bitprim_network.Code.{Code, success, channel_timeout, bad_stream, is_error, is_channel_timeout}
use bitprim_network.Protocols.{Protocol, send, stop, plain_ping, ping_message, pong_message}
use bitprim_network.Protocols.Events
use bitprim_network.Protocols.Timer

-- The class: 60001 derives from 31402.
pub data Level : Type 0 where
  from_31402 from_60001 : Level

-- The fields, how many random numbers were drawn, and the subscriptions: to ping, and of each
-- handler of pong the nonce that it is bound to.
pub record Ping : Type 0 where
  pub pending : Bool
  pub drawn : ℕ
  pub awaits_ping : Bool
  pub pongs : List ℕ

-- `random n` is the n-th number of `pseudo_random::next`.
module _ (Address : Type 0) (random : ℕ → ℕ) where
  -- The guard of `send_ping`, of both classes.
  abbrev pub failed : Code → Bool
  failed ec = is_error ec && not (is_channel_timeout ec)

  -- `protocol_ping_31402::send_ping`
  unfoldable pub send_plain_ping : Code → Protocol Address Ping → Protocol Address Ping
  send_plain_ping ec p =
      if Events.stopped_by ec p then p else if failed ec then stop ec p else send plain_ping p

  -- `send_ping` of both classes, with that of `protocol_ping_60001` here.
  unfoldable pub send_ping : Level → Code → Protocol Address Ping → Protocol Address Ping
  unfolding send_plain_ping
  send_ping from_31402 ec p = send_plain_ping ec p
  send_ping from_60001 ec p =
      if Events.stopped_by ec p
      then p
      else if failed ec
      then stop ec p
      else if p.own.pending
      then stop channel_timeout p
      else (let nonce = random p.own.drawn in
          send (ping_message nonce) (record p {
            own = record p.own {
              pending = true;
              drawn = p.own.drawn + 1;
              pongs = p.own.pongs ++ nonce ∷ [];
            };
          }))

  -- `protocol_ping_31402::start`
  unfoldable pub start : Level → Protocol Address Ping → Protocol Address Ping
  start level p =
      let timed = Timer.start true (send_ping level) p in
      Timer.set_event true (send_ping level) success
        (record timed { own = record timed.own { awaits_ping = true } })

  -- `protocol_ping_60001::handle_send_ping`
  unfoldable pub handle_send_ping : Code → Protocol Address Ping → Protocol Address Ping
  handle_send_ping ec p = if Events.stopped_by ec p then p else if is_error ec then stop ec p else p

  -- `protocol_ping_31402::handle_receive_ping`, which does not answer the ping: it subscribes again or
  -- not.
  unfoldable pub receive_plain_ping : Code → Protocol Address Ping → Protocol Address Ping × Bool
  receive_plain_ping ec p = if Events.stopped_by ec p then (p, false) else (p, true)

  -- `handle_receive_ping` of both classes, with the answer: to subscribe again or not. That of
  -- `protocol_ping_60001` is here.
  unfoldable pub handle_receive_ping :
      Level → Code → ℕ → Protocol Address Ping → Protocol Address Ping × Bool
  unfolding receive_plain_ping
  handle_receive_ping from_31402 ec nonce p = receive_plain_ping ec p
  handle_receive_ping from_60001 ec nonce p =
      if Events.stopped_by ec p
      then (p, false)
      else if is_error ec
      then (stop ec p, false)
      else (send (pong_message nonce) p, true)

  -- `protocol_ping_60001::handle_receive_pong`, with the nonce of the message and that of the ping. It
  -- never asks to be subscribed again.
  unfoldable pub handle_receive_pong : Code → ℕ → ℕ → Protocol Address Ping → Protocol Address Ping
  handle_receive_pong ec received nonce p =
      if Events.stopped_by ec p
      then p
      else if is_error ec
      then stop ec p
      else (let answered = record p { own = record p.own { pending = false } } in
          if not (received == nonce) then stop bad_stream answered else answered)

  -- The pong goes to each handler that is subscribed.
  unfoldable pub receive_pong : Code → ℕ → List ℕ → Protocol Address Ping → Protocol Address Ping
  receive_pong ec received [] p = p
  receive_pong ec received (nonce ∷ rest) p =
      receive_pong ec received rest (handle_receive_pong ec received nonce p)
