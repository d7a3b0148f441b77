-- ===== src/Protocols/Seed/Steps.antt =====
-- What can happen to a seeding: src/protocols/protocol_seed_31402.cpp.
use bitprim_network.Base.{false, List, [], ◌∷◌, if◌then◌else◌}
use bitprim_network.Code.{Code}
use bitprim_network.Protocols.{Protocol, Output, stops}
use bitprim_network.Protocols.Library.{Synchronizers}
use bitprim_network.Protocols.Timer
use bitprim_network.Protocols.Seed.{
  Seed, SeedSettings, join_handler, handle_receive_address, handle_send_address,
  handle_send_get_address, handle_store_addresses,
}

-- The codes that the channel was told to stop with, the latest first.
abbrev pub stop_codes : {Address : Type 0} → List (Output Address) → List Code
stop_codes [] = []
stop_codes (stops ec ∷ os) = ec ∷ stop_codes os
stop_codes (_ ∷ os) = stop_codes os

-- What can happen to a seeding.
pub data SeedEvent (Address : Type 0) : Type 0 where
  gets_address : Code → List Address → SeedEvent Address
  own_sent : Code → SeedEvent Address
  request_sent : Code → SeedEvent Address
  stored : Code → SeedEvent Address
  timer_fires : SeedEvent Address
  channel_stops : Code → SeedEvent Address

module _ {Address : Type 0} (join : Synchronizers) (settings : SeedSettings Address) where
  -- A send or a store ends only if it was begun.
  unfoldable pub step :
      SeedEvent Address → Protocol Address (Seed join) → Protocol Address (Seed join)
  step (gets_address ec addresses) p =
      if p.own.awaits_address
      then handle_receive_address join settings ec addresses
          (record p { own = record p.own { awaits_address = false } })
      else p
  step (own_sent ec) p =
      if p.own.sends_own
      then handle_send_address join settings ec
          (record p { own = record p.own { sends_own = false } })
      else p
  step (request_sent ec) p =
      if p.own.sends_request
      then handle_send_get_address join settings ec
          (record p { own = record p.own { sends_request = false } })
      else p
  step (stored ec) p =
      if p.own.storing
      then handle_store_addresses join settings ec
          (record p { own = record p.own { storing = false } })
      else p
  step timer_fires p = Timer.fire false (join_handler join settings) p
  step (channel_stops ec) p = Timer.handle_stopped false (join_handler join settings) ec p

  unfoldable pub run :
      List (SeedEvent Address) → Protocol Address (Seed join) → Protocol Address (Seed join)
  run [] p = p
  run (e ∷ es) p = run es (step e p)
