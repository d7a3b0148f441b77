-- ===== src/Protocols/Seed.antt =====
-- The seeding of the host pool: src/protocols/protocol_seed_31402.cpp.
pub mod Steps
pub mod Seeding
use bitprim_network.Base.{
  ℕ, Bool, true, false, Option, none, some, List, [], ◌∷◌, ◌==◌, if◌then◌else◌,
}
use bitprim_network.Code.{Code, success, channel_stopped, not_found, is_error}
use bitprim_network.Protocols.{
  Protocol, send, stop, emit, completes, stores, address_message, get_address_message,
}
use bitprim_network.Protocols.Library.{Synchronizers}
use bitprim_network.Protocols.Events
use bitprim_network.Protocols.Timer

-- What the code reads of `network::settings`: the capacity, and the own address with its port.
pub record SeedSettings (Address : Type 0) : Type 0 where
  pub host_pool_capacity : ℕ
  pub self : Address
  pub self_port : ℕ

-- The synchronizer, the subscription to addresses, and what was begun and has not ended: the two sends
-- and the store of the addresses that the seed gave.
pub record Seed (join : Synchronizers) : Type 0 where
  pub joined : join.State
  pub awaits_address : Bool
  pub sends_own : Bool
  pub sends_request : Bool
  pub storing : Bool

module _ {Address : Type 0} (join : Synchronizers) (settings : SeedSettings Address) where
  -- `protocol_seed_31402::handle_seeding_complete`
  unfoldable pub handle_seeding_complete :
      Code → Protocol Address (Seed join) → Protocol Address (Seed join)
  handle_seeding_complete ec p = stop ec (emit (completes ec) p)

  -- The join handler, over `complete`.
  unfoldable pub join_handler : Code → Protocol Address (Seed join) → Protocol Address (Seed join)
  unfolding handle_seeding_complete
  join_handler ec p =
      let (next, called) = join.call ec p.own.joined in
      let q = record p { own = record p.own { joined = next } } in
      elim called [ none ↦ q | some result ↦ handle_seeding_complete result q ]

  abbrev pub set_event : Code → Protocol Address (Seed join) → Protocol Address (Seed join)
  set_event = Timer.set_event false join_handler

  -- `protocol_seed_31402::send_own_address`
  unfoldable pub send_own_address : Protocol Address (Seed join) → Protocol Address (Seed join)
  send_own_address p =
      if settings.self_port == 0
      then set_event success p
      else send (address_message (settings.self ∷ []))
          (record p { own = record p.own { sends_own = true } })

  -- `protocol_seed_31402::start`
  unfoldable pub start : Protocol Address (Seed join) → Protocol Address (Seed join)
  start p =
      if settings.host_pool_capacity == 0
      then handle_seeding_complete not_found p
      else (let joining = record p { own = record p.own { joined = join.synchronize 3 } } in
          let timed = Timer.start false join_handler joining in
          let asked =
            send_own_address (record timed { own = record timed.own { awaits_address = true } }) in
          send get_address_message
            (record asked { own = record asked.own { sends_request = true } }))

  -- `protocol_seed_31402::handle_receive_address`. It never asks to be subscribed again.
  unfoldable pub handle_receive_address :
      Code → List Address → Protocol Address (Seed join) → Protocol Address (Seed join)
  handle_receive_address ec addresses p =
      if Events.stopped_by ec p
      then p
      else emit (stores addresses) (record p { own = record p.own { storing = true } })

  -- `protocol_seed_31402::handle_send_address`
  unfoldable pub handle_send_address :
      Code → Protocol Address (Seed join) → Protocol Address (Seed join)
  handle_send_address ec p = if Events.stopped_by ec p then p else set_event success p

  -- `protocol_seed_31402::handle_send_get_address`
  unfoldable pub handle_send_get_address :
      Code → Protocol Address (Seed join) → Protocol Address (Seed join)
  handle_send_get_address ec p =
      if Events.stopped_by ec p
      then p
      else if is_error ec
      then set_event ec p
      else set_event success p

  -- `protocol_seed_31402::handle_store_addresses`
  unfoldable pub handle_store_addresses :
      Code → Protocol Address (Seed join) → Protocol Address (Seed join)
  handle_store_addresses ec p =
      if Events.stopped_by ec p
      then p
      else if is_error ec
      then set_event ec p
      else set_event channel_stopped p
