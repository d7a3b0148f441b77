-- ===== src/Protocols/Address.antt =====
-- The exchange of addresses with a peer: src/protocols/protocol_address_31402.cpp.
pub mod Exchange
use bitprim_network.Base.{ℕ, Bool, true, false, List, [], ◌∷◌, ◌==◌, length, not, if◌then◌else◌}
use bitprim_network.Code.{Code, is_error}
use bitprim_network.Protocols.{
  Protocol, send, stop, emit, stores, address_message, get_address_message,
}
use bitprim_network.Protocols.Events

-- The field `self_`, and the two subscriptions.
pub record AddressState (Address : Type 0) : Type 0 where
  pub self : List Address
  pub awaits_address : Bool
  pub awaits_get_address : Bool

module _ {Address : Type 0} where
  -- `configured_self`, of the own address and its port.
  unfoldable pub configured_self : Address → ℕ → List Address
  configured_self self port = if port == 0 then [] else self ∷ []

  -- `protocol_address_31402::handle_stop`, the event handler, which does nothing.
  unfoldable pub handle_stop :
      Code → Protocol Address (AddressState Address) → Protocol Address (AddressState Address)
  handle_stop ec p = p

  -- `protocol_address_31402::start`, for a host pool of that capacity.
  unfoldable pub start :
      ℕ → Protocol Address (AddressState Address) → Protocol Address (AddressState Address)
  start host_pool_capacity p =
      let begun = Events.start handle_stop p in
      let told =
        if not (length begun.own.self == 0)
        then send (address_message begun.own.self) begun
        else begun in
      if host_pool_capacity == 0
      then told
      else send get_address_message (record told {
        own = record told.own { awaits_address = true; awaits_get_address = true };
      })

  -- `protocol_address_31402::handle_receive_address`, with the answer: to subscribe again or not.
  unfoldable pub handle_receive_address :
      Code
      → List Address
      → Protocol Address (AddressState Address)
      → Protocol Address (AddressState Address) × Bool
  handle_receive_address ec addresses p =
      if Events.stopped_by ec p then (p, false) else (emit (stores addresses) p, true)

  -- `protocol_address_31402::handle_receive_get_address`, with what the host pool gives. It never
  -- asks to be subscribed again.
  unfoldable pub handle_receive_get_address :
      Code
      → List Address
      → Protocol Address (AddressState Address)
      → Protocol Address (AddressState Address)
  handle_receive_get_address ec fetched p =
      if Events.stopped_by ec p
      then p
      else if not (length fetched == 0)
      then send (address_message fetched) p
      else p

  -- `protocol_address_31402::handle_store_addresses`
  unfoldable pub handle_store_addresses :
      Code → Protocol Address (AddressState Address) → Protocol Address (AddressState Address)
  handle_store_addresses ec p =
      if Events.stopped_by ec p then p else if is_error ec then stop ec p else p
