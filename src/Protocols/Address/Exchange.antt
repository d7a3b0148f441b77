-- ===== src/Protocols/Address/Exchange.antt =====
-- What the address protocol stores, sends and stops for: src/protocols/protocol_address_31402.cpp.
use bitprim_network.Base.{
  ℕ, ◌+◌, ◌≡◌, refl, Bool, true, false, not, ◌&&◌, List, [], ◌∷◌, ◌==◌, length, arith,
  if◌then◌else◌,
}
use bitprim_network.Code.{Code, is_error, is_stop_code}
use bitprim_network.Protocols.{
  Protocol, Output, sends, stores, construct, address_message, get_address_message,
}
use bitprim_network.Protocols.Events
use bitprim_network.Protocols.Seed.Steps.{stop_codes}
use bitprim_network.Protocols.Address.{
  AddressState, start, handle_stop, handle_receive_address, handle_receive_get_address,
  handle_store_addresses,
}

-- What can happen to the protocol: addresses arrive; they are asked for, when the pool gives these; the
-- pool has stored addresses, with a code; the channel stops.
pub data AddressEvent (Address : Type 0) : Type 0 where
  gets_address : Code → List Address → AddressEvent Address
  gets_get_address : Code → List Address → AddressEvent Address
  addresses_stored : Code → AddressEvent Address
  channel_stops : Code → AddressEvent Address

module _ {Address : Type 0} where
  -- A handler that waits for a message gets it, and waits again if it answers so.
  unfoldable pub step :
      AddressEvent Address
      → Protocol Address (AddressState Address)
      → Protocol Address (AddressState Address)
  step (gets_address ec addresses) p =
      if p.own.awaits_address
      then (let (q, again) =
            handle_receive_address ec addresses
              (record p { own = record p.own { awaits_address = false } }) in
          record q { own = record q.own { awaits_address = again } })
      else p
  step (gets_get_address ec fetched) p =
      if p.own.awaits_get_address
      then handle_receive_get_address ec fetched
          (record p { own = record p.own { awaits_get_address = false } })
      else p
  step (addresses_stored ec) p = handle_store_addresses ec p
  step (channel_stops ec) p = Events.handle_stopped handle_stop ec p

  unfoldable pub run :
      List (AddressEvent Address)
      → Protocol Address (AddressState Address)
      → Protocol Address (AddressState Address)
  run [] p = p
  run (e ∷ es) p = run es (step e p)

  -- What was stored, which addresses were sent, the latest first, and how often addresses were asked for.
  abbrev pub stored : List (Output Address) → List (List Address)
  stored [] = []
  stored (stores addresses ∷ os) = addresses ∷ stored os
  stored (_ ∷ os) = stored os

  abbrev pub sent : List (Output Address) → List (List Address)
  sent [] = []
  sent (sends (address_message addresses) ∷ os) = addresses ∷ sent os
  sent (_ ∷ os) = sent os

  abbrev pub questions : List (Output Address) → ℕ
  questions [] = 0
  questions (sends get_address_message ∷ os) = questions os + 1
  questions (_ ∷ os) = questions os

  -- What a protocol that is on must store: what arrives until the channel stops, or a stop code does.
  unfoldable pub to_store :
      Bool → List (AddressEvent Address) → List (List Address) → List (List Address)
  to_store false es acc = acc
  to_store true [] acc = acc
  to_store true (gets_address ec addresses ∷ es) acc =
      to_store (not (is_stop_code ec)) es (if is_stop_code ec then acc else addresses ∷ acc)
  to_store true (channel_stops ec ∷ es) acc = acc
  to_store true (_ ∷ es) acc = to_store true es acc

  -- What it must send: what the pool gives at the first question, if it gives anything.
  unfoldable pub to_send :
      Bool → List (AddressEvent Address) → List (List Address) → List (List Address)
  to_send false es acc = acc
  to_send true [] acc = acc
  to_send true (gets_get_address ec fetched ∷ es) acc =
      if is_stop_code ec then acc else if length fetched == 0 then acc else fetched ∷ acc
  to_send true (channel_stops ec ∷ es) acc = acc
  to_send true (_ ∷ es) acc = to_send true es acc

  -- The codes that it must stop the channel with: the failures to store, until the channel stops.
  unfoldable pub to_stop : Bool → List (AddressEvent Address) → List Code → List Code
  to_stop false es acc = acc
  to_stop true [] acc = acc
  to_stop true (addresses_stored ec ∷ es) acc =
      to_stop true es (if is_error ec && not (is_stop_code ec) then ec ∷ acc else acc)
  to_stop true (channel_stops ec ∷ es) acc = acc
  to_stop true (_ ∷ es) acc = to_stop true es acc

  -- What a run puts out is what must be put out after what there is.
  record Replays (es : List (AddressEvent Address)) (p q : Protocol Address (AddressState Address))
      : Type 0 where
    stored_right :
        stored q.outputs ≡ to_store (p.handler && p.own.awaits_address) es (stored p.outputs)
    sent_right :
        sent q.outputs ≡ to_send (p.handler && p.own.awaits_get_address) es (sent p.outputs)
    stopped_right : stop_codes q.outputs ≡ to_stop p.handler es (stop_codes p.outputs)
    asked_right : questions q.outputs ≡ questions p.outputs

  step-Replays :
      (e : AddressEvent Address) (es : List (AddressEvent Address))
      (p q : Protocol Address (AddressState Address))
      → Replays es (step e p) q
      → Replays (e ∷ es) p q
  unfolding step handle_receive_address handle_receive_get_address handle_store_addresses
      Events.handle_stopped Events.stopped_by Events.stopped Events.set_event handle_stop to_store
      to_send to_stop
  step-Replays (gets_address ec addresses) es p q v = record {
    stored_right = ground (arith, v.stored_right);
    sent_right = ground (arith, v.sent_right);
    stopped_right = ground (arith, v.stopped_right);
    asked_right = ground (arith, v.asked_right);
  }
  step-Replays (gets_get_address ec fetched) es p q v = record {
    stored_right = ground (arith, v.stored_right);
    sent_right = ground (arith, v.sent_right);
    stopped_right = ground (arith, v.stopped_right);
    asked_right = ground (arith, v.asked_right);
  }
  step-Replays (addresses_stored ec) es p q v = record {
    stored_right = ground (arith, v.stored_right);
    sent_right = ground (arith, v.sent_right);
    stopped_right = ground (arith, v.stopped_right);
    asked_right = ground (arith, v.asked_right);
  }
  step-Replays (channel_stops ec) es p q v = record {
    stored_right = ground (arith, v.stored_right);
    sent_right = ground (arith, v.sent_right);
    stopped_right = ground (arith, v.stopped_right);
    asked_right = ground (arith, v.asked_right);
  }

  run-Replays :
      (es : List (AddressEvent Address)) (p : Protocol Address (AddressState Address))
      → Replays es p (run es p)
  unfolding run to_store to_send to_stop
  run-Replays [] p = record {
    stored_right = ground arith;
    sent_right = ground arith;
    stopped_right = ground arith;
    asked_right = refl;
  }
  run-Replays (e ∷ es) p = step-Replays e es p _ (run-Replays es (step e p))

  -- After any events that follow the start of a protocol: it has stored what arrived until the channel
  -- stopped or a stop code arrived, in that order; it has sent its own address, if it has one, and then
  -- what the pool gave at the first question, if that came before the stop and the pool gave anything,
  -- and no more however often it was asked; it has stopped the channel with each failure to store that
  -- is no stop code, before that stop; and it has asked for addresses once. With no room in the host pool it has sent its own
  -- address only, and neither stored, answered nor asked.
  pub run-start-replays :
      (es : List (AddressEvent Address)) (host_pool_capacity : ℕ) (self : List Address)
      → let on = not (host_pool_capacity == 0) in
        let q = run es (
          start host_pool_capacity (
            construct
              (record { self = self; awaits_address = false; awaits_get_address = false }))) in
        (stored q.outputs ≡ to_store on es [])
        × (sent q.outputs ≡ to_send on es (if length self == 0 then [] else self ∷ []))
        × (stop_codes q.outputs ≡ to_stop true es [])
        × (questions q.outputs ≡ (if on then 1 else 0))
  unfolding start Events.start
  run-start-replays es host_pool_capacity self =
      let own : AddressState Address = record {
        self = self;
        awaits_address = false;
        awaits_get_address = false;
      } in
      let v = run-Replays es (start host_pool_capacity (construct own)) in
      (
        ground (arith, v.stored_right),
        ground (arith, v.sent_right),
        ground (arith, v.stopped_right),
        ground (arith, v.asked_right),
      )
