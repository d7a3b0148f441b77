-- ===== src/Messages/Lifecycle.antt =====
-- Starting, stopping and broadcasting: src/message_subscriber.cpp.
use bitprim_network.Base.{◌≡◌, true, [], ◌∷◌, ◌++◌, map, Option, none, some, arith}
use bitprim_network.Code.{Code, channel_stopped}
use bitprim_network.Library.{Subscribers}
use bitprim_network.Messages.Kind.{
  MessageType, address, alert, block, block_transactions, compact_block, fee_filter, filter_add,
  filter_clear, filter_load, get_address, get_blocks, get_block_transactions, get_data, get_headers,
  headers, inventory, memory_pool, merkle_block, ping, pong, reject, send_compact, send_headers,
  transaction, verack, version, unknown,
}
use bitprim_network.Messages.{Notice, MessageSubscriber, broadcast, start, stop, subscribe}

module _ {Message Handler : Type 0} (sub : Subscribers Handler (Notice Message)) where
  -- The subscriber of a type of message; an unknown type has none.
  abbrev pub subscriber : MessageType → MessageSubscriber sub → Option sub.State
  subscriber address m = some m.address_subscriber
  subscriber alert m = some m.alert_subscriber
  subscriber block m = some m.block_subscriber
  subscriber block_transactions m = some m.block_transactions_subscriber
  subscriber compact_block m = some m.compact_block_subscriber
  subscriber fee_filter m = some m.fee_filter_subscriber
  subscriber filter_add m = some m.filter_add_subscriber
  subscriber filter_clear m = some m.filter_clear_subscriber
  subscriber filter_load m = some m.filter_load_subscriber
  subscriber get_address m = some m.get_address_subscriber
  subscriber get_blocks m = some m.get_blocks_subscriber
  subscriber get_block_transactions m = some m.get_block_transactions_subscriber
  subscriber get_data m = some m.get_data_subscriber
  subscriber get_headers m = some m.get_headers_subscriber
  subscriber headers m = some m.headers_subscriber
  subscriber inventory m = some m.inventory_subscriber
  subscriber memory_pool m = some m.memory_pool_subscriber
  subscriber merkle_block m = some m.merkle_block_subscriber
  subscriber MessageType.not_found m = some m.not_found_subscriber
  subscriber ping m = some m.ping_subscriber
  subscriber pong m = some m.pong_subscriber
  subscriber reject m = some m.reject_subscriber
  subscriber send_compact m = some m.send_compact_subscriber
  subscriber send_headers m = some m.send_headers_subscriber
  subscriber transaction m = some m.transaction_subscriber
  subscriber verack m = some m.verack_subscriber
  subscriber version m = some m.version_subscriber
  subscriber unknown m = none

  subscriber-broadcast :
      (t : MessageType) (ec : Code) (m : MessageSubscriber sub) {s : sub.State}
      → subscriber t m ≡ some s
      → subscriber t (broadcast sub ec m) ≡ some (sub.relay (ec, none) s)
  unfolding broadcast
  subscriber-broadcast address ec m e = cc
  subscriber-broadcast _ ec m e = cc

  subscriber-start :
      (t : MessageType) (m : MessageSubscriber sub) {s : sub.State}
      → subscriber t m ≡ some s
      → subscriber t (start sub m) ≡ some (sub.start s)
  unfolding start
  subscriber-start address m e = cc
  subscriber-start _ m e = cc

  subscriber-stop :
      (t : MessageType) (m : MessageSubscriber sub) {s : sub.State}
      → subscriber t m ≡ some s
      → subscriber t (stop sub m) ≡ some (sub.stop s)
  unfolding stop
  subscriber-stop address m e = cc
  subscriber-stop _ m e = cc

  subscriber-subscribe :
      (t : MessageType) (h : Handler) (m : MessageSubscriber sub) {s : sub.State}
      → subscriber t m ≡ some s
      → subscriber t (subscribe sub t h m) ≡ some (sub.subscribe h (channel_stopped, none) s)
  unfolding subscribe
  subscriber-subscribe address h m e = cc
  subscriber-subscribe _ h m e = cc

  -- After `stop` and `broadcast` the subscriber of every type of message is stopped and has no handler
  -- left; each handler that waited was called once, with the code and no message.
  pub broadcast-stop :
      (t : MessageType) (ec : Code) (m : MessageSubscriber sub) {s : sub.State}
      → subscriber t m ≡ some s
      → (s' : sub.State) × (subscriber t (broadcast sub ec (stop sub m)) ≡ some s')
        × (sub.is_stopped s' ≡ true)
        × (sub.waiting s' ≡ [])
        × (sub.calls s' ≡ sub.calls s ++ map (λ h. (h, (ec, none))) (sub.waiting s))
  broadcast-stop t ec m {s} e = (
    sub.relay (ec, none) (sub.stop s),
    subscriber-broadcast t ec (stop sub m) (subscriber-stop t m e),
    ground (arith, sub.relay_lem (ec, none) (sub.stop s), sub.stop_lem s),
    ground (arith, sub.relay_lem (ec, none) (sub.stop s), sub.stop_lem s),
    rw ((sub.relay_lem (ec, none) (sub.stop s)).2, (sub.stop_lem s).1, (sub.stop_lem s).2),
  )

  -- A handler that subscribes after `stop` is not kept: it is called at once, with the code of a stopped
  -- channel.
  pub subscribe-stop :
      (t : MessageType) (h : Handler) (m : MessageSubscriber sub) {s : sub.State}
      → subscriber t m ≡ some s
      → (s' : sub.State) × (subscriber t (subscribe sub t h (stop sub m)) ≡ some s')
        × (sub.waiting s' ≡ sub.waiting s)
        × (sub.calls s' ≡ sub.calls s ++ (h, (channel_stopped, none)) ∷ [])
  subscribe-stop t h m {s} e = (
    sub.subscribe h (channel_stopped, none) (sub.stop s),
    subscriber-subscribe t h (stop sub m) (subscriber-stop t m e),
    ground (arith, sub.subscribe_lem h (channel_stopped, none) (sub.stop s), sub.stop_lem s),
    ground (arith, sub.subscribe_lem h (channel_stopped, none) (sub.stop s), sub.stop_lem s),
  )

  -- A handler that subscribes after `start` waits for its message, behind those that came before.
  pub subscribe-start :
      (t : MessageType) (h : Handler) (m : MessageSubscriber sub) {s : sub.State}
      → subscriber t m ≡ some s
      → (s' : sub.State) × (subscriber t (subscribe sub t h (start sub m)) ≡ some s')
        × (sub.waiting s' ≡ sub.waiting s ++ h ∷ [])
        × (sub.calls s' ≡ sub.calls s)
  subscribe-start t h m {s} e = (
    sub.subscribe h (channel_stopped, none) (sub.start s),
    subscriber-subscribe t h (start sub m) (subscriber-start t m e),
    ground (arith, sub.subscribe_lem h (channel_stopped, none) (sub.start s), sub.start_lem s),
    ground (arith, sub.subscribe_lem h (channel_stopped, none) (sub.start s), sub.start_lem s),
  )
