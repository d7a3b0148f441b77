-- ===== src/Messages/Load.antt =====
-- Reading a message and notifying its subscribers: src/message_subscriber.cpp, `load`, and the
-- templates `relay` and `handle` of include/bitcoin/network/message_subscriber.hpp.
use bitprim_network.Base.{ℕ, List, Option, none, some}
use bitprim_network.Code.{Code, success, bad_stream}
use bitprim_network.Library.{Subscribers}
use bitprim_network.Messages.Kind.{
  MessageType, address, alert, block, block_transactions, compact_block, fee_filter, filter_add,
  filter_clear, filter_load, get_address, get_blocks, get_block_transactions, get_data, get_headers,
  headers, inventory, memory_pool, merkle_block, ping, pong, reject, send_compact, send_headers,
  transaction, verack, version, unknown,
}
use bitprim_network.Messages.{Notice, Parser, MessageSubscriber}

module _ {Message Handler : Type 0} (sub : Subscribers Handler (Notice Message))
    (from_data : Parser Message) where
  abbrev pub relayed : sub.State → Option Message × List ℕ → Code × sub.State × List ℕ
  relayed s (none, rest) = (bad_stream, s, rest)
  relayed s (some message, rest) = (success, sub.relay (success, some message) s, rest)

  abbrev pub handled : sub.State → Option Message × List ℕ → Code × sub.State × List ℕ
  handled s (none, rest) = (bad_stream, s, rest)
  handled s (some message, rest) = (success, sub.invoke (success, some message) s, rest)

  -- The template `message_subscriber::relay<Message>`.
  unfoldable pub relay : MessageType → List ℕ → ℕ → sub.State → Code × sub.State × List ℕ
  relay type stream v s = relayed s (from_data type v stream)

  -- The template `message_subscriber::handle<Message>`.
  unfoldable pub handle : MessageType → List ℕ → ℕ → sub.State → Code × sub.State × List ℕ
  handle type stream v s = handled s (from_data type v stream)

  -- `message_subscriber::load`: the code, the subscribers after it, and the bytes that are left.
  unfoldable pub load :
      MessageType → ℕ → List ℕ → MessageSubscriber sub → Code × MessageSubscriber sub × List ℕ
  unfolding relay handle
  load address v stream m =
      let (ec, s, rest) = relay address stream v m.address_subscriber in
      (ec, record m { address_subscriber = s }, rest)
  load alert v stream m =
      let (ec, s, rest) = relay alert stream v m.alert_subscriber in
      (ec, record m { alert_subscriber = s }, rest)
  load block v stream m =
      let (ec, s, rest) = handle block stream v m.block_subscriber in
      (ec, record m { block_subscriber = s }, rest)
  load block_transactions v stream m =
      let (ec, s, rest) = relay block_transactions stream v m.block_transactions_subscriber in
      (ec, record m { block_transactions_subscriber = s }, rest)
  load compact_block v stream m =
      let (ec, s, rest) = relay compact_block stream v m.compact_block_subscriber in
      (ec, record m { compact_block_subscriber = s }, rest)
  load fee_filter v stream m =
      let (ec, s, rest) = relay fee_filter stream v m.fee_filter_subscriber in
      (ec, record m { fee_filter_subscriber = s }, rest)
  load filter_add v stream m =
      let (ec, s, rest) = relay filter_add stream v m.filter_add_subscriber in
      (ec, record m { filter_add_subscriber = s }, rest)
  load filter_clear v stream m =
      let (ec, s, rest) = relay filter_clear stream v m.filter_clear_subscriber in
      (ec, record m { filter_clear_subscriber = s }, rest)
  load filter_load v stream m =
      let (ec, s, rest) = relay filter_load stream v m.filter_load_subscriber in
      (ec, record m { filter_load_subscriber = s }, rest)
  load get_address v stream m =
      let (ec, s, rest) = relay get_address stream v m.get_address_subscriber in
      (ec, record m { get_address_subscriber = s }, rest)
  load get_blocks v stream m =
      let (ec, s, rest) = relay get_blocks stream v m.get_blocks_subscriber in
      (ec, record m { get_blocks_subscriber = s }, rest)
  load get_block_transactions v stream m =
      let (ec, s, rest) =
        relay get_block_transactions stream v m.get_block_transactions_subscriber in
      (ec, record m { get_block_transactions_subscriber = s }, rest)
  load get_data v stream m =
      let (ec, s, rest) = relay get_data stream v m.get_data_subscriber in
      (ec, record m { get_data_subscriber = s }, rest)
  load get_headers v stream m =
      let (ec, s, rest) = relay get_headers stream v m.get_headers_subscriber in
      (ec, record m { get_headers_subscriber = s }, rest)
  load headers v stream m =
      let (ec, s, rest) = relay headers stream v m.headers_subscriber in
      (ec, record m { headers_subscriber = s }, rest)
  load inventory v stream m =
      let (ec, s, rest) = relay inventory stream v m.inventory_subscriber in
      (ec, record m { inventory_subscriber = s }, rest)
  load memory_pool v stream m =
      let (ec, s, rest) = relay memory_pool stream v m.memory_pool_subscriber in
      (ec, record m { memory_pool_subscriber = s }, rest)
  load merkle_block v stream m =
      let (ec, s, rest) = relay merkle_block stream v m.merkle_block_subscriber in
      (ec, record m { merkle_block_subscriber = s }, rest)
  load MessageType.not_found v stream m =
      let (ec, s, rest) = relay MessageType.not_found stream v m.not_found_subscriber in
      (ec, record m { not_found_subscriber = s }, rest)
  load ping v stream m =
      let (ec, s, rest) = relay ping stream v m.ping_subscriber in
      (ec, record m { ping_subscriber = s }, rest)
  load pong v stream m =
      let (ec, s, rest) = relay pong stream v m.pong_subscriber in
      (ec, record m { pong_subscriber = s }, rest)
  load reject v stream m =
      let (ec, s, rest) = relay reject stream v m.reject_subscriber in
      (ec, record m { reject_subscriber = s }, rest)
  load send_compact v stream m =
      let (ec, s, rest) = relay send_compact stream v m.send_compact_subscriber in
      (ec, record m { send_compact_subscriber = s }, rest)
  load send_headers v stream m =
      let (ec, s, rest) = relay send_headers stream v m.send_headers_subscriber in
      (ec, record m { send_headers_subscriber = s }, rest)
  load transaction v stream m =
      let (ec, s, rest) = handle transaction stream v m.transaction_subscriber in
      (ec, record m { transaction_subscriber = s }, rest)
  load verack v stream m =
      let (ec, s, rest) = handle verack stream v m.verack_subscriber in
      (ec, record m { verack_subscriber = s }, rest)
  load version v stream m =
      let (ec, s, rest) = handle version stream v m.version_subscriber in
      (ec, record m { version_subscriber = s }, rest)
  load unknown v stream m = (Code.not_found, m, stream)
