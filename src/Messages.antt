-- ===== src/Messages.antt =====
-- The subscribers of a channel, one for each type of message: src/message_subscriber.cpp and
-- include/bitcoin/network/message_subscriber.hpp.
--
-- `subscriber`s and the parsers of the messages are libbitcoin's: the first are the record
-- `Subscribers` of the module `Library`, the second is the argument `from_data`.
pub mod Kind
pub mod Lifecycle
pub mod Load
pub mod Dispatch
pub mod Notices
mod Examples
use bitprim_network.Base.{ℕ, Bool, List, Option, none, some}
use bitprim_network.Code.{Code, channel_stopped}
use bitprim_network.Library.{Subscribers}
use Kind.{
  MessageType, address, alert, block, block_transactions, compact_block, fee_filter, filter_add,
  filter_clear, filter_load, get_address, get_blocks, get_block_transactions, get_data, get_headers,
  headers, inventory, memory_pool, merkle_block, ping, pong, reject, send_compact, send_headers,
  transaction, verack, version, unknown,
}

-- What a handler of messages is called with: `(const code&, message::value::const_ptr)`.
abbrev pub Notice : Type 0 → Type 0
Notice Message = Code × Option Message

-- A message read from a stream, if it is well formed, and the bytes that are left.
abbrev pub Parser : Type 0 → Type 0
Parser Message = MessageType → ℕ → List ℕ → Option Message × List ℕ

module _ {Message Handler : Type 0} (sub : Subscribers Handler (Notice Message)) where
  pub record MessageSubscriber : Type 0 where
    pub address_subscriber : sub.State
    pub alert_subscriber : sub.State
    pub block_subscriber : sub.State
    pub block_transactions_subscriber : sub.State
    pub compact_block_subscriber : sub.State
    pub fee_filter_subscriber : sub.State
    pub filter_add_subscriber : sub.State
    pub filter_clear_subscriber : sub.State
    pub filter_load_subscriber : sub.State
    pub get_address_subscriber : sub.State
    pub get_blocks_subscriber : sub.State
    pub get_block_transactions_subscriber : sub.State
    pub get_data_subscriber : sub.State
    pub get_headers_subscriber : sub.State
    pub headers_subscriber : sub.State
    pub inventory_subscriber : sub.State
    pub memory_pool_subscriber : sub.State
    pub merkle_block_subscriber : sub.State
    pub not_found_subscriber : sub.State
    pub ping_subscriber : sub.State
    pub pong_subscriber : sub.State
    pub reject_subscriber : sub.State
    pub send_compact_subscriber : sub.State
    pub send_headers_subscriber : sub.State
    pub transaction_subscriber : sub.State
    pub verack_subscriber : sub.State
    pub version_subscriber : sub.State

  -- `message_subscriber::message_subscriber`
  unfoldable pub construct : MessageSubscriber
  construct = record {
    address_subscriber = sub.create;
    alert_subscriber = sub.create;
    block_subscriber = sub.create;
    block_transactions_subscriber = sub.create;
    compact_block_subscriber = sub.create;
    fee_filter_subscriber = sub.create;
    filter_add_subscriber = sub.create;
    filter_clear_subscriber = sub.create;
    filter_load_subscriber = sub.create;
    get_address_subscriber = sub.create;
    get_blocks_subscriber = sub.create;
    get_block_transactions_subscriber = sub.create;
    get_data_subscriber = sub.create;
    get_headers_subscriber = sub.create;
    headers_subscriber = sub.create;
    inventory_subscriber = sub.create;
    memory_pool_subscriber = sub.create;
    merkle_block_subscriber = sub.create;
    not_found_subscriber = sub.create;
    ping_subscriber = sub.create;
    pong_subscriber = sub.create;
    reject_subscriber = sub.create;
    send_compact_subscriber = sub.create;
    send_headers_subscriber = sub.create;
    transaction_subscriber = sub.create;
    verack_subscriber = sub.create;
    version_subscriber = sub.create;
  }

  -- `RELAY_CODE`
  abbrev relay_code : Code → sub.State → sub.State
  relay_code ec s = sub.relay (ec, none) s

  -- `message_subscriber::broadcast`
  unfoldable pub broadcast : Code → MessageSubscriber → MessageSubscriber
  broadcast ec m = record {
    address_subscriber = relay_code ec m.address_subscriber;
    alert_subscriber = relay_code ec m.alert_subscriber;
    block_subscriber = relay_code ec m.block_subscriber;
    block_transactions_subscriber = relay_code ec m.block_transactions_subscriber;
    compact_block_subscriber = relay_code ec m.compact_block_subscriber;
    fee_filter_subscriber = relay_code ec m.fee_filter_subscriber;
    filter_add_subscriber = relay_code ec m.filter_add_subscriber;
    filter_clear_subscriber = relay_code ec m.filter_clear_subscriber;
    filter_load_subscriber = relay_code ec m.filter_load_subscriber;
    get_address_subscriber = relay_code ec m.get_address_subscriber;
    get_blocks_subscriber = relay_code ec m.get_blocks_subscriber;
    get_block_transactions_subscriber = relay_code ec m.get_block_transactions_subscriber;
    get_data_subscriber = relay_code ec m.get_data_subscriber;
    get_headers_subscriber = relay_code ec m.get_headers_subscriber;
    headers_subscriber = relay_code ec m.headers_subscriber;
    inventory_subscriber = relay_code ec m.inventory_subscriber;
    memory_pool_subscriber = relay_code ec m.memory_pool_subscriber;
    merkle_block_subscriber = relay_code ec m.merkle_block_subscriber;
    not_found_subscriber = relay_code ec m.not_found_subscriber;
    ping_subscriber = relay_code ec m.ping_subscriber;
    pong_subscriber = relay_code ec m.pong_subscriber;
    reject_subscriber = relay_code ec m.reject_subscriber;
    send_compact_subscriber = relay_code ec m.send_compact_subscriber;
    send_headers_subscriber = relay_code ec m.send_headers_subscriber;
    transaction_subscriber = relay_code ec m.transaction_subscriber;
    verack_subscriber = relay_code ec m.verack_subscriber;
    version_subscriber = relay_code ec m.version_subscriber;
  }

  -- `message_subscriber::start`
  unfoldable pub start : MessageSubscriber → MessageSubscriber
  start m = record {
    address_subscriber = sub.start m.address_subscriber;
    alert_subscriber = sub.start m.alert_subscriber;
    block_subscriber = sub.start m.block_subscriber;
    block_transactions_subscriber = sub.start m.block_transactions_subscriber;
    compact_block_subscriber = sub.start m.compact_block_subscriber;
    fee_filter_subscriber = sub.start m.fee_filter_subscriber;
    filter_add_subscriber = sub.start m.filter_add_subscriber;
    filter_clear_subscriber = sub.start m.filter_clear_subscriber;
    filter_load_subscriber = sub.start m.filter_load_subscriber;
    get_address_subscriber = sub.start m.get_address_subscriber;
    get_blocks_subscriber = sub.start m.get_blocks_subscriber;
    get_block_transactions_subscriber = sub.start m.get_block_transactions_subscriber;
    get_data_subscriber = sub.start m.get_data_subscriber;
    get_headers_subscriber = sub.start m.get_headers_subscriber;
    headers_subscriber = sub.start m.headers_subscriber;
    inventory_subscriber = sub.start m.inventory_subscriber;
    memory_pool_subscriber = sub.start m.memory_pool_subscriber;
    merkle_block_subscriber = sub.start m.merkle_block_subscriber;
    not_found_subscriber = sub.start m.not_found_subscriber;
    ping_subscriber = sub.start m.ping_subscriber;
    pong_subscriber = sub.start m.pong_subscriber;
    reject_subscriber = sub.start m.reject_subscriber;
    send_compact_subscriber = sub.start m.send_compact_subscriber;
    send_headers_subscriber = sub.start m.send_headers_subscriber;
    transaction_subscriber = sub.start m.transaction_subscriber;
    verack_subscriber = sub.start m.verack_subscriber;
    version_subscriber = sub.start m.version_subscriber;
  }

  -- `message_subscriber::stop`
  unfoldable pub stop : MessageSubscriber → MessageSubscriber
  stop m = record {
    address_subscriber = sub.stop m.address_subscriber;
    alert_subscriber = sub.stop m.alert_subscriber;
    block_subscriber = sub.stop m.block_subscriber;
    block_transactions_subscriber = sub.stop m.block_transactions_subscriber;
    compact_block_subscriber = sub.stop m.compact_block_subscriber;
    fee_filter_subscriber = sub.stop m.fee_filter_subscriber;
    filter_add_subscriber = sub.stop m.filter_add_subscriber;
    filter_clear_subscriber = sub.stop m.filter_clear_subscriber;
    filter_load_subscriber = sub.stop m.filter_load_subscriber;
    get_address_subscriber = sub.stop m.get_address_subscriber;
    get_blocks_subscriber = sub.stop m.get_blocks_subscriber;
    get_block_transactions_subscriber = sub.stop m.get_block_transactions_subscriber;
    get_data_subscriber = sub.stop m.get_data_subscriber;
    get_headers_subscriber = sub.stop m.get_headers_subscriber;
    headers_subscriber = sub.stop m.headers_subscriber;
    inventory_subscriber = sub.stop m.inventory_subscriber;
    memory_pool_subscriber = sub.stop m.memory_pool_subscriber;
    merkle_block_subscriber = sub.stop m.merkle_block_subscriber;
    not_found_subscriber = sub.stop m.not_found_subscriber;
    ping_subscriber = sub.stop m.ping_subscriber;
    pong_subscriber = sub.stop m.pong_subscriber;
    reject_subscriber = sub.stop m.reject_subscriber;
    send_compact_subscriber = sub.stop m.send_compact_subscriber;
    send_headers_subscriber = sub.stop m.send_headers_subscriber;
    transaction_subscriber = sub.stop m.transaction_subscriber;
    verack_subscriber = sub.stop m.verack_subscriber;
    version_subscriber = sub.stop m.version_subscriber;
  }

  -- `message_subscriber::subscribe`, by the type of the message: `DEFINE_SUBSCRIBER_OVERLOAD`. There is
  -- no overload for an unknown type.
  unfoldable pub subscribe : MessageType → Handler → MessageSubscriber → MessageSubscriber
  subscribe address h m = record m {
    address_subscriber = sub.subscribe h (channel_stopped, none) m.address_subscriber;
  }
  subscribe alert h m = record m {
    alert_subscriber = sub.subscribe h (channel_stopped, none) m.alert_subscriber;
  }
  subscribe block h m = record m {
    block_subscriber = sub.subscribe h (channel_stopped, none) m.block_subscriber;
  }
  subscribe block_transactions h m = record m {
    block_transactions_subscriber =
        sub.subscribe h (channel_stopped, none) m.block_transactions_subscriber;
  }
  subscribe compact_block h m = record m {
    compact_block_subscriber = sub.subscribe h (channel_stopped, none) m.compact_block_subscriber;
  }
  subscribe fee_filter h m = record m {
    fee_filter_subscriber = sub.subscribe h (channel_stopped, none) m.fee_filter_subscriber;
  }
  subscribe filter_add h m = record m {
    filter_add_subscriber = sub.subscribe h (channel_stopped, none) m.filter_add_subscriber;
  }
  subscribe filter_clear h m = record m {
    filter_clear_subscriber = sub.subscribe h (channel_stopped, none) m.filter_clear_subscriber;
  }
  subscribe filter_load h m = record m {
    filter_load_subscriber = sub.subscribe h (channel_stopped, none) m.filter_load_subscriber;
  }
  subscribe get_address h m = record m {
    get_address_subscriber = sub.subscribe h (channel_stopped, none) m.get_address_subscriber;
  }
  subscribe get_blocks h m = record m {
    get_blocks_subscriber = sub.subscribe h (channel_stopped, none) m.get_blocks_subscriber;
  }
  subscribe get_block_transactions h m = record m {
    get_block_transactions_subscriber =
        sub.subscribe h (channel_stopped, none) m.get_block_transactions_subscriber;
  }
  subscribe get_data h m = record m {
    get_data_subscriber = sub.subscribe h (channel_stopped, none) m.get_data_subscriber;
  }
  subscribe get_headers h m = record m {
    get_headers_subscriber = sub.subscribe h (channel_stopped, none) m.get_headers_subscriber;
  }
  subscribe headers h m = record m {
    headers_subscriber = sub.subscribe h (channel_stopped, none) m.headers_subscriber;
  }
  subscribe inventory h m = record m {
    inventory_subscriber = sub.subscribe h (channel_stopped, none) m.inventory_subscriber;
  }
  subscribe memory_pool h m = record m {
    memory_pool_subscriber = sub.subscribe h (channel_stopped, none) m.memory_pool_subscriber;
  }
  subscribe merkle_block h m = record m {
    merkle_block_subscriber = sub.subscribe h (channel_stopped, none) m.merkle_block_subscriber;
  }
  subscribe MessageType.not_found h m = record m {
    not_found_subscriber = sub.subscribe h (channel_stopped, none) m.not_found_subscriber;
  }
  subscribe ping h m = record m {
    ping_subscriber = sub.subscribe h (channel_stopped, none) m.ping_subscriber;
  }
  subscribe pong h m = record m {
    pong_subscriber = sub.subscribe h (channel_stopped, none) m.pong_subscriber;
  }
  subscribe reject h m = record m {
    reject_subscriber = sub.subscribe h (channel_stopped, none) m.reject_subscriber;
  }
  subscribe send_compact h m = record m {
    send_compact_subscriber = sub.subscribe h (channel_stopped, none) m.send_compact_subscriber;
  }
  subscribe send_headers h m = record m {
    send_headers_subscriber = sub.subscribe h (channel_stopped, none) m.send_headers_subscriber;
  }
  subscribe transaction h m = record m {
    transaction_subscriber = sub.subscribe h (channel_stopped, none) m.transaction_subscriber;
  }
  subscribe verack h m = record m {
    verack_subscriber = sub.subscribe h (channel_stopped, none) m.verack_subscriber;
  }
  subscribe version h m = record m {
    version_subscriber = sub.subscribe h (channel_stopped, none) m.version_subscriber;
  }
  subscribe unknown h m = m
