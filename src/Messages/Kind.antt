-- ===== src/Messages/Kind.antt =====
-- The types of messages that a peer can send: the subscribers that
-- include/bitcoin/network/message_subscriber.hpp declares, and `message_type::unknown`.

pub data MessageType : Type 0 where
  address alert block block_transactions compact_block : MessageType
  fee_filter filter_add filter_clear filter_load get_address : MessageType
  get_blocks get_block_transactions get_data get_headers headers : MessageType
  inventory memory_pool merkle_block not_found ping : MessageType
  pong reject send_compact send_headers transaction : MessageType
  verack version : MessageType
  unknown : MessageType
