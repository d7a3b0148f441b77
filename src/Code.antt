-- ===== src/Code.antt =====
-- The error codes that the program names (`error::…` of libbitcoin) and its tests of them. A code
-- of the operating system or of boost that has no such name is `other`.
use bitprim_network.Base.{ℕ, Bool, true, false, ◌||◌}

pub data Code : Type 0 where
  success service_stopped operation_failed not_found file_system : Code
  channel_stopped channel_timeout bad_stream : Code
  resolve_failed accept_failed address_in_use address_blocked peer_throttling : Code
  other : ℕ → Code

-- `if (ec)`
abbrev pub is_error : Code → Bool
is_error success = false
is_error _ = true

-- `ec == error::channel_stopped`
abbrev pub is_channel_stopped : Code → Bool
is_channel_stopped channel_stopped = true
is_channel_stopped _ = false

-- `ec == error::service_stopped`
abbrev pub is_service_stopped : Code → Bool
is_service_stopped service_stopped = true
is_service_stopped _ = false

-- `ec == error::channel_timeout`
abbrev pub is_channel_timeout : Code → Bool
is_channel_timeout channel_timeout = true
is_channel_timeout _ = false

-- `ec == error::address_in_use`
abbrev pub is_address_in_use : Code → Bool
is_address_in_use address_in_use = true
is_address_in_use _ = false

-- A code by which the channel or the service says that it has stopped.
abbrev pub is_stop_code : Code → Bool
is_stop_code ec = is_channel_stopped ec || is_service_stopped ec
