-- ===== src/Messages/Notices.antt =====
-- What the handlers of messages are called with: src/message_subscriber.cpp.
use bitprim_network.Base.{
  ℕ, ◌≡◌, refl, List, [], ◌∷◌, ◌++◌, map, Option, none, some, All, All-append, if-both,
}
use bitprim_network.Code.{success, channel_stopped}
use bitprim_network.Library.{Subscribers}
use bitprim_network.Messages.Kind.{
  MessageType, address, alert, block, block_transactions, compact_block, fee_filter, filter_add,
  filter_clear, filter_load, get_address, get_blocks, get_block_transactions, get_data, get_headers,
  headers, inventory, memory_pool, merkle_block, ping, pong, reject, send_compact, send_headers,
  transaction, verack, version, unknown,
}
use bitprim_network.Messages.{
  Notice, Parser, MessageSubscriber, construct, broadcast, start, stop, subscribe,
}
use bitprim_network.Messages.Lifecycle.{subscriber}
use bitprim_network.Messages.Load.{load, relay, handle, relayed, handled}

-- There is a message exactly with success; without one the channel has stopped.
abbrev pub IsSafe : {Message : Type 0} → Notice Message → Type 0
IsSafe (ec, none) = ec ≡ channel_stopped
IsSafe (ec, some message) = ec ≡ success

module _ {Message Handler : Type 0} (sub : Subscribers Handler (Notice Message)) where
  -- So were all calls that a subscriber has made, where there is one.
  abbrev pub AreSafe : Option sub.State → Type 0
  AreSafe none = Unit
  AreSafe (some s) = All (λ call. IsSafe call.1) (sub.calls s)

  All-notified :
      (n : Notice Message) (hs : List Handler)
      → IsSafe n
      → All (λ (call : Handler × Notice Message). IsSafe call.1) (map (λ h. (h, n)) hs)
  All-notified n [] safe = tt
  All-notified n (h ∷ hs) safe = (safe, All-notified n hs safe)

  AreSafe-moved :
      (s t : sub.State) (more : List (Handler × Notice Message))
      → sub.calls t ≡ sub.calls s ++ more
      → All (λ call. IsSafe call.1) more
      → AreSafe (some s)
      → AreSafe (some t)
  AreSafe-moved s t more e new v =
      rw e (All-append (λ call. IsSafe call.1) (sub.calls s) more v new)

  relay-AreSafe :
      (n : Notice Message) (s : sub.State)
      → IsSafe n
      → AreSafe (some s)
      → AreSafe (some (sub.relay n s))
  relay-AreSafe n s safe v =
      AreSafe-moved s _ _ ((sub.relay_lem n s).2) (All-notified n (sub.waiting s) safe) v

  invoke-AreSafe :
      (n : Notice Message) (s : sub.State)
      → IsSafe n
      → AreSafe (some s)
      → AreSafe (some (sub.invoke n s))
  invoke-AreSafe n s safe v =
      AreSafe-moved s _ _ ((sub.invoke_lem n s).2) (All-notified n (sub.waiting s) safe) v

  subscribe-AreSafe :
      (h : Handler) (s : sub.State)
      → AreSafe (some s)
      → AreSafe (some (sub.subscribe h (channel_stopped, none) s))
  subscribe-AreSafe h s v = rw ((sub.subscribe_lem h (channel_stopped, none) s).2) (
      if-both (All (λ call. IsSafe call.1)) (sub.is_stopped s)
        (λ _. All-append (λ call. IsSafe call.1) (sub.calls s) _ v (refl, tt)) (λ _. v))

  pub construct-AreSafe : (t : MessageType) → AreSafe (subscriber sub t (construct sub))
  unfolding construct
  construct-AreSafe unknown = tt
  construct-AreSafe _ = rw (sub.create_lem.2) tt

  pub broadcast-AreSafe :
      (t : MessageType) (m : MessageSubscriber sub)
      → AreSafe (subscriber sub t m)
      → AreSafe (subscriber sub t (broadcast sub channel_stopped m))
  unfolding broadcast
  broadcast-AreSafe unknown m v = tt
  broadcast-AreSafe _ m v = relay-AreSafe (channel_stopped, none) _ refl v

  pub start-AreSafe :
      (t : MessageType) (m : MessageSubscriber sub)
      → AreSafe (subscriber sub t m)
      → AreSafe (subscriber sub t (start sub m))
  unfolding start
  start-AreSafe unknown m v = tt
  start-AreSafe _ m v = rw ((sub.start_lem _).2) v

  pub stop-AreSafe :
      (t : MessageType) (m : MessageSubscriber sub)
      → AreSafe (subscriber sub t m)
      → AreSafe (subscriber sub t (stop sub m))
  unfolding stop
  stop-AreSafe unknown m v = tt
  stop-AreSafe _ m v = rw ((sub.stop_lem _).2) v

  pub subscribe-AreSafe_of :
      (u t : MessageType) (h : Handler) (m : MessageSubscriber sub)
      → AreSafe (subscriber sub t m)
      → AreSafe (subscriber sub t (subscribe sub u h m))
  unfolding subscribe
  subscribe-AreSafe_of address address h m v = subscribe-AreSafe h _ v
  subscribe-AreSafe_of alert alert h m v = subscribe-AreSafe h _ v
  subscribe-AreSafe_of block block h m v = subscribe-AreSafe h _ v
  subscribe-AreSafe_of block_transactions block_transactions h m v = subscribe-AreSafe h _ v
  subscribe-AreSafe_of compact_block compact_block h m v = subscribe-AreSafe h _ v
  subscribe-AreSafe_of fee_filter fee_filter h m v = subscribe-AreSafe h _ v
  subscribe-AreSafe_of filter_add filter_add h m v = subscribe-AreSafe h _ v
  subscribe-AreSafe_of filter_clear filter_clear h m v = subscribe-AreSafe h _ v
  subscribe-AreSafe_of filter_load filter_load h m v = subscribe-AreSafe h _ v
  subscribe-AreSafe_of get_address get_address h m v = subscribe-AreSafe h _ v
  subscribe-AreSafe_of get_blocks get_blocks h m v = subscribe-AreSafe h _ v
  subscribe-AreSafe_of get_block_transactions get_block_transactions h m v = subscribe-AreSafe h _ v
  subscribe-AreSafe_of get_data get_data h m v = subscribe-AreSafe h _ v
  subscribe-AreSafe_of get_headers get_headers h m v = subscribe-AreSafe h _ v
  subscribe-AreSafe_of headers headers h m v = subscribe-AreSafe h _ v
  subscribe-AreSafe_of inventory inventory h m v = subscribe-AreSafe h _ v
  subscribe-AreSafe_of memory_pool memory_pool h m v = subscribe-AreSafe h _ v
  subscribe-AreSafe_of merkle_block merkle_block h m v = subscribe-AreSafe h _ v
  subscribe-AreSafe_of MessageType.not_found MessageType.not_found h m v = subscribe-AreSafe h _ v
  subscribe-AreSafe_of ping ping h m v = subscribe-AreSafe h _ v
  subscribe-AreSafe_of pong pong h m v = subscribe-AreSafe h _ v
  subscribe-AreSafe_of reject reject h m v = subscribe-AreSafe h _ v
  subscribe-AreSafe_of send_compact send_compact h m v = subscribe-AreSafe h _ v
  subscribe-AreSafe_of send_headers send_headers h m v = subscribe-AreSafe h _ v
  subscribe-AreSafe_of transaction transaction h m v = subscribe-AreSafe h _ v
  subscribe-AreSafe_of verack verack h m v = subscribe-AreSafe h _ v
  subscribe-AreSafe_of version version h m v = subscribe-AreSafe h _ v
  subscribe-AreSafe_of _ _ h m v = v

  module _ (from_data : Parser Message) where
    relayed-AreSafe :
        (s : sub.State) (read : Option Message × List ℕ)
        → AreSafe (some s)
        → AreSafe (some ((relayed sub from_data s read).1))
    relayed-AreSafe s (none, rest) v = v
    relayed-AreSafe s (some message, rest) v = relay-AreSafe (success, some message) s refl v

    handled-AreSafe :
        (s : sub.State) (read : Option Message × List ℕ)
        → AreSafe (some s)
        → AreSafe (some ((handled sub from_data s read).1))
    handled-AreSafe s (none, rest) v = v
    handled-AreSafe s (some message, rest) v = invoke-AreSafe (success, some message) s refl v

    pub load-AreSafe :
        (u t : MessageType) (value : ℕ) (stream : List ℕ) (m : MessageSubscriber sub)
        → AreSafe (subscriber sub t m)
        → AreSafe (subscriber sub t (load sub from_data u value stream m).1)
    unfolding load relay handle
    load-AreSafe address address value stream m v =
        relayed-AreSafe _ (from_data address value stream) v
    load-AreSafe alert alert value stream m v = relayed-AreSafe _ (from_data alert value stream) v
    load-AreSafe block block value stream m v = handled-AreSafe _ (from_data block value stream) v
    load-AreSafe block_transactions block_transactions value stream m v =
        relayed-AreSafe _ (from_data block_transactions value stream) v
    load-AreSafe compact_block compact_block value stream m v =
        relayed-AreSafe _ (from_data compact_block value stream) v
    load-AreSafe fee_filter fee_filter value stream m v =
        relayed-AreSafe _ (from_data fee_filter value stream) v
    load-AreSafe filter_add filter_add value stream m v =
        relayed-AreSafe _ (from_data filter_add value stream) v
    load-AreSafe filter_clear filter_clear value stream m v =
        relayed-AreSafe _ (from_data filter_clear value stream) v
    load-AreSafe filter_load filter_load value stream m v =
        relayed-AreSafe _ (from_data filter_load value stream) v
    load-AreSafe get_address get_address value stream m v =
        relayed-AreSafe _ (from_data get_address value stream) v
    load-AreSafe get_blocks get_blocks value stream m v =
        relayed-AreSafe _ (from_data get_blocks value stream) v
    load-AreSafe get_block_transactions get_block_transactions value stream m v =
        relayed-AreSafe _ (from_data get_block_transactions value stream) v
    load-AreSafe get_data get_data value stream m v =
        relayed-AreSafe _ (from_data get_data value stream) v
    load-AreSafe get_headers get_headers value stream m v =
        relayed-AreSafe _ (from_data get_headers value stream) v
    load-AreSafe headers headers value stream m v =
        relayed-AreSafe _ (from_data headers value stream) v
    load-AreSafe inventory inventory value stream m v =
        relayed-AreSafe _ (from_data inventory value stream) v
    load-AreSafe memory_pool memory_pool value stream m v =
        relayed-AreSafe _ (from_data memory_pool value stream) v
    load-AreSafe merkle_block merkle_block value stream m v =
        relayed-AreSafe _ (from_data merkle_block value stream) v
    load-AreSafe MessageType.not_found MessageType.not_found value stream m v =
        relayed-AreSafe _ (from_data MessageType.not_found value stream) v
    load-AreSafe ping ping value stream m v = relayed-AreSafe _ (from_data ping value stream) v
    load-AreSafe pong pong value stream m v = relayed-AreSafe _ (from_data pong value stream) v
    load-AreSafe reject reject value stream m v =
        relayed-AreSafe _ (from_data reject value stream) v
    load-AreSafe send_compact send_compact value stream m v =
        relayed-AreSafe _ (from_data send_compact value stream) v
    load-AreSafe send_headers send_headers value stream m v =
        relayed-AreSafe _ (from_data send_headers value stream) v
    load-AreSafe transaction transaction value stream m v =
        handled-AreSafe _ (from_data transaction value stream) v
    load-AreSafe verack verack value stream m v =
        handled-AreSafe _ (from_data verack value stream) v
    load-AreSafe version version value stream m v =
        handled-AreSafe _ (from_data version value stream) v
    load-AreSafe _ _ value stream m v = v
