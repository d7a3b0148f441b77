-- ===== src/Messages/Dispatch.antt =====
-- What reading a message does to its subscriber and to the others: src/message_subscriber.cpp, `load`.
use bitprim_network.Base.{ℕ, ◌≡◌, ◌≢◌, refl, List, ◌++◌, map, none, some, Option}
use bitprim_network.Code.{success, bad_stream}
use bitprim_network.Library.{Subscribers}
use bitprim_network.Messages.Kind.{
  MessageType, address, alert, block, block_transactions, compact_block, fee_filter, filter_add,
  filter_clear, filter_load, get_address, get_blocks, get_block_transactions, get_data, get_headers,
  headers, inventory, memory_pool, merkle_block, ping, pong, reject, send_compact, send_headers,
  transaction, verack, version, unknown,
}
use bitprim_network.Messages.{Notice, Parser, MessageSubscriber}
use bitprim_network.Messages.Load.{load, relay, handle, relayed, handled}
use bitprim_network.Messages.Lifecycle.{subscriber}

module _ {Message Handler : Type 0} (sub : Subscribers Handler (Notice Message))
    (from_data : Parser Message) where
  -- A message of a known type that does not parse reaches no handler and changes no subscriber;
  -- the caller is told `bad_stream` and gets what is left of the stream.
  pub load-bad_stream :
      (t : MessageType) (v : ℕ) (stream rest : List ℕ) (m : MessageSubscriber sub)
      → t ≢ unknown
      → from_data t v stream ≡ (none, rest)
      → load sub from_data t v stream m ≡ (bad_stream, m, rest)
  unfolding load relay handle
  load-bad_stream address v stream rest m known e = rw (e, relayed)
  load-bad_stream unknown v stream rest m known e = absurd (known refl)
  load-bad_stream block v stream rest m known e = rw (e, handled)
  load-bad_stream transaction v stream rest m known e = rw (e, handled)
  load-bad_stream verack v stream rest m known e = rw (e, handled)
  load-bad_stream version v stream rest m known e = rw (e, handled)
  load-bad_stream _ v stream rest m known e = rw (e, relayed)

  -- A message that parses is delivered to each handler that waits for its type, once and with the code
  -- of success; the caller gets that code and what is left of the stream.
  pub load-success :
      (t : MessageType) (v : ℕ) (stream rest : List ℕ) (message : Message)
      (m : MessageSubscriber sub) {s : sub.State}
      → subscriber sub t m ≡ some s
      → from_data t v stream ≡ (some message, rest)
      → (s' : sub.State) × (sub.calls s'
          ≡ sub.calls s ++ map (λ h. (h, (success, some message))) (sub.waiting s))
        × ((load sub from_data t v stream m).0 ≡ success)
        × ((load sub from_data t v stream m).2 ≡ rest)
        × (subscriber sub t (load sub from_data t v stream m).1 ≡ some s')
  unfolding load relay handle
  load-success unknown v stream rest message m e d = absurd (cc)
  load-success block v stream rest message m {s} e d =
      rw (d, handled)
        (
          sub.invoke (success, some message) s,
          (sub.invoke_lem (success, some message) s).2,
          refl,
          refl,
          cc,
        )
  load-success transaction v stream rest message m {s} e d =
      rw (d, handled)
        (
          sub.invoke (success, some message) s,
          (sub.invoke_lem (success, some message) s).2,
          refl,
          refl,
          cc,
        )
  load-success verack v stream rest message m {s} e d =
      rw (d, handled)
        (
          sub.invoke (success, some message) s,
          (sub.invoke_lem (success, some message) s).2,
          refl,
          refl,
          cc,
        )
  load-success version v stream rest message m {s} e d =
      rw (d, handled)
        (
          sub.invoke (success, some message) s,
          (sub.invoke_lem (success, some message) s).2,
          refl,
          refl,
          cc,
        )
  load-success _ v stream rest message m {s} e d =
      rw (d, relayed)
        (
          sub.relay (success, some message) s,
          (sub.relay_lem (success, some message) s).2,
          refl,
          refl,
          cc,
        )

  -- Whatever is read, the subscribers of every type but that of the message stay as they were.
  pub load-other :
      (t u : MessageType) (v : ℕ) (stream : List ℕ) (m : MessageSubscriber sub)
      → t ≢ u
      → subscriber sub u (load sub from_data t v stream m).1 ≡ subscriber sub u m
  unfolding load
  load-other unknown u v stream m ne = refl
  load-other address address v stream m ne = absurd (ne refl)
  load-other alert alert v stream m ne = absurd (ne refl)
  load-other block block v stream m ne = absurd (ne refl)
  load-other block_transactions block_transactions v stream m ne = absurd (ne refl)
  load-other compact_block compact_block v stream m ne = absurd (ne refl)
  load-other fee_filter fee_filter v stream m ne = absurd (ne refl)
  load-other filter_add filter_add v stream m ne = absurd (ne refl)
  load-other filter_clear filter_clear v stream m ne = absurd (ne refl)
  load-other filter_load filter_load v stream m ne = absurd (ne refl)
  load-other get_address get_address v stream m ne = absurd (ne refl)
  load-other get_blocks get_blocks v stream m ne = absurd (ne refl)
  load-other get_block_transactions get_block_transactions v stream m ne = absurd (ne refl)
  load-other get_data get_data v stream m ne = absurd (ne refl)
  load-other get_headers get_headers v stream m ne = absurd (ne refl)
  load-other headers headers v stream m ne = absurd (ne refl)
  load-other inventory inventory v stream m ne = absurd (ne refl)
  load-other memory_pool memory_pool v stream m ne = absurd (ne refl)
  load-other merkle_block merkle_block v stream m ne = absurd (ne refl)
  load-other MessageType.not_found MessageType.not_found v stream m ne = absurd (ne refl)
  load-other ping ping v stream m ne = absurd (ne refl)
  load-other pong pong v stream m ne = absurd (ne refl)
  load-other reject reject v stream m ne = absurd (ne refl)
  load-other send_compact send_compact v stream m ne = absurd (ne refl)
  load-other send_headers send_headers v stream m ne = absurd (ne refl)
  load-other transaction transaction v stream m ne = absurd (ne refl)
  load-other verack verack v stream m ne = absurd (ne refl)
  load-other version version v stream m ne = absurd (ne refl)
  load-other _ _ v stream m ne = refl

  -- What a message that was read does to the subscriber of its type: nothing if it does not parse, and else
  -- each handler that waits is called with it, once.
  abbrev pub Notifies : Option Message → sub.State → sub.State → Type 0
  Notifies none s s' = s' ≡ s
  Notifies (some message) s s' =
      sub.calls s' ≡ sub.calls s ++ map (λ h. (h, (success, some message))) (sub.waiting s)

  -- The outcome of `load` for one type, and for another.
  abbrev pub Loads :
      MessageType
      → MessageType
      → ℕ
      → List ℕ
      → MessageSubscriber sub
      → sub.State
      → Option Message × List ℕ
      → Type 0
  Loads t u v stream m s (read, left) =
      let (ec, m', rest) = load sub from_data t v stream m in
      (ec ≡ elim read [ none ↦ bad_stream | some message ↦ success ])
      × (rest ≡ left)
      × ((s' : sub.State) × (subscriber sub t m' ≡ some s') × Notifies read s s')
      × (subscriber sub u m' ≡ subscriber sub u m)

  known-subscriber :
      (t : MessageType) (m : MessageSubscriber sub) {s : sub.State}
      → subscriber sub t m ≡ some s
      → t ≢ unknown
  known-subscriber unknown m e same = absurd (cc)
  known-subscriber _ m e same = absurd (cc)

  read-Loads :
      (t u : MessageType) (v : ℕ) (stream : List ℕ) (m : MessageSubscriber sub) {s : sub.State}
      (read : Option Message × List ℕ)
      → subscriber sub t m ≡ some s
      → t ≢ u
      → from_data t v stream ≡ read
      → Loads t u v stream m s read
  read-Loads t u v stream m {s} (none, left) e ne d =
      let b = load-bad_stream t v stream left m (known-subscriber t m e) d in
      rw b (refl, refl, (s, e, refl), refl)
  read-Loads t u v stream m {s} (some message, left) e ne d =
      let (s', calls, ec, rest, at) = load-success t v stream left message m e d in
      (ec, rest, (s', at, calls), load-other t u v stream m ne)

  -- Reading a message of a type that has a subscriber. If it parses, then each handler that waits for its
  -- type is called with it and the code of success, once, which is also the code that the caller
  -- gets; if not, then no handler is called, the subscriber stays as it was, and the caller gets
  -- `bad_stream`. Either way the caller gets what is left of the stream, and the subscriber of any other
  -- type stays as it was.
  pub load_lem :
      (t u : MessageType) (v : ℕ) (stream : List ℕ) (m : MessageSubscriber sub) {s : sub.State}
      → subscriber sub t m ≡ some s
      → t ≢ u
      → Loads t u v stream m s (from_data t v stream)
  load_lem t u v stream m e ne = read-Loads t u v stream m (from_data t v stream) e ne refl
