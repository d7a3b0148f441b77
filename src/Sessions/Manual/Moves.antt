-- ===== src/Sessions/Manual/Moves.antt =====
-- What each step of a manual connection does to the handler and the connector of its caller:
-- src/sessions/session_manual.cpp.
use bitprim_network.Base.{
  ℕ, ◌+◌, ◌≡◌, refl, Bool, true, false, not, Option, none, some, ◌∷◌, ◌==◌, ltb, leb, count_by, All,
  arith, if◌then◌else◌, if-both,
}
use bitprim_network.Code.{Code, success, service_stopped, is_error, is_address_in_use}
use bitprim_network.Network
use bitprim_network.Network.{Link}
use bitprim_network.Sessions.{attaches_address}
use bitprim_network.Sessions.Manual.{
  Manual, ManualParts, ManualWait, ManualEvent, connecting, delaying, shaking, asks, does,
  start_connect, connect, attach_protocols, handle_channel_start, handle_channel_stop, handle_start,
  register_channel, handle_handshake, retry, handle_connect,
}

-- Whether there is a channel, which there is exactly with success.
abbrev pub IsTruthful : {A B : Type 0} → A × Code × Option B → Type 0
IsTruthful (handler, ec, none) = is_error ec ≡ true
IsTruthful (handler, ec, some channel) = is_error ec ≡ false

-- The handlers are told apart by a test on those of the callers, the connectors by another.
module _ (w : ManualParts) (p : w.Handler → Bool) (q : ℕ → Bool) where
  open w use {Endpoint, Handler, Address}

  abbrev pub by_caller : Option Handler → Bool
  by_caller none = false
  by_caller (some handler) = p handler

  -- Whether the wait holds a handler that passes the test.
  abbrev pub carries : ManualWait Endpoint Handler Address → Bool
  carries (connecting connector endpoint remaining handler) = by_caller handler
  carries (delaying endpoint attempts handler) = by_caller handler
  carries (shaking endpoint channel handler) = by_caller handler
  carries _ = false

  -- Whether the wait is for a connector that passes the test.
  abbrev pub waits_for : ManualWait Endpoint Handler Address → Bool
  waits_for (connecting connector endpoint remaining handler) = q connector
  waits_for _ = false

  abbrev pub asked : ManualEvent Endpoint Handler Address → Bool
  asked (asks endpoint handler) = by_caller handler
  asked _ = false

  -- The handlers that were called, dropped or are still held.
  abbrev pub held : Manual w → ℕ
  held s =
      count_by (λ c. by_caller c.0) s.calls
      + count_by by_caller s.dropped
      + count_by carries s.waits

  abbrev pub freed : Manual w → ℕ
  freed s = count_by q s.unpended + count_by waits_for s.waits

  -- The handlers are held that were, and so many more; no connector is lost.
  pub record Moves (k : ℕ) (s t : Manual w) : Type 0 where
    pub handlers : held t ≡ held s + k
    pub connectors : count_by q t.pended + freed s ≡ count_by q s.pended + freed t
    pub truthful : All IsTruthful s.calls → All IsTruthful t.calls

  abbrev pub one : Option Handler → ℕ
  one handler = if by_caller handler then 1 else 0

  pub start_connect-Moves :
      (ec : Code) (e : Endpoint) (attempts : ℕ) (h : Option Handler) (k : ℕ) (s t : Manual w)
      → Moves k s t
      → Moves (k + one h) s (start_connect w ec e attempts h t)
  unfolding start_connect
  start_connect-Moves ec e attempts h k s t v =
      if-both (Moves (k + one h) s) t.stopped
        (λ _. record {
          handlers = ground (arith, v.handlers);
          connectors = ground (arith, v.connectors);
          truthful = λ b. (refl, v.truthful b);
        })
        (λ _. record {
          handlers = ground (arith, v.handlers);
          connectors = ground (arith, v.connectors);
          truthful = v.truthful;
        })

  pub handle_channel_stop-Moves :
      (ec : Code) (e : Endpoint) (k : ℕ) (s t : Manual w)
      → Moves k s t
      → Moves k s (handle_channel_stop w ec e t)
  unfolding handle_channel_stop connect
  handle_channel_stop-Moves ec e k s t v =
      let u = start_connect-Moves success e w.manual_attempt_limit none k s t v in
      if-both (Moves k s) (not (is_address_in_use ec))
        (λ _. record {
          handlers = omega (arith, u.handlers);
          connectors = u.connectors;
          truthful = u.truthful;
        })
        (λ _. v)

  attach_protocols_lem :
      (c : Link Address) (version : ℕ) (s : Manual w)
      → attach_protocols w c version s ≡ record s { deeds = (attach_protocols w c version s).deeds }
  unfolding attach_protocols
  attach_protocols_lem c version s =
      if-both
        (λ u.
          does w (attaches_address c.pointer) u
          ≡ record s { deeds = (does w (attaches_address c.pointer) u).deeds })
        (leb w.settings.bip61 version) (λ _. refl) (λ _. refl)

  handle_channel_start-Moves :
      (ec : Code) (h : Option Handler) (c : Link Address) (version k : ℕ) (s t : Manual w)
      → Moves k s t
      → Moves (k + one h) s (handle_channel_start w ec h c version t)
  unfolding handle_channel_start
  handle_channel_start-Moves ec h c version k s t v =
      if-both (Moves (k + one h) s) (is_error ec)
        (λ _. record {
          handlers = ground (arith, v.handlers);
          connectors = ground (arith, v.connectors);
          truthful = v.truthful;
        })
        (λ _. rw (attach_protocols_lem c version _) (record {
          handlers = ground (arith, v.handlers);
          connectors = ground (arith, v.connectors);
          truthful = λ b. (ground arith, v.truthful b);
        }))

  handle_start-Moves :
      (ec : Code) (e : Endpoint) (h : Option Handler) (c : Link Address) (version k : ℕ)
      (s t : Manual w)
      → Moves k s t
      → Moves (k + one h) s (handle_start w ec e h c version t)
  unfolding handle_start
  handle_start-Moves ec e h c version k s t v = handle_channel_start-Moves ec h c version k s _ (
      if-both (Moves k s) (is_error ec)
        (λ _.
          handle_channel_stop-Moves ec e k s _
            (record { handlers = v.handlers; connectors = v.connectors; truthful = v.truthful }))
        (λ _. record {
          handlers = omega (arith, v.handlers);
          connectors = omega (arith, v.connectors);
          truthful = v.truthful;
        }))

  register_channel-Moves :
      (started : Code) (nonce version : ℕ) (e : Endpoint) (h : Option Handler) (c : Link Address)
      (k : ℕ) (s t : Manual w)
      → Moves k s t
      → Moves (k + one h) s (register_channel w started nonce version e h c t)
  unfolding register_channel
  register_channel-Moves started nonce version e h c k s t v =
      if-both (Moves (k + one h) s) t.stopped
        (λ _.
          handle_channel_stop-Moves service_stopped e (k + one h) s _
            (handle_channel_start-Moves service_stopped h c version k s t v))
        (λ _.
          if-both (Moves (k + one h) s) (is_error started)
            (λ _.
              handle_start-Moves started e h _ version k s _ (record {
                handlers = v.handlers;
                connectors = v.connectors;
                truthful = v.truthful;
              }))
            (λ _. record {
              handlers = ground (arith, v.handlers);
              connectors = ground (arith, v.connectors);
              truthful = v.truthful;
            }))

  pub handle_handshake-Moves :
      (ec : Code) (e : Endpoint) (h : Option Handler) (c : Link Address) (version k : ℕ)
      (s t : Manual w)
      → Moves k s t
      → Moves (k + one h) s (handle_handshake w ec e h c version t)
  unfolding handle_handshake
  handle_handshake-Moves ec e h c version k s t v =
      if-both (Moves (k + one h) s) (is_error ec) (λ _. handle_start-Moves ec e h c version k s t v)
        (λ _.
          let (next, stored) = Network.store w.same w.links c t.network in
          handle_start-Moves stored e h c version k s (record t { network = next })
            (record { handlers = v.handlers; connectors = v.connectors; truthful = v.truthful }))

  retry-Moves :
      (ec : Code) (e : Endpoint) (remaining : ℕ) (h : Option Handler) (k : ℕ) (s t : Manual w)
      → is_error ec ≡ true
      → Moves k s t
      → Moves (k + one h) s (retry w ec e remaining h t)
  unfolding retry
  retry-Moves ec e remaining h k s t bad v =
      if-both (Moves (k + one h) s) (ltb 0 remaining)
        (λ _. record {
          handlers = ground (arith, v.handlers);
          connectors = ground (arith, v.connectors);
          truthful = v.truthful;
        })
        (λ _. record {
          handlers = ground (arith, v.handlers);
          connectors = ground (arith, v.connectors);
          truthful = λ b. (bad, v.truthful b);
        })

  -- A connection ends: its connector is free, and what held the handler has gone from the waits.
  pub handle_connect-Moves :
      (ec started : Code) (nonce version : ℕ) (c : Link Address) (connector : ℕ) (e : Endpoint)
      (remaining : ℕ) (h : Option Handler) (k : ℕ) (s t : Manual w)
      → Moves k s (record t { unpended = connector ∷ t.unpended })
      → Moves (k + one h) s (handle_connect w ec started nonce version c connector e remaining h t)
  unfolding handle_connect
  handle_connect-Moves ec started nonce version c connector e remaining h k s t v =
      if-both (Moves (k + one h) s) (is_error ec)
        (λ bad.
          retry-Moves ec e (if w.manual_attempt_limit == 0 then 1 else remaining) h k s _ bad v)
        (λ _. register_channel-Moves started nonce version e h c k s _ v)
