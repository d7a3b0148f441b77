-- ===== src/Sessions/Registration.antt =====
-- What the end of a handshake comes to: src/sessions/session.cpp over the open connections of src/p2p.cpp.
use bitprim_network.Base.{ℕ, ◌≡◌, Bool, false, [], ◌∷◌, ◌++◌, if◌then◌else◌, arith}
use bitprim_network.Code.{Code, success, address_in_use, is_error}
use bitprim_network.Network.{Link, Connections, connected}
use bitprim_network.Network.Library.{Pendings}
use bitprim_network.Network.Distinct.{opened, store-connected}
use bitprim_network.Sessions.{
  Session, SessionSettings, attach_protocols, does, channel_stop, calls_started, calls_stopped,
  stops_channel, handle_start, handshake_complete, handle_handshake,
}

module _ {Address : Type 0} (same : Address → Address → Bool)
    (links : Pendings (Link Address)) where
  -- The code of a registration: that of the handshake, or else whether the address is in use.
  abbrev pub outcome : Code → Link Address → Connections same links → Code
  outcome ec c n =
      if is_error ec
      then ec
      else if connected same links c.authority n
      then address_in_use
      else success

  -- `handle_start` of a registration whose two handlers are recorded.
  abbrev pub recorded : Link Address → Code → Session same links → Session same links
  recorded c =
      handle_start same links (λ ec. does same links (calls_started ec))
        (λ ec. does same links (calls_stopped ec)) c

  -- When a handshake ends, on a node that has not stopped: if it failed or the address is already
  -- connected, then the channel is stopped and both handlers are called with that code, and no
  -- connection and no wait is added; else the channel is added to the open connections, its stop is
  -- waited for, and the start handler alone is called, with success.
  pub handle_handshake_lem :
      (ec : Code) (c : Link Address) (s : Session same links)
      → links.is_stopped s.network.pending_close ≡ false
      → let t =
          handle_handshake same links
            (handshake_complete same links (recorded c) c)
            (recorded c)
            ec
            s in
        let result = outcome ec c s.network in
        (t.deeds
          ≡ (if is_error result
              then calls_started result ∷ calls_stopped result ∷ stops_channel c.pointer result ∷ []
              else calls_started success ∷ [])
            ++ s.deeds)
        × (t.waits ≡ (if is_error result then s.waits else channel_stop c ∷ s.waits))
        × (opened same links t.network ≡ (
            if is_error result
            then opened same links s.network
            else opened same links s.network ++ c ∷ []))
  unfolding handle_handshake handshake_complete handle_start
  handle_handshake_lem ec c s running =
      let l = store-connected same links c s.network running in ground (arith, l)

  -- Protocols are attached to a channel without a wait.
  pub attach_protocols_lem :
      (settings : SessionSettings Address) (c : Link Address) (version : ℕ) (s : Session same links)
      → ((attach_protocols same links settings c version s).stopped ≡ s.stopped)
        × ((attach_protocols same links settings c version s).waits ≡ s.waits)
        × ((attach_protocols same links settings c version s).network ≡ s.network)
  unfolding attach_protocols
  attach_protocols_lem settings c version s = (ground arith, ground arith, ground arith)
