-- ===== src/Node/Restart.antt =====
-- What a stop leaves for a new start of the node: src/p2p.cpp.
use bitprim_network.Base.{
  ℕ, ◌≡◌, refl, Bool, true, Option, none, some, List, [], ◌∷◌, get_elem?, arith,
}
use bitprim_network.Code.{Code, service_stopped}
use bitprim_network.Hosts
use bitprim_network.Hosts.{Hosts, Opening, returned, thrown}
use bitprim_network.Network
use bitprim_network.Network.{Link}
use bitprim_network.Node.{
  Platform, Phase, manual_phase, seed_phase, inbound_phase, outbound_phase, NodeSettings, Endpoint,
  Node, start, handle_started, handle_hosts_loaded, load_hosts, handle_manual_started, connect,
  connect_all, run, handle_inbound_started, handle_running, stop, store,
}
use bitprim_network.Node.Shutdown.{stop-IsDown}
use bitprim_network.Node.Sequence.{
  NodeEvent, starts, runs, ends, halts, stores, dispatch, end_wait, step, steps,
}

module _ (w : Platform) (settings : NodeSettings w.Name) where
  open w use {Name, Handler, a, cb, same, links, connectors, stops, watchers}

  abbrev closed : Node w → Bool
  closed n = links.is_stopped n.connections.pending_close

  connections-connect_all :
      (peers : List (Endpoint Name)) (n : Node w)
      → (connect_all w peers n).connections ≡ n.connections
  unfolding connect_all connect
  connections-connect_all [] n = refl
  connections-connect_all (peer ∷ peers) n =
      ground (arith, connections-connect_all peers (connect w peer n))

  connections-load_hosts :
      (o : Hosts.Outcome a cb) (h : Handler) (n : Node w)
      → (load_hosts w o h n).connections ≡ n.connections
  unfolding load_hosts handle_hosts_loaded
  connections-load_hosts (returned g ec) h n = ground arith
  connections-load_hosts (thrown g) h n = refl

  connections-dispatch :
      (phase : Phase) (h : Handler) (file : Option (List a.Line)) (ec : Code) (n : Node w)
      → (dispatch w settings phase h file ec n).connections ≡ n.connections
  unfolding dispatch handle_manual_started handle_started handle_inbound_started handle_running
  connections-dispatch manual_phase h file ec n =
      ground (arith, connections-load_hosts (Hosts.start a cb file n.hosts) h n)
  connections-dispatch seed_phase h file ec n = ground arith
  connections-dispatch inbound_phase h file ec n = ground arith
  connections-dispatch outbound_phase h file ec n = ground arith

  connections-end_wait :
      (o : Option (Phase × Handler)) (i : ℕ) (file : Option (List a.Line)) (ec : Code) (n : Node w)
      → (end_wait w settings o i file ec n).connections ≡ n.connections
  unfolding end_wait
  connections-end_wait none i file ec n = refl
  connections-end_wait (some (phase, h)) i file ec n = connections-dispatch phase h file ec _

  closed-step :
      (e : NodeEvent w settings) (n : Node w)
      → closed n ≡ true
      → closed (step w settings e n) ≡ true
  unfolding step start run stop store Network.store
  closed-step (starts h) n v = ground arith
  closed-step (runs h) n v = ground (arith, connections-connect_all settings.peers n)
  closed-step (ends i file ec) n v =
      ground (arith, connections-end_wait (get_elem? n.waits i) i file ec n)
  closed-step (halts b) n v = (links.stop_lem service_stopped n.connections.pending_close).0
  closed-step (stores c) n v =
      let l =
        links.store_unless_lem (λ e. same e.authority c.authority) c n.connections.pending_close in
      ground (arith, l)

  closed-steps :
      (es : List (NodeEvent w settings)) (n : Node w)
      → closed n ≡ true
      → closed (steps w settings es n) ≡ true
  unfolding steps
  closed-steps [] n v = v
  closed-steps (e ∷ es) n v = closed-steps es _ (closed-step e n v)

  -- From its first stop on a node never takes a channel again: whatever happens, a new start
  -- included, a channel that is stored is refused with the code of a stopped service, is not among the
  -- open connections afterwards unless it was, and is announced to nobody.
  pub store-steps-stop :
      (b : Opening) (es : List (NodeEvent w settings)) (c : Link a.Authority) (n : Node w)
      → let m = steps w settings es (stop w b n).0 in
        let (k, ec) = store w c m in
        (ec ≡ service_stopped)
        × (links.elements k.connections.pending_close ≡ links.elements m.connections.pending_close)
        × (k.channel_subscriber ≡ m.channel_subscriber)
  unfolding store Network.store
  store-steps-stop b es c n =
      let d = stop-IsDown w b n in
      let m = steps w settings es (stop w b n).0 in
      let shut = closed-steps es (stop w b n).0 d.close_stopped in
      let l =
        links.store_unless_lem (λ e. same e.authority c.authority) c m.connections.pending_close in
      ground (arith, l, shut)
