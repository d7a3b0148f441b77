-- ===== src/Node/Sequence.antt =====
-- What can happen to a node, and the outcome of its start sequence: src/p2p.cpp.
use bitprim_network.Base.{
  ℕ, ◌≡◌, true, Option, none, some, List, [], ◌∷◌, get_elem?, erase_at, arith, if◌then◌else◌,
}
use bitprim_network.Code.{Code, success, is_error}
use bitprim_network.Hosts
use bitprim_network.Hosts.{Hosts, returned, thrown, Opening}
use bitprim_network.Network.{Link}
use bitprim_network.Node.{
  Platform, Phase, manual_phase, seed_phase, inbound_phase, outbound_phase, NodeSettings, Node,
  start, handle_started, handle_hosts_loaded, load_hosts, handle_manual_started, run,
  handle_inbound_started, handle_running, stop, store,
}

module _ (w : Platform) (settings : NodeSettings w.Name) where
  open w use {Name, Handler, a, cb, same, links, connectors, stops, watchers}

  -- A call from outside, or the end of the session that waits at an index, with its code and what the
  -- hosts file then holds.
  pub data NodeEvent : Type 0 where
    starts : Handler → NodeEvent
    runs : Handler → NodeEvent
    ends : ℕ → Option (List a.Line) → Code → NodeEvent
    halts : Opening → NodeEvent
    stores : Link a.Authority → NodeEvent

  unfoldable pub dispatch : Phase → Handler → Option (List a.Line) → Code → Node w → Node w
  dispatch manual_phase handler file ec n = handle_manual_started w file ec handler n
  dispatch seed_phase handler file ec n = handle_started w ec handler n
  dispatch inbound_phase handler file ec n = handle_inbound_started w ec handler n
  dispatch outbound_phase handler file ec n = handle_running w ec handler n

  unfoldable pub end_wait :
      Option (Phase × Handler) → ℕ → Option (List a.Line) → Code → Node w → Node w
  unfolding dispatch
  end_wait none i file ec n = n
  end_wait (some (phase, handler)) i file ec n =
      dispatch phase handler file ec (record n { waits = erase_at i n.waits })

  unfoldable pub step : NodeEvent → Node w → Node w
  unfolding end_wait
  step (starts handler) n = start w handler n
  step (runs handler) n = run w settings handler n
  step (ends i file ec) n = end_wait (get_elem? n.waits i) i file ec n
  step (halts opening) n = (stop w opening n).0
  step (stores channel) n = (store w channel n).0

  unfoldable pub steps : List NodeEvent → Node w → Node w
  steps [] n = n
  steps (e ∷ es) n = steps es (step e n)

  -- The first of the codes that is an error.
  abbrev pub first_error : Code → Code → Code → Code
  first_error x y z =
      if is_error x then x else if is_error y then y else if is_error z then z else success

  -- On a stopped node that waits for nothing, and where the hosts file is read without an exception: a
  -- start whose sessions end with these codes, undisturbed, calls its handler once, with the first
  -- error of the manual session, of the load of the hosts and of the seeding, or else with success.
  pub calls-start :
      (handler : Handler) (file file' : Option (List a.Line)) (manual seed load : Code)
      (h : Hosts a cb) (n : Node w)
      → n.stopped ≡ true
      → n.waits ≡ []
      → Hosts.start a cb file n.hosts ≡ returned h load
      → (steps (starts handler ∷ ends 0 file manual ∷ ends 0 file' seed ∷ []) n).calls
        ≡ (handler, first_error manual load seed) ∷ n.calls
  unfolding steps step start handle_manual_started load_hosts handle_hosts_loaded handle_started
  calls-start handler file file' manual seed load h n halted idle loaded = ground (arith, loaded)
