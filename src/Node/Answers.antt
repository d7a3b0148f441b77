-- ===== src/Node/Answers.antt =====
-- Every handler that is given to `start` or `run` is answered or still waits: src/p2p.cpp.
use bitprim_network.Base.{
  ℕ, ◌+◌, ◌≡◌, refl, Bool, Option, none, some, List, [], ◌∷◌, get_elem?, erase_at, count_by,
  count_by-erase_at, arith, if◌then◌else◌,
}
use bitprim_network.Code.{Code}
use bitprim_network.Hosts
use bitprim_network.Hosts.{Hosts, returned, thrown}
use bitprim_network.Node.{
  Platform, Phase, manual_phase, seed_phase, inbound_phase, outbound_phase, NodeSettings, Endpoint,
  Node, start, handle_started, handle_hosts_loaded, load_hosts, handle_manual_started, connect,
  connect_all, run, handle_inbound_started, handle_running, stop, store,
}
use bitprim_network.Node.Sequence.{
  NodeEvent, starts, runs, ends, halts, stores, dispatch, end_wait, step, steps,
}

module _ (w : Platform) (settings : NodeSettings w.Name) where
  open w use {Name, Handler, a, cb, same, links, connectors, stops, watchers}

  -- How many of the handlers that pass a test were called, wait, or met an exception.
  abbrev pub held : (Handler → Bool) → Node w → ℕ
  held p n = count_by (λ c. p c.0) n.calls + count_by (λ c. p c.1) n.waits + count_by p n.thrown_at

  -- How many of them an event hands over.
  abbrev pub asked : (Handler → Bool) → NodeEvent w settings → ℕ
  asked p (starts h) = if p h then 1 else 0
  asked p (runs h) = if p h then 1 else 0
  asked p _ = 0

  abbrev pub asked_all : (Handler → Bool) → List (NodeEvent w settings) → ℕ
  asked_all p [] = 0
  asked_all p (e ∷ es) = asked p e + asked_all p es

  held-load_hosts :
      (p : Handler → Bool) (o : Hosts.Outcome a cb) (h : Handler) (n : Node w)
      → held p (load_hosts w o h n) ≡ held p n + (if p h then 1 else 0)
  unfolding load_hosts handle_hosts_loaded
  held-load_hosts p (returned g ec) h n = ground arith
  held-load_hosts p (thrown g) h n = omega arith

  held-dispatch :
      (p : Handler → Bool) (phase : Phase) (h : Handler) (file : Option (List a.Line)) (ec : Code)
      (n : Node w)
      → held p (dispatch w settings phase h file ec n) ≡ held p n + (if p h then 1 else 0)
  unfolding dispatch handle_manual_started handle_started handle_inbound_started handle_running
  held-dispatch p manual_phase h file ec n =
      ground (arith, held-load_hosts p (Hosts.start a cb file n.hosts) h n)
  held-dispatch p seed_phase h file ec n = ground arith
  held-dispatch p inbound_phase h file ec n = ground arith
  held-dispatch p outbound_phase h file ec n = ground arith

  held-connect_all :
      (p : Handler → Bool) (peers : List (Endpoint Name)) (n : Node w)
      → held p (connect_all w peers n) ≡ held p n
  unfolding connect_all connect
  held-connect_all p [] n = refl
  held-connect_all p (peer ∷ peers) n = ground (arith, held-connect_all p peers (connect w peer n))

  held-end_wait :
      (p : Handler → Bool) (o : Option (Phase × Handler)) (i : ℕ) (file : Option (List a.Line))
      (ec : Code) (n : Node w)
      → get_elem? n.waits i ≡ o
      → held p (end_wait w settings o i file ec n) ≡ held p n
  unfolding end_wait
  held-end_wait p none i file ec n at = refl
  held-end_wait p (some (phase, h)) i file ec n at = omega (
    arith,
    held-dispatch p phase h file ec (record n { waits = erase_at i n.waits }),
    count_by-erase_at (λ (c : Phase × Handler). p c.1) i n.waits at,
  )

  held-step :
      (p : Handler → Bool) (e : NodeEvent w settings) (n : Node w)
      → held p (step w settings e n) ≡ held p n + asked p e
  unfolding step start run stop store
  held-step p (starts h) n = ground arith
  held-step p (runs h) n = ground (arith, held-connect_all p settings.peers n)
  held-step p (ends i file ec) n =
      omega (arith, held-end_wait p (get_elem? n.waits i) i file ec n refl)
  held-step p (halts writable) n = omega arith
  held-step p (stores c) n = ground arith

  -- Whatever happens to a node, in whatever order: of the handlers that were given to `start` and `run`,
  -- as many as pass any test were called, still wait, or met an exception of the hosts file, each as
  -- often as it was given; none is lost and none is called twice for one request.
  pub held-steps :
      (p : Handler → Bool) (es : List (NodeEvent w settings)) (n : Node w)
      → held p (steps w settings es n) ≡ held p n + asked_all p es
  unfolding steps
  held-steps p [] n = omega arith
  held-steps p (e ∷ es) n = omega (arith, held-step p e n, held-steps p es (step w settings e n))
