-- ===== src/Node/Pool.antt =====
-- The pool of addresses of a node: the calls of src/p2p.cpp that go to src/hosts.cpp, and what a stop and a
-- new start make of the pool.
use bitprim_network.Base.{
  ℕ, ◌≤◌, ◌≡◌, refl, ap, true, false, ◌∙◌, Option, none, some, List, [], ◌∷◌, All, length,
  length-map, arith,
}
use bitprim_network.Code.{Code, success}
use bitprim_network.Hosts
use bitprim_network.Hosts.{Hosts, Opening, opens, returned, entries, count}
use bitprim_network.Hosts.Library.{Random}
use bitprim_network.Hosts.Persistence.{Readable, restored, start-stop_opened}
use bitprim_network.Node.{
  Platform, seed_phase, NodeSettings, Node, call, start, stop, close, load_hosts,
  handle_hosts_loaded, handle_manual_started,
}
use bitprim_network.Node.Sequence.{starts, ends, dispatch, end_wait, step, steps}

module _ (w : Platform) where
  open w use {Handler, a, cb}

  -- `p2p::address_count`
  unfoldable pub address_count : Node w → ℕ
  address_count n = count a cb n.hosts

  -- `p2p::store(const address&)`
  unfoldable pub store : a.Address → Node w → Node w × Code
  store address n =
      let (hosts, ec) = Hosts.store a cb address n.hosts in (record n { hosts = hosts }, ec)

  -- `p2p::store(const address::list&, result_handler)`, where `none` is what it is for the hosts.
  unfoldable pub store_list : Random → List a.Address → Handler → Node w → Option (Node w)
  store_list rng addresses handler n = elim (Hosts.store_list a cb rng addresses n.hosts) [
    | none ↦ none
    | some (hosts, ec) ↦ some (call w handler ec (record n { hosts = hosts }))
  ]

  -- `p2p::fetch_address`
  unfoldable pub fetch_address : Random → Node w → Code × Option a.Address
  fetch_address rng n = Hosts.fetch a cb rng n.hosts

  -- `p2p::fetch_addresses`
  unfoldable pub fetch_addresses : Random → List a.Address → Node w → Code × List a.Address
  fetch_addresses rng out n = Hosts.fetch_list a cb rng n.hosts out

  -- `p2p::remove(const address&)`
  unfoldable pub remove : a.Address → Node w → Node w × Code
  remove address n =
      let (hosts, ec) = Hosts.remove a cb address n.hosts in (record n { hosts = hosts }, ec)

  -- `p2p::~p2p`, which closes the node.
  unfoldable pub destroy : Opening → Node w → Node w
  unfolding close
  destroy opening n = (close w opening n).0

  -- A node whose pool is enabled and runs, and whose addresses can be printed and read again, keeps them
  -- over a stop and a new start, if the hosts file opens both times: the stop reports success and leaves
  -- no address; once the manual session of the new start has begun with success and the file is
  -- loaded, the pool has as many addresses as before, the same in the same order, as far as an authority
  -- keeps them, and the start goes on with the seeding.
  pub steps-stop-restored :
      (settings : NodeSettings w.Name) (handler : Handler) (n : Node w)
      → n.hosts.disabled ≡ false
      → n.hosts.stopped ≡ false
      → All (Readable a cb) (entries a cb n.hosts)
      → length (entries a cb n.hosts) ≤ cb.capacity n.hosts.buffer
      → let (m, ok, file) = stop w opens n in
        let k = steps w settings (starts handler ∷ ends 0 file success ∷ []) m in
        (ok ≡ true)
        × (address_count m ≡ 0)
        × (address_count k ≡ address_count n)
        × (entries a cb k.hosts ≡ restored a cb (entries a cb n.hosts))
        × (k.waits ≡ (seed_phase, handler) ∷ n.waits)
  unfolding steps step end_wait dispatch stop start handle_manual_started load_hosts
      handle_hosts_loaded address_count count
  steps-stop-restored settings handler n on running readable room =
      let (saved, cleared, (h, loaded, _, same)) =
        start-stop_opened a cb n.hosts on running readable room in
      rw loaded (
        ground (arith, saved),
        ap length cleared,
        ap length same ∙ length-map (entries a cb n.hosts) _,
        same,
        refl,
      )
