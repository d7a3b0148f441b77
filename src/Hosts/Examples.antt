-- ===== src/Hosts/Examples.antt =====
-- Tests of the pool of hosts, and the theorems at concrete inputs.
use mathlib.Core.List.Perm
use bitprim_network.Base.{
  ℕ, ◌+◌, ◌/◌, ◌≤◌, ◌≡◌, ◌≢◌, ◌⊎◌, refl, true, false, All, List, [], ◌∷◌, ◌++◌, none, some, arith,
  length, take, Perm,
}
use bitprim_network.Code.{success, not_found}
use bitprim_network.Hosts.Library.{Random}
use bitprim_network.Hosts.Plain.{Peer, peer, peers, ring, of_list}
use bitprim_network.Hosts.Calls.{starts, stores, stores_list, removes, run}
use bitprim_network.Hosts.Bounds.{IsBounded, count-run-le}
use bitprim_network.Hosts.Distinct.{IsDistinct, run-IsDistinct}
use bitprim_network.Hosts.Lookup.{remove_lem}
use bitprim_network.Hosts.Bulk.{store_list_lem, length-chosen-ge, chosen, visits}
use bitprim_network.Hosts.Persistence.{Readable, start-not-IsDistinct, start-stop, reopened}
use bitprim_network.Hosts.Fetching.{HasHosts, fetch_list-perm}
use bitprim_network.Hosts.{
  Hosts, returned, fails_to_open, stop, construct, entries, find, count, fetch_list, start, remove,
  admit, store, visit, store_from, store_list,
}

le_refl_of : (lo hi : ℕ) → lo ≤ hi → (lo ≤ lo) × (lo ≤ hi)
le_refl_of lo hi h = omega arith

-- Draws the least number, and shuffles nothing.
abbrev least : Random
least = record {
  next = λ lo hi. lo;
  next_bounds = le_refl_of;
  shuffle = λ xs. xs;
  shuffle-perm = λ xs. Perm.refl xs;
}

abbrev two : Hosts peers ring
two = of_list (peer 1 10 ∷ peer 2 20 ∷ [])

abbrev arrivals : List Peer
arrivals = peer 0 5 ∷ peer 1 10 ∷ peer 4 40 ∷ peer 5 50 ∷ peer 6 60 ∷ []

-- The invalid and the known address are passed over; the fourth and later are not usable.
bulk_example_two :
    store_list peers ring least arrivals two ≡ some (of_list (peer 1 10 ∷ peer 2 20 ∷ []), success)
unfolding store_list store_from visit admit find
bulk_example_two = refl

store_full :
    entries peers ring
      (store peers ring (peer 4 40) (of_list (peer 1 10 ∷ peer 2 20 ∷ peer 3 30 ∷ []))).0
    ≡ peer 2 20 ∷ peer 3 30 ∷ peer 4 40 ∷ []
unfolding store admit find
store_full = refl

two-IsBounded : IsBounded peers ring two
two-IsBounded = record { fits = omega arith; limited = omega arith }

count-run-le_example :
    count peers ring (
      run peers ring
        (starts (some []) ∷ stores (peer 1 10) ∷ stores_list least arrivals ∷ [])
        (construct peers ring 2))
    ≤ 2
count-run-le_example =
    count-run-le peers ring
      (starts (some []) ∷ stores (peer 1 10) ∷ stores_list least arrivals ∷ []) 2

two-IsDistinct : IsDistinct peers ring (entries peers ring two)
two-IsDistinct = ((refl, tt), (tt, tt))

run-IsDistinct_example : IsDistinct peers ring (
    entries peers ring
      (run peers ring (stores (peer 1 10) ∷ removes (peer 2 20) ∷ stores (peer 7 70) ∷ []) two))
run-IsDistinct_example =
    run-IsDistinct peers ring (stores (peer 1 10) ∷ removes (peer 2 20) ∷ stores (peer 7 70) ∷ [])
      two (tt, (tt, (tt, tt))) two-IsDistinct

remove_lem_example :
    let (h', ec) = remove peers ring (peer 2 20) two in
    (find peers ring (peer 2 20) (entries peers ring h') ≡ none)
    × (((find peers ring (peer 2 20) (entries peers ring two) ≡ none)
          × (ec ≡ not_found)
          × (h' ≡ two))
        ⊎ ((find peers ring (peer 2 20) (entries peers ring two) ≢ none)
            × (ec ≡ success)
            × (count peers ring h' + 1 ≡ count peers ring two)))
remove_lem_example = remove_lem peers ring (peer 2 20) two refl refl two-IsDistinct

store_list_lem_example :
    store_list peers ring least arrivals two
    ≡ some (
      record two { buffer = visits peers ring (chosen peers ring least arrivals two) two.buffer },
      success,
    )
store_list_lem_example =
    store_list_lem peers ring (omega arith) least arrivals two two-IsBounded refl refl (omega arith)

length-chosen-ge_example : 1 ≤ length (chosen peers ring least arrivals two)
length-chosen-ge_example =
    length-chosen-ge peers ring (omega arith) least arrivals two two-IsBounded (omega arith)

abbrev empty : Hosts peers ring
empty = record (of_list []) { stopped = true }

start-not-IsDistinct_example :
    (h' : Hosts peers ring) × (start peers ring
        (some (some (peer 1 10) ∷ some (peer 1 10) ∷ []))
        empty
      ≡ returned h' success)
    × (¬ IsDistinct peers ring (entries peers ring h'))
start-not-IsDistinct_example =
    start-not-IsDistinct peers ring (some (peer 1 10)) (peer 1 10) empty refl
      (λ e. absurd (omega arith)) refl refl refl (omega arith)

two-Readable : All (Readable peers ring) (entries peers ring two)
two-Readable = ((refl, λ e. absurd (omega arith)), ((refl, λ e. absurd (omega arith)), tt))

-- The hosts file does not open.
start-stop_example :
    let (h', ec, file) = stop peers ring fails_to_open two in
    (ec ≡ success)
    × (h'.stopped ≡ true)
    × ((h'' : Hosts peers ring) × (start peers ring (reopened peers ring fails_to_open file) h'
          ≡ returned h'' success)
        × (h''.stopped ≡ false)
        × (entries peers ring h'' ≡ []))
start-stop_example = start-stop peers ring fails_to_open two refl refl two-Readable (omega arith)

two-HasHosts : HasHosts peers ring two
unfolding count
two-HasHosts = record { enabled = refl; running = refl; some_host = omega arith }

fetch_list-perm_example :
    let (ec, handed_out) = fetch_list peers ring least two [] in
    (ec ≡ success)
    × Perm handed_out ([] ++ take 2 (entries peers ring two))
    × (2 ≤ count peers ring two)
    × (2 / 20 ≤ 2)
unfolding count
fetch_list-perm_example = fetch_list-perm peers ring least two [] two-HasHosts
