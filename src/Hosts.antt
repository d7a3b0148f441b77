-- ===== src/Hosts.antt =====
-- The pool of host addresses: src/hosts.cpp and include/bitcoin/network/hosts.hpp.
--
-- `hosts` keeps its addresses in a `boost::circular_buffer`, reads and prints them by the
-- libbitcoin types `network_address` and `authority`, and draws random numbers. These are not
-- part of the repository: they are the records of the module `Library`. The locks are not
-- modelled: each method is one step on the state.
pub mod Library
pub mod Calls
pub mod Loop
pub mod Distinct
pub mod Bounds
pub mod Lookup
pub mod Stride
pub mod Bulk
pub mod Persistence
pub mod Fetching
pub mod Plain
mod Examples
use bitprim_network.Base.{
  ℕ, zero, suc, ◌+◌, ◌-◌, ◌*◌, ◌/◌, ◌%◌, ◌^◌, ◌<◌, min, max, Bool, true, false, ◌&&◌, ◌||◌, not,
  List, [], ◌∷◌, ◌++◌, Option, none, some, map, ltb, ◌==◌, if◌then◌else◌, length, get_elem?, take,
  sub_size, tail, erase_at,
}
use bitprim_network.Code.{Code, success, service_stopped, operation_failed, not_found, file_system}
use Library.{Addresses, CircularBuffer, Random}

-- What the constructor of a file stream comes to. A file that does not open sets the stream's failbit
-- only, which `bad()` does not report.
pub data Opening : Type 0 where
  opens fails_to_open is_bad : Opening

module _ (a : Addresses) (cb : CircularBuffer a.Address) where
  open a use {Address, Authority, Line, ip, port, is_valid, max_address}
  open a use {parse, print, authority_port, to_network_address, to_authority, ceiling_add}

  -- `disabled_` and `capacity_` are constants of the object. `file_path_` names the file that `start`
  -- and `stop` take as an argument.
  pub record Hosts : Type 0 where
    pub capacity : ℕ
    pub buffer : cb.Buffer
    pub stopped : Bool
    pub disabled : Bool

  -- `hosts::hosts`
  pub construct : ℕ → Hosts
  construct host_pool_capacity =
      let capacity = min max_address host_pool_capacity in
      record {
        capacity = capacity;
        buffer = cb.create (max capacity 1);
        stopped = true;
        disabled = capacity == 0;
      }

  abbrev pub entries : Hosts → List Address
  entries h = cb.to_list h.buffer

  abbrev pub same_host : Address → Address → Bool
  same_host host entry = port entry == port host && ip entry == ip host

  -- `hosts::find`: the index of the first entry with this port and ip; `none` is `buffer_.end()`.
  pub find : Address → List Address → Option ℕ
  find host [] = none
  find host (entry ∷ rest) =
      let later = find host rest in
      if same_host host entry then some 0 else elim later [ none ↦ none | some i ↦ some (suc i) ]

  -- `hosts::count`
  unfoldable pub count : Hosts → ℕ
  count h = length (entries h)

  -- `hosts::fetch(address&)`. The option is what goes through `out`; `none` leaves it untouched.
  pub fetch : Random → Hosts → Code × Option Address
  fetch rng h =
      if h.disabled
      then (not_found, none)
      else if h.stopped
      then (service_stopped, none)
      else if length (entries h) == 0
      then (not_found, none)
      else (success, get_elem? (entries h) (rng.next 0 (sub_size (length (entries h)) 1)))

  -- The number of addresses that `hosts::fetch(address::list&)` takes.
  abbrev pub out_count : Random → Hosts → ℕ
  out_count rng h = min (length (entries h)) h.capacity / rng.next 1 20

  -- `hosts::fetch(address::list&)`, with the list that goes in through `out` and the one that comes
  -- back.
  pub fetch_list : Random → Hosts → List Address → Code × List Address
  fetch_list rng h out =
      if h.disabled
      then (not_found, out)
      else if h.stopped
      then (service_stopped, out)
      else if length (entries h) == 0
      then (not_found, out)
      else if out_count rng h == 0
      then (success, out)
      else (success, rng.shuffle (out ++ take (out_count rng h) (entries h)))

  -- The loop of `hosts::start` over the lines of the file. `true` means that a line did not parse,
  -- so that the constructor of `config::authority` threw.
  unfoldable pub load : List Line → cb.Buffer → cb.Buffer × Bool
  load [] buffer = (buffer, false)
  load (line ∷ rest) buffer = elim (parse line) [
    | none ↦ (buffer, true)
    | some host ↦
        load rest (
          if authority_port host == 0
          then buffer
          else cb.push_back (to_network_address host) buffer)
  ]

  -- A method of the pool returns a code, or lets an exception of the library through.
  pub data Outcome : Type 0 where
    returned : Hosts → Code → Outcome
    thrown : Hosts → Outcome

  abbrev loaded : Hosts → cb.Buffer × Bool → Outcome
  loaded h (buffer, false) = returned (record h { buffer = buffer; stopped = false }) success
  loaded h (buffer, true) = thrown (record h { buffer = buffer; stopped = false })

  -- `hosts::start`. The option is the file: `none` is a stream that reports `bad()`; a file that does
  -- not open has no lines.
  unfoldable pub start : Option (List Line) → Hosts → Outcome
  start file h =
      if h.disabled
      then returned h success
      else if not h.stopped
      then returned h operation_failed
      else elim file [
        | none ↦ returned (record h { stopped = false }) file_system
        | some lines ↦ loaded h (load lines h.buffer)
      ]

  -- `hosts::stop`, with the lines that the file gets. What is written to a stream that failed to open
  -- is lost.
  pub stop : Opening → Hosts → Hosts × Code × Option (List Line)
  stop opening h =
      if h.disabled
      then (h, success, none)
      else if h.stopped
      then (h, success, none)
      else elim opening [
        | opens ↦ (
          record h { stopped = true; buffer = cb.clear h.buffer },
          success,
          some (map (λ entry. print (to_authority entry)) (entries h)),
        )
        | fails_to_open ↦ (record h { stopped = true; buffer = cb.clear h.buffer }, success, none)
        | is_bad ↦ (record h { stopped = true }, file_system, none)
      ]

  -- `hosts::remove`
  pub remove : Address → Hosts → Hosts × Code
  remove host h =
      if h.disabled
      then (h, not_found)
      else if h.stopped
      then (h, service_stopped)
      else elim (find host (entries h)) [
        | none ↦ (h, not_found)
        | some it ↦ (record h { buffer = cb.erase it h.buffer }, success)
      ]

  -- `push_back` unless an entry has the same port and ip.
  pub admit : Address → cb.Buffer → cb.Buffer
  admit host buffer = elim (find host (cb.to_list buffer)) [
    | none ↦ cb.push_back host buffer
    | some _ ↦ buffer
  ]

  -- `hosts::store(const address&)`
  pub store : Address → Hosts → Hosts × Code
  store host h =
      if h.disabled
      then (h, success)
      else if not (is_valid host)
      then (h, success)
      else if h.stopped
      then (h, service_stopped)
      else (record h { buffer = admit host h.buffer }, success)

  -- `hosts::store(const address::list&, handler)`: what it computes before its loop.
  abbrev pub usable : Hosts → List Address → ℕ
  usable h hosts = min (length hosts) (cb.capacity h.buffer)

  abbrev pub gap : Hosts → ℕ
  gap h = sub_size (cb.capacity h.buffer) (length (entries h))

  abbrev pub accept : Random → Hosts → List Address → ℕ
  accept rng h hosts = max (gap h) (rng.next 1 (usable h hosts))

  abbrev pub step : Random → Hosts → List Address → ℕ
  step rng h hosts = max (usable h hosts / accept rng h hosts) 1

  -- The body of the loop: an invalid address is passed over.
  pub visit : Address → cb.Buffer → cb.Buffer
  visit host buffer = if is_valid host then admit host buffer else buffer

  -- The loop. `none` means that the fuel ran out, or that an index was out of range.
  pub store_from : ℕ → ℕ → ℕ → ℕ → List Address → cb.Buffer → Option cb.Buffer
  store_from zero limit stride index hosts buffer = none
  store_from (suc fuel) limit stride index hosts buffer = elim (ltb index limit) [
    | false ↦ some buffer
    | true ↦ elim (get_elem? hosts index) [
      | none ↦ none
      | some host ↦
          store_from fuel limit stride (ceiling_add index stride) hosts (visit host buffer)
    ]
  ]

  abbrev stored : Hosts → Option cb.Buffer → Option (Hosts × Code)
  stored h none = none
  stored h (some buffer) = some (record h { buffer = buffer }, success)

  -- The loop as `store` runs it. The fuel is one more than the number of addresses.
  abbrev pub store_loop : Random → List Address → Hosts → Option cb.Buffer
  store_loop rng hosts h =
      store_from (length hosts + 1) (usable h hosts) (step rng h hosts) 0 hosts h.buffer

  -- `hosts::store(const address::list&, handler)`, with the code that goes to the handler.
  pub store_list : Random → List Address → Hosts → Option (Hosts × Code)
  store_list rng hosts h =
      if h.disabled || length hosts == 0
      then some (h, success)
      else if h.stopped
      then some (h, service_stopped)
      else stored h (store_loop rng hosts h)
