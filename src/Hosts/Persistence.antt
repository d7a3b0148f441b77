-- ===== src/Hosts/Persistence.antt =====
-- Saving the pool and loading it again: src/hosts.cpp, `hosts::stop` and `hosts::start`.
use bitprim_network.Base.{
  ◌+◌, ◌≤◌, ◌≡◌, ◌≢◌, refl, sym, ap, subst, ◌∙◌, true, false, List, [], ◌∷◌, ◌++◌, Option, none,
  some, arith, length, map, All, length-append,
}
use mathlib.Core.List.{append-nil, append_assoc}
use bitprim_network.Code.{Code, success, file_system}
use bitprim_network.Hosts.Library.{Addresses, CircularBuffer}
use bitprim_network.Hosts.Distinct.{IsDistinct}
use bitprim_network.Hosts.{
  Hosts, Opening, opens, fails_to_open, is_bad, returned, entries, load, start, stop,
}

module _ (a : Addresses) (cb : CircularBuffer a.Address) where
  open a use {
    Address, Authority, Line, ip, port, parse, print, authority_port, to_network_address,
    to_authority,
  }

  -- The lines that `stop` writes.
  abbrev pub saved : List Address → List Line
  saved = map λ entry. print (to_authority entry)

  -- The entries as they come back from the file.
  abbrev pub restored : List Address → List Address
  restored = map λ entry. to_network_address (to_authority entry)

  -- A text that was printed is read again; a port of zero would be passed over.
  abbrev pub Readable : Address → Type 0
  Readable entry =
      (parse (print (to_authority entry)) ≡ some (to_authority entry))
      × (authority_port (to_authority entry) ≢ 0)

  load-saved :
      (xs : List Address) (b : cb.Buffer)
      → All Readable xs
      → length (cb.to_list b) + length xs ≤ cb.capacity b
      → ((load a cb (saved xs) b).1 ≡ false)
        × (cb.to_list (load a cb (saved xs) b).0 ≡ cb.to_list b ++ restored xs)
  unfolding load
  load-saved [] b r room = (refl, sym (append-nil _))
  load-saved (x ∷ xs) b r room =
      let x' = to_network_address (to_authority x) in
      let b' = cb.push_back x' b in
      let stepped : load a cb (saved (x ∷ xs)) b ≡ load a cb (saved xs) b' = ground arith in
      let grown : cb.to_list b' ≡ cb.to_list b ++ x' ∷ [] =
        ground (arith, cb.to_list-push_back x' b) in
      let ih = load-saved xs b' r.1 (
        omega (
          arith,
          cb.capacity-push_back x' b,
          ap length grown,
          length-append (cb.to_list b) (x' ∷ []),
        )) in
      rw stepped (ih.0, ih.1 ∙ rw grown (append_assoc (cb.to_list b) (x' ∷ []) (restored xs)))

  pub start-stop_opened :
      (h : Hosts a cb)
      → h.disabled ≡ false
      → h.stopped ≡ false
      → All Readable (entries a cb h)
      → length (entries a cb h) ≤ cb.capacity h.buffer
      → let (h', ec, file) = stop a cb opens h in
        (ec ≡ success)
        × (entries a cb h' ≡ [])
        × ((h'' : Hosts a cb) × (start a cb file h' ≡ returned h'' success)
            × (h''.stopped ≡ false)
            × (entries a cb h'' ≡ restored (entries a cb h)))
  unfolding start stop
  start-stop_opened h on running r room =
      let b = cb.clear h.buffer in
      let l =
        load-saved (entries a cb h) b r
          (omega (arith, cb.capacity-clear h.buffer, ap length (cb.to_list-clear h.buffer))) in
      let halted : stop a cb opens h
          ≡ (record h { stopped = true; buffer = b }, success, some (saved (entries a cb h))) =
        ground arith in
      rw halted (
        refl,
        cb.to_list-clear h.buffer,
        (
          record h { stopped = false; buffer = (load a cb (saved (entries a cb h)) b).0 },
          ground (arith, l.0),
          refl,
          l.1 ∙ ap (λ xs. xs ++ restored (entries a cb h)) (cb.to_list-clear h.buffer),
        ),
      )

  -- The file as `start` finds it, by what its opening comes to, where `saved_lines` is what it got.
  abbrev pub reopened : Opening → Option (List Line) → Option (List Line)
  reopened opens saved_lines = saved_lines
  reopened fails_to_open saved_lines = some []
  reopened is_bad saved_lines = none

  abbrev pub opening_code : Opening → Code
  opening_code opens = success
  opening_code fails_to_open = success
  opening_code is_bad = file_system

  -- What is left of the pool.
  abbrev pub left_over : Opening → List Address → List Address
  left_over opens xs = restored xs
  left_over fails_to_open xs = []
  left_over is_bad xs = xs

  -- On a pool that is enabled and runs, whose addresses can be printed and read again and fit its
  -- buffer, let the opening of the hosts file come to the same at a stop and at the start after it. If
  -- the file opens, both report success and the pool has the addresses that it had, in the same order, as
  -- far as an authority keeps them. If it does not open, both report success as well, but every address
  -- is lost. If the stream is bad, both report a file system error, the pool keeps its addresses, and
  -- it runs again.
  pub start-stop :
      (opening : Opening) (h : Hosts a cb)
      → h.disabled ≡ false
      → h.stopped ≡ false
      → All Readable (entries a cb h)
      → length (entries a cb h) ≤ cb.capacity h.buffer
      → let (h', ec, file) = stop a cb opening h in
        (ec ≡ opening_code opening)
        × (h'.stopped ≡ true)
        × ((h'' : Hosts a cb) × (start a cb (reopened opening file) h'
              ≡ returned h'' (opening_code opening))
            × (h''.stopped ≡ false)
            × (entries a cb h'' ≡ left_over opening (entries a cb h)))
  unfolding start stop load
  start-stop opens h on running r room =
      let (ec, empty, rest) = start-stop_opened h on running r room in (ec, ground arith, rest)
  start-stop fails_to_open h on running r room =
      let b = cb.clear h.buffer in
      (
        ground arith,
        ground arith,
        (record h { stopped = false; buffer = b }, ground arith, refl, cb.to_list-clear h.buffer),
      )
  start-stop is_bad h on running r room =
      (ground arith, ground arith, (record h { stopped = false }, ground arith, refl, refl))

  no_duplicate : (x : Address) → ¬ IsDistinct a cb (x ∷ x ∷ [])
  no_duplicate x d = ground arith

  -- `start` does not look for duplicates: on a pool that is enabled, stopped and empty and has
  -- room for two, a file with one line twice, that of an authority with a port, gives two entries
  -- with the same port and ip.
  pub start-not-IsDistinct :
      (line : Line) (host : Authority) (h : Hosts a cb)
      → parse line ≡ some host
      → authority_port host ≢ 0
      → h.disabled ≡ false
      → h.stopped ≡ true
      → entries a cb h ≡ []
      → 2 ≤ cb.capacity h.buffer
      → (h' : Hosts a cb) × (start a cb (some (line ∷ line ∷ [])) h ≡ returned h' success)
        × (¬ IsDistinct a cb (entries a cb h'))
  unfolding start load
  start-not-IsDistinct line host h parsed port on halted empty room =
      let x = to_network_address host in
      let b = cb.push_back x (cb.push_back x h.buffer) in
      let once : cb.to_list (cb.push_back x h.buffer) ≡ x ∷ [] =
        ground (arith, cb.to_list-push_back x h.buffer) in
      let twice : cb.to_list b ≡ x ∷ x ∷ [] = ground (
        arith,
        cb.to_list-push_back x (cb.push_back x h.buffer),
        cb.capacity-push_back x h.buffer,
      ) in
      (
        record h { stopped = false; buffer = b },
        ground arith,
        λ d. no_duplicate x (subst (IsDistinct a cb) twice d),
      )
