-- ===== src/Hosts/Plain.antt =====
-- Small addresses and a small circular buffer that behave as the records of Hosts/Library say, for the
-- tests.
use bitprim_network.Base.{
  ℕ, ◌+◌, refl, min, false, not, List, [], Option, some, ◌==◌, erase_at, max_size_t,
}
use bitprim_network.Hosts.Library.{Addresses, CircularBuffer, push_last}
use bitprim_network.Hosts.{Hosts}

pub record Peer : Type 0 where
  pub ip : ℕ
  pub port : ℕ

abbrev pub peer : ℕ → ℕ → Peer
peer i p = record { ip = i; port = p }

-- A text that is `none` does not parse.
abbrev pub peers : Addresses
peers = record {
  Address = Peer;
  Authority = Peer;
  Line = Option Peer;
  ip = λ p. p.ip;
  port = λ p. p.port;
  is_valid = λ p. not (p.ip == 0);
  max_address = 1000;
  parse = λ l. l;
  print = some;
  authority_port = λ p. p.port;
  to_network_address = λ p. p;
  to_authority = λ p. p;
  ceiling_add = λ m n. min (m + n) max_size_t;
  ceiling_add_lem = λ m n. refl;
}

pub record Ring : Type 0 where
  pub cap : ℕ
  pub items : List Peer

abbrev pub ring : CircularBuffer Peer
ring = record {
  Buffer = Ring;
  create = λ n. record { cap = n; items = [] };
  capacity = λ b. b.cap;
  to_list = λ b. b.items;
  push_back = λ x b. record b { items = push_last b.cap x b.items };
  erase = λ i b. record b { items = erase_at i b.items };
  clear = λ b. record b { items = [] };
  to_list-create = λ n. refl;
  capacity-create = λ n. refl;
  to_list-push_back = λ x b. refl;
  capacity-push_back = λ x b. refl;
  to_list-erase = λ i b. refl;
  capacity-erase = λ i b. refl;
  to_list-clear = λ b. refl;
  capacity-clear = λ b. refl;
}

abbrev pub of_list : List Peer → Hosts peers ring
of_list xs = record {
  capacity = 3;
  buffer = record { cap = 3; items = xs };
  stopped = false;
  disabled = false;
}
