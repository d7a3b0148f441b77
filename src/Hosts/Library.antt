-- ===== src/Hosts/Library.antt =====
-- What src/hosts.cpp uses of libbitcoin and boost, with the documented behaviour that it relies on.
use bitprim_network.Base.{
  ℕ, ◌+◌, ◌≤◌, ◌≡◌, min, Bool, List, [], ◌∷◌, ◌++◌, Option, Perm, length, erase_at, tail, ltb,
  if◌then◌else◌, max_size_t,
}

-- `message::network_address`, `config::authority` and the constant and sum of libbitcoin. `parse` is
-- the constructor of an authority from a text: `none` is an exception.
pub record Addresses : Type 1 where
  pub Address : Type 0
  pub Authority : Type 0
  pub Line : Type 0
  pub ip : Address → ℕ
  pub port : Address → ℕ
  pub is_valid : Address → Bool
  pub max_address : ℕ
  pub parse : Line → Option Authority
  pub print : Authority → Line
  pub authority_port : Authority → ℕ
  pub to_network_address : Authority → Address
  pub to_authority : Address → Authority
  pub ceiling_add : ℕ → ℕ → ℕ
  pub ceiling_add_lem : (m n : ℕ) → ceiling_add m n ≡ min (m + n) max_size_t

-- A full `boost::circular_buffer` drops its oldest element for a new one.
abbrev pub push_last {ℓ} : {A : Type ℓ} → ℕ → A → List A → List A
push_last capacity x xs = if ltb (length xs) capacity then xs ++ x ∷ [] else tail (xs ++ x ∷ [])

-- `boost::circular_buffer`, oldest element first.
pub record CircularBuffer (A : Type 0) : Type 1 where
  pub Buffer : Type 0
  pub create : ℕ → Buffer
  pub capacity : Buffer → ℕ
  pub to_list : Buffer → List A
  pub push_back : A → Buffer → Buffer
  pub erase : ℕ → Buffer → Buffer
  pub clear : Buffer → Buffer
  pub to_list-create : (n : ℕ) → to_list (create n) ≡ []
  pub capacity-create : (n : ℕ) → capacity (create n) ≡ n
  pub to_list-push_back :
      (x : A) (b : Buffer) → to_list (push_back x b) ≡ push_last (capacity b) x (to_list b)
  pub capacity-push_back : (x : A) (b : Buffer) → capacity (push_back x b) ≡ capacity b
  pub to_list-erase : (i : ℕ) (b : Buffer) → to_list (erase i b) ≡ erase_at i (to_list b)
  pub capacity-erase : (i : ℕ) (b : Buffer) → capacity (erase i b) ≡ capacity b
  pub to_list-clear : (b : Buffer) → to_list (clear b) ≡ []
  pub capacity-clear : (b : Buffer) → capacity (clear b) ≡ capacity b

-- `pseudo_random`: what one call draws. A shuffle permutes.
pub record Random : Type 1 where
  pub next : ℕ → ℕ → ℕ
  pub next_bounds : (lo hi : ℕ) → lo ≤ hi → (lo ≤ next lo hi) × (next lo hi ≤ hi)
  pub shuffle : {A : Type 0} → List A → List A
  pub shuffle-perm : {A : Type 0} (xs : List A) → Perm (shuffle xs) xs
