-- ===== src/Hosts/Loop.antt =====
-- An invariant rule for the loop of the bulk store of src/hosts.cpp.
use bitprim_network.Base.{
  ℕ, zero, suc, ◌≡◌, List, some, arith, subst, ltb, get_elem?, Bool-cases, Option-cases, inl, inr,
}
use bitprim_network.Hosts.Library.{Addresses, CircularBuffer}
use bitprim_network.Hosts.{visit, store_from}

module _ {ℓ} (a : Addresses) (cb : CircularBuffer a.Address) (P : cb.Buffer → Type ℓ) where
  pub store_from_inv :
      ((host : a.Address) (b : cb.Buffer) → P b → P (visit a cb host b))
      → (fuel limit step index : ℕ) (hosts : List a.Address) (b : cb.Buffer) {b' : cb.Buffer}
      → store_from a cb fuel limit step index hosts b ≡ some b'
      → P b
      → P b'
  unfolding store_from
  store_from_inv keep zero limit step index hosts b e d = absurd (cc)
  store_from_inv keep (suc fuel) limit step index hosts b {b'} e d =
      elim (Bool-cases (ltb index limit)) [
        | inl more ↦ elim (Option-cases (get_elem? hosts index)) [
          | inl out ↦ absurd (ground arith)
          | inr (host, at) ↦
              store_from_inv keep fuel limit step (a.ceiling_add index step) hosts
                (visit a cb host b) (ground arith) (keep host b d)
        ]
        | inr done ↦ let same : b ≡ b' = ground arith in subst P same d
      ]
