-- ===== src/Services/Addresses.antt =====
-- The cluster addresses of services.
use distributed_container_or.Base.{ℕ, ◌%◌, ◌≤◌, ◌≡◌, ap, ◌↔◌, arith}
use distributed_container_or.Services.{octets}

abbrev pub residue : ℕ → ℕ
residue seed = seed % 65_534 % 64_516

-- The octets that a seed gives stay from 1 to 254, and two seeds give the same ones, so the same
-- address, exactly where they agree modulo 65534 and then modulo 64516: nothing else tells the
-- addresses of two services apart.
pub octets_iff :
    (s t : ℕ)
    → (1 ≤ (octets s).0)
      × ((octets s).0 ≤ 254)
      × (1 ≤ (octets s).1)
      × ((octets s).1 ≤ 254)
      × (octets s ≡ octets t ↔ residue s ≡ residue t)
unfolding octets
octets_iff s t = (
  omega arith,
  omega arith,
  omega arith,
  omega arith,
  (λ e. omega (arith, ap (λ (p : ℕ × ℕ). p.0) e, ap (λ (p : ℕ × ℕ). p.1) e), λ e. ground arith),
)
