-- ===== src/Media/Companding.antt =====
-- What is decoded from mu-law and encoded again is the same byte.
use sipbridge.Media.{linear_to_mu_law, magnitude, mu_law_decode}
use sipbridge.Prelude.{
  ℕ, zero, suc, ◌<◌, ◌≤◌, ◌≡◌, refl, Bool, true, ◌&&◌, arith, leb, ◌==◌, ==_iff, Bool-cases, inl,
  inr, if◌then◌else◌,
}

-- The test at all numbers below `n`.
abbrev below_all : (ℕ → Bool) → ℕ → Bool
below_all p zero = true
below_all p (suc n) = p n && below_all p n

below_all_lem : (p : ℕ → Bool) (n u : ℕ) → below_all p n ≡ true → u < n → p u ≡ true
below_all_lem p zero u h small = ground arith
below_all_lem p (suc n) u h small = elim (Bool-cases (u == n)) [
  | inl e ↦ let is : u ≡ n = ground arith in rw is (ground arith)
  | inr e ↦ below_all_lem p n u (ground arith) (ground arith)
]

-- What a byte comes back as.
abbrev positive_zero : ℕ → ℕ
positive_zero u = if u == 127 then 255 else u

abbrev comes_back : ℕ → Bool
comes_back u =
    (linear_to_mu_law (mu_law_decode u) == positive_zero u)
    && leb (magnitude (mu_law_decode u)) 32124

all-comes_back : below_all comes_back 256 ≡ true
unfolding linear_to_mu_law mu_law_decode
all-comes_back = refl

-- A mu-law byte that is decoded and encoded again is the same byte, except for 127, the negative
-- zero, which comes back as the positive zero 255. The decoded sample is at most 32124 in size.
pub linear_to_mu_law-mu_law_decode :
    (u : ℕ)
    → u < 256
    → (linear_to_mu_law (mu_law_decode u) ≡ (if u == 127 then 255 else u))
      × (magnitude (mu_law_decode u) ≤ 32124)
linear_to_mu_law-mu_law_decode u byte =
    let h = below_all_lem comes_back 256 u all-comes_back byte in
    (ground (arith, ==_iff (linear_to_mu_law (mu_law_decode u)) (positive_zero u)), ground arith)
