-- ===== src/Config/Cluster/Laws.antt =====
-- Admission limits that validation accepts.
use sipbridge.Config.Cluster.{
  ClusterLimits, ClusterSpec, signed_64, eighty_percent, effective_soft_max, merge_cluster_limits,
  validate_cluster_limits, validate_cluster_spec,
}
use sipbridge.Text.Laws.{trim_space-trim_space}
use sipbridge.Text.{Text}
use sipbridge.Prelude.{
  Bool, ℕ, ◌≤◌, ◌*◌, ◌/◌, ◌%◌, ◌^◌, ◌<◌, ℤ, pos, negsuc, lt_int, below, false, true, ◌≡◌, refl,
  none, some, arith,
}

eighty_percent_bound : (n : ℕ) → n * 8 / 10 ≤ n
eighty_percent_bound n = omega arith

no_wrap : (n : ℕ) → n * 8 < 2 ^ 63 → n * 8 % 2 ^ 64 ≡ n * 8
no_wrap n h = omega (arith, h)

fits_signed : (n : ℕ) → n * 8 < 2 ^ 63 → signed_64 (n * 8 % 2 ^ 64) ≡ pos (n * 8)
fits_signed n h = rw (no_wrap n h) (ground (arith, h))

eighty_percent-fits : (n : ℕ) → n * 8 < 2 ^ 63 → eighty_percent (pos n) ≡ pos (n * 8 / 10)
eighty_percent-fits n h = rw (fits_signed n h) refl

-- The same on the soft number.
soft_max-within :
    (c : ClusterLimits) (m : ℕ) (k : ℤ)
    → c.max_concurrent_calls ≡ pos m
    → m * 8 < 2 ^ 63
    → c.soft_max_concurrent_calls ≡ k
    → validate_cluster_limits c ≡ none
    → (below 0 (effective_soft_max c) ≡ false)
      × (lt_int c.max_concurrent_calls (effective_soft_max c) ≡ false)
unfolding validate_cluster_limits effective_soft_max
soft_max-within c m (pos k) em small ek h =
    ground (arith, em, ek, h, eighty_percent-fits m small, eighty_percent_bound m)
soft_max-within c m (negsuc k) em small ek h = ground (arith, em, ek, h)

-- Limits that validation accepts, with a hard maximum whose product with 8 fits 64 bits with a
-- sign: the soft threshold is not negative and not above the hard maximum.
pub effective_soft_max-within :
    (c : ClusterLimits) (max : ℕ)
    → c.max_concurrent_calls ≡ pos max
    → max * 8 < 2 ^ 63
    → validate_cluster_limits c ≡ none
    → (below 0 (effective_soft_max c) ≡ false)
      × (lt_int c.max_concurrent_calls (effective_soft_max c) ≡ false)
effective_soft_max-within c max limit small h =
    soft_max-within c max c.soft_max_concurrent_calls limit small refl h

-- An overlay that sets all four fields and passes its own validation gives limits that pass
-- theirs, whatever the environment's values are.
pub merge_cluster_limits-valid :
    (base : ClusterLimits) (sp : ClusterSpec) (m k : ℤ) (e : Bool) (u : Text)
    → sp.max_concurrent_calls ≡ some m
    → sp.soft_max_concurrent_calls ≡ some k
    → sp.overflow_redirect_enabled ≡ some e
    → sp.overflow_redirect_sip_uri ≡ some u
    → validate_cluster_spec (some sp) ≡ none
    → validate_cluster_limits (merge_cluster_limits base (some sp)) ≡ none
unfolding validate_cluster_spec validate_cluster_limits merge_cluster_limits
merge_cluster_limits-valid base sp (pos m) (pos k) true u hm hk he hu h =
    ground (arith, hm, hk, he, hu, h, trim_space-trim_space u)
merge_cluster_limits-valid base sp (pos m) (pos k) false u hm hk he hu h =
    ground (arith, hm, hk, he, hu, h)
merge_cluster_limits-valid base sp (pos m) (negsuc k) e u hm hk he hu h =
    ground (arith, hm, hk, he, hu, h)
merge_cluster_limits-valid base sp (negsuc m) k e u hm hk he hu h =
    ground (arith, hm, hk, he, hu, h)
