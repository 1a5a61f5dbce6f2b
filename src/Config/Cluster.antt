-- ===== src/Config/Cluster.antt =====
-- Admission limits (internal/config/cluster_spec.go): the overlay of `spec.cluster` on the values
-- of the environment, its validation and the soft threshold.
pub mod Laws
use sipbridge.Prelude.{
  ℕ, zero, suc, ◌+◌, ◌*◌, ◌/◌, ◌%◌, ◌^◌, ◌-◌, ltb, ℤ, pos, negsuc, lt_int, at_least, below, Bool,
  true, false, ◌&&◌, ◌||◌, not, Option, none, some, if◌then◌else◌,
}
use sipbridge.Text.{Text, trim_space, is_empty}

pub record ClusterLimits : Type 0 where
  pub max_concurrent_calls : ℤ
  pub soft_max_concurrent_calls : ℤ
  pub overflow_redirect_enabled : Bool
  pub overflow_redirect_sip_uri : Text

-- The optional overlay: a nil pointer is `none`.
pub record ClusterSpec : Type 0 where
  pub max_concurrent_calls : Option ℤ
  pub soft_max_concurrent_calls : Option ℤ
  pub overflow_redirect_enabled : Option Bool
  pub overflow_redirect_sip_uri : Option Text

pub data ClusterError : Type 0 where
  negative_max negative_soft soft_above_max redirect_uri_required : ClusterError

abbrev or_base {ℓ} : {A : Type ℓ} → Option A → A → A
or_base none base = base
or_base (some a) base = a

abbrev trimmed_or_base : Option Text → Text → Text
trimmed_or_base none base = base
trimmed_or_base (some a) base = trim_space a

unfoldable pub merge_cluster_limits : ClusterLimits → Option ClusterSpec → ClusterLimits
merge_cluster_limits base none = base
merge_cluster_limits base (some spec) = record {
  max_concurrent_calls = or_base spec.max_concurrent_calls base.max_concurrent_calls;
  soft_max_concurrent_calls = or_base spec.soft_max_concurrent_calls base.soft_max_concurrent_calls;
  overflow_redirect_enabled = or_base spec.overflow_redirect_enabled base.overflow_redirect_enabled;
  overflow_redirect_sip_uri =
      trimmed_or_base spec.overflow_redirect_sip_uri base.overflow_redirect_sip_uri;
}

abbrev pub is_positive : ℤ → Bool
is_positive z = at_least 1 z

-- A 64-bit word as a Go `int`.
abbrev pub signed_64 : ℕ → ℤ
signed_64 w = if ltb w (2 ^ 63) then pos w else negsuc (2 ^ 64 - w - 1)

abbrev negated : ℕ → ℤ
negated zero = pos 0
negated (suc n) = negsuc n

-- Go's division by 10, towards zero.
abbrev tenth : ℤ → ℤ
tenth (pos n) = pos (n / 10)
tenth (negsuc n) = negated ((n + 1) / 10)

-- `c * 8 / 10` on a positive count: the product wraps around at 64 bits.
abbrev pub eighty_percent : ℤ → ℤ
eighty_percent (pos n) = tenth (signed_64 (n * 8 % 2 ^ 64))
eighty_percent (negsuc n) = negsuc n

unfoldable pub effective_soft_max : ClusterLimits → ℤ
effective_soft_max c =
    if not (is_positive c.max_concurrent_calls)
    then pos 0
    else if is_positive c.soft_max_concurrent_calls
    then c.soft_max_concurrent_calls
    else eighty_percent c.max_concurrent_calls

unfoldable pub validate_cluster_limits : ClusterLimits → Option ClusterError
validate_cluster_limits c =
    if below 0 c.max_concurrent_calls
    then some ClusterError.negative_max
    else if below 0 c.soft_max_concurrent_calls
    then some ClusterError.negative_soft
    else if is_positive c.max_concurrent_calls
        && lt_int c.max_concurrent_calls c.soft_max_concurrent_calls
    then some ClusterError.soft_above_max
    else if c.overflow_redirect_enabled && is_empty (trim_space c.overflow_redirect_sip_uri)
    then some ClusterError.redirect_uri_required
    else none

-- `max` of the source: -1 when the pointer is nil.
abbrev spec_max : Option ℤ → ℤ
spec_max none = negsuc 0
spec_max (some m) = m

abbrev soft_error : Option ℤ → ℤ → Option ClusterError
soft_error none max = none
soft_error (some s) max =
    if below 0 s
    then some ClusterError.negative_soft
    else if at_least 0 max && lt_int max s
    then some ClusterError.soft_above_max
    else none

abbrev blank_uri : Option Text → Bool
blank_uri none = true
blank_uri (some u) = is_empty (trim_space u)

abbrev redirect_error : Option Bool → Option Text → Option ClusterError
redirect_error (some true) uri =
    if blank_uri uri then some ClusterError.redirect_uri_required else none
redirect_error _ uri = none

abbrev first_error : Option ClusterError → Option ClusterError → Option ClusterError
first_error (some e) rest = some e
first_error none rest = rest

abbrev max_error : Option ℤ → Option ClusterError
max_error none = none
max_error (some m) = if below 0 m then some ClusterError.negative_max else none

unfoldable pub validate_cluster_spec : Option ClusterSpec → Option ClusterError
validate_cluster_spec none = none
validate_cluster_spec (some spec) = first_error (max_error spec.max_concurrent_calls) (
    first_error (soft_error spec.soft_max_concurrent_calls (spec_max spec.max_concurrent_calls))
      (redirect_error spec.overflow_redirect_enabled spec.overflow_redirect_sip_uri))
