-- ===== src/Sip/Server/Keys/Laws.antt =====
-- When a recording's logical key leads back to its bridge call.
use sipbridge.Prelude.{
  ℕ, Bool, false, ◌≡◌, refl, none, some, [], ◌∷◌, ◌++◌, ◌==◌, any, arith, ap, Option, Option-cases,
  ◌↔◌, inl, inr,
}
use sipbridge.Sip.Ring.{synthetic_ard_bridge_id}
use sipbridge.Sip.Server.Keys.{bridge_part, resolve_logical, bridge_logical_key, bridge_call}
use sipbridge.Text.{Text, codes, cut, trim_space}

abbrev pub has_colon : Text → Bool
has_colon = any (λ c. c == b':')

cut-append :
    (b : ℕ) (s rest : Text) → any (λ c. c == b) s ≡ false → cut b (s ++ (b ∷ rest)) ≡ some (s, rest)
unfolding cut
cut-append b [] rest h = ground arith
cut-append b (c ∷ s) rest h = ground (arith, cut-append b s rest)

-- A bridge id without a colon: the logical key of a recording leads to the bridge call.
resolve_logical-bridge :
    (bridge_id key : Text)
    → has_colon bridge_id ≡ false
    → resolve_logical (bridge_logical_key bridge_id key) ≡ bridge_call bridge_id key
unfolding resolve_logical
resolve_logical-bridge bridge_id key h = ap bridge_part (cut-append b':' bridge_id key h)

-- The synthetic bridge of a conference group is never reached: the key is split at the wrong colon.
pub resolve_logical-group :
    (group_id key : Text)
    → resolve_logical (bridge_logical_key (synthetic_ard_bridge_id group_id) key)
      ≡ bridge_call (codes "ardGroup") (trim_space group_id ++ (b':' ∷ key))
unfolding resolve_logical synthetic_ard_bridge_id
resolve_logical-group group_id key = refl

cut-append_inverse :
    (b : ℕ) (s rest : Text) → cut b (s ++ (b ∷ rest)) ≡ some (s, rest) → any (λ c. c == b) s ≡ false
unfolding cut
cut-append_inverse b [] rest h = refl
cut-append_inverse b (c ∷ s) rest h = elim (Option-cases (cut b (s ++ (b ∷ rest)))) [
  | inl e ↦ ground (arith, e, h)
  | inr (p, e) ↦ ground (arith, e, h, cut-append_inverse b s rest)
]

bridge_part_inverse :
    (o : Option (Text × Text)) (bridge_id key : Text)
    → bridge_part o ≡ bridge_call bridge_id key
    → o ≡ some (bridge_id, key)
bridge_part_inverse none bridge_id key h = cc
bridge_part_inverse (some (b, k)) bridge_id key h = cc

-- The logical key of a recording leads back to the bridge call it was made for exactly when the
-- bridge id has no colon.
pub resolve_logical-bridge_iff :
    (bridge_id key : Text)
    → (resolve_logical (bridge_logical_key bridge_id key) ≡ bridge_call bridge_id key)
      ↔ (has_colon bridge_id ≡ false)
unfolding resolve_logical
resolve_logical-bridge_iff bridge_id key = (
  λ h.
      cut-append_inverse b':' bridge_id key
        (bridge_part_inverse (cut b':' (bridge_id ++ (b':' ∷ key))) bridge_id key h),
  resolve_logical-bridge bridge_id key,
)
