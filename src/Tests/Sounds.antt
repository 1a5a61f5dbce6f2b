-- ===== src/Tests/Sounds.antt =====
-- Samples and telephone keys.
use sipbridge.Media.Companding.{linear_to_mu_law-mu_law_decode}
use sipbridge.Media.Events.{EventState, decode_all, decode_all-once, event_digit}
use sipbridge.Media.{linear_to_mu_law, magnitude, mu_law_decode}
use sipbridge.Prelude.{◌≡◌, ◌≤◌, refl, pos, negsuc, true, none, [], ◌∷◌, arith}

linear_to_mu_law-mu_law_decode_example :
    (linear_to_mu_law (mu_law_decode 16) ≡ 16) × (magnitude (mu_law_decode 16) ≤ 32124)
linear_to_mu_law-mu_law_decode_example = linear_to_mu_law-mu_law_decode 16 (omega arith)

mu_law-extremes :
    (mu_law_decode 0 ≡ negsuc 32123) × (mu_law_decode 128 ≡ pos 32124) × (mu_law_decode 255 ≡ pos 0)
unfolding mu_law_decode
mu_law-extremes = (refl, refl, refl)

abbrev quiet_keys : EventState
quiet_keys = record { last_event = 255; last_event_at = none; has_callback = true }

decode_all-once_example :
    (decode_all ((1000, 11 ∷ 138 ∷ 3 ∷ 32 ∷ []) ∷ (2000, 11 ∷ 138 ∷ 3 ∷ 32 ∷ []) ∷ []) quiet_keys).1
    ≡ event_digit 11 ∷ []
decode_all-once_example =
    decode_all-once 1000 11 138 3 32 ((2000, 11 ∷ 138 ∷ 3 ∷ 32 ∷ []) ∷ []) quiet_keys (omega arith)
      (omega arith) refl (omega arith) ((omega arith, (138, 3, 32, refl)), tt)
