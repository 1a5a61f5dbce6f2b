-- ===== src/Sip/Ring/Laws.antt =====
-- Whom a caller rings: never the caller, and within a pair always the other end.
use sipbridge.Config.{Participant}
use sipbridge.Prelude.{false, ◌≡◌, arith}
use sipbridge.Sip.Ring.{rings_participant, end_label}
use sipbridge.Text.Laws.{text_eq_iff, text_eq_refl}
use sipbridge.Text.{Text, text_eq, is_empty}

text_eq_comm : (a b : Text) → text_eq a b ≡ text_eq b a
text_eq_comm a b = ground (arith, text_eq_iff a b, text_eq_iff b a)

-- Two participants with addresses, each in a pair: one rings the other exactly when the other rings
-- the one, and no participant rings itself, whoever the callers are.
pub rings_participant-pairs :
    (u v : Text) (p q : Participant)
    → is_empty p.sip_uri ≡ false
    → is_empty q.sip_uri ≡ false
    → is_empty p.pair_id ≡ false
    → is_empty q.pair_id ≡ false
    → (rings_participant u p.pair_id (end_label p) q
        ≡ rings_participant v q.pair_id (end_label q) p)
      × (rings_participant u p.pair_id (end_label p) p ≡ false)
unfolding rings_participant
rings_participant-pairs u v p q hp hq pp pq = (
  rw (hp, hq, pp, pq, text_eq_comm p.pair_id q.pair_id, text_eq_comm (end_label p) (end_label q))
      (ground arith),
  rw (hp, pp, text_eq_refl (end_label p)) (ground arith),
)
