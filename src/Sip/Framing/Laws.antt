-- ===== src/Sip/Framing/Laws.antt =====
-- A message is cut from the stream in the same way whatever comes after it.
use mathlib.Core.Path.{subst}
use sipbridge.Prelude.{
  ℕ, zero, suc, ◌≤◌, ◌≡◌, refl, ap, false, none, some, [], ◌∷◌, ◌++◌, ◌==◌, drop, length,
  length-append, ltb, take, Bool-cases, Option-cases, some-injective, inl, inr, arith,
}
use sipbridge.Sip.Framing.{
  is_line_end, body_length, content_length_from_header_block, failed, message, panicked,
  read_header, read_line_bytes, read_next_sip_message, with_body, written,
}
use sipbridge.Text.{Text, cut, is_empty, trim_right}

no_fuel : (n : ℕ) → ¬ (suc n ≤ 0)
no_fuel n h = omega (arith, h)

not_short : (a b : ℕ) → ltb a b ≡ false → b ≤ a
not_short a b h = ground arith

long_enough : (a b : ℕ) → b ≤ a → ltb a b ≡ false
long_enough a b h = ground arith

longer : (s t : Text) (n : ℕ) → n ≤ length s → n ≤ length (s ++ t)
longer s t n h = omega (arith, h, length-append s t)

fuel_grows : (s t : Text) → suc (length s) ≤ suc (length (s ++ t))
fuel_grows s t = omega (arith, length-append s t)

cut-append :
    (b : ℕ) (s t : Text) (p : Text × Text)
    → cut b s ≡ some p
    → cut b (s ++ t) ≡ some (p.0, p.1 ++ t)
unfolding cut
cut-append b [] t p h = cc
cut-append b (c ∷ cs) t p h = elim (Bool-cases (c == b)) [
  | inl e ↦
      let it = some-injective ([], cs) p (rw e at h) in
      rw e (ap (λ (q : Text × Text). some (q.0, q.1 ++ t)) it)
  | inr e ↦ elim (Option-cases (cut b cs)) [
    | inl out ↦ let bad : none ≡ some p = rw (e, out) at h in cc
    | inr (q, found) ↦
        let it = some-injective (c ∷ q.0, q.1) p (rw (e, found) at h) in
        rw (e, cut-append b cs t q found) (ap (λ (r : Text × Text). some (r.0, r.1 ++ t)) it)
  ]
]

cut-length : (b : ℕ) (s : Text) (p : Text × Text) → cut b s ≡ some p → suc (length p.1) ≤ length s
unfolding cut
cut-length b [] p h = cc
cut-length b (c ∷ cs) p h = elim (Bool-cases (c == b)) [
  | inl e ↦
      let it = some-injective ([], cs) p (rw e at h) in
      subst (λ (q : Text × Text). suc (length q.1) ≤ suc (length cs)) it (omega arith)
  | inr e ↦ elim (Option-cases (cut b cs)) [
    | inl out ↦ let bad : none ≡ some p = rw (e, out) at h in cc
    | inr (q, found) ↦
        let it = some-injective (c ∷ q.0, q.1) p (rw (e, found) at h) in
        let less = cut-length b cs q found in
        subst (λ (r : Text × Text). suc (length r.1) ≤ suc (length cs)) it (omega (arith, less))
  ]
]

read_line_bytes-append :
    (s t : Text) (p : Text × Text)
    → read_line_bytes s ≡ some p
    → read_line_bytes (s ++ t) ≡ some (p.0, p.1 ++ t)
unfolding read_line_bytes
read_line_bytes-append s t p h = elim (Option-cases (cut 10 s)) [
  | inl e ↦ let bad : none ≡ some p = rw e at h in cc
  | inr (q, e) ↦
      let it = some-injective (trim_right is_line_end q.0, q.1) p (rw e at h) in
      rw (cut-append 10 s t q e) (ap (λ (r : Text × Text). some (r.0, r.1 ++ t)) it)
]

-- More fuel and more bytes do not change a header that was read.
read_header-append :
    (fuel more : ℕ) (header s t : Text) (p : Text × Text)
    → fuel ≤ more
    → read_header fuel header s ≡ some p
    → read_header more header (s ++ t) ≡ some (p.0, p.1 ++ t)
unfolding read_header
read_header-append zero more header s t p le h = cc
read_header-append (suc fuel) zero header s t p le h = absurd (no_fuel fuel le)
read_header-append (suc fuel) (suc more) header s t p le h =
    elim (Option-cases (read_line_bytes s)) [
      | inl e ↦ let bad : none ≡ some p = rw (read_header, e) at h in cc
      | inr ((line, rest), e) ↦ elim (Bool-cases (is_empty line)) [
        | inl stop ↦
            let it =
              some-injective (header ++ written line, rest) p (rw (read_header, e, stop) at h) in
            rw (read_header, read_line_bytes-append s t (line, rest) e, stop)
              (ap (λ (r : Text × Text). some (r.0, r.1 ++ t)) it)
        | inr go ↦
            rw (read_header, read_line_bytes-append s t (line, rest) e, go)
              (read_header-append fuel more (header ++ written line) rest t p (omega (arith, le))
                (rw (read_header, e, go) at h))
      ]
    ]

message-injective : (a b c d : Text) → message a b ≡ message c d → (a ≡ c) × (b ≡ d)
message-injective a b c d h = (cc, cc)

take-append : (n : ℕ) (s t : Text) → n ≤ length s → take n (s ++ t) ≡ take n s
take-append zero s t le = refl
take-append (suc n) [] t le = absurd (no_fuel n le)
take-append (suc n) (x ∷ s) t le = ap (λ (r : Text). x ∷ r) (take-append n s t (omega (arith, le)))

drop-append : (n : ℕ) (s t : Text) → n ≤ length s → drop n (s ++ t) ≡ drop n s ++ t
drop-append zero s t le = refl
drop-append (suc n) [] t le = absurd (no_fuel n le)
drop-append (suc n) (x ∷ s) t le = drop-append n s t (omega (arith, le))

with_body-append :
    (alloc_limit : ℕ) (header s t msg rest : Text)
    → with_body alloc_limit (some (header, s)) ≡ message msg rest
    → with_body alloc_limit (some (header, s ++ t)) ≡ message msg (rest ++ t)
with_body-append alloc_limit header s t msg rest h =
    let n = body_length (content_length_from_header_block header) in
    elim (Bool-cases (ltb alloc_limit n)) [
      | inl e ↦ let bad : panicked ≡ message msg rest = rw e at h in cc
      | inr e ↦ elim (Bool-cases (ltb (length s) n)) [
        | inl e2 ↦ let bad : failed ≡ message msg rest = rw (e, e2) at h in cc
        | inr e2 ↦
            let le = not_short (length s) n e2 in
            let it = message-injective (header ++ take n s) (drop n s) msg rest (rw (e, e2) at h) in
            rw
              (
                e,
                long_enough (length (s ++ t)) n (longer s t n le),
                take-append n s t le,
                drop-append n s t le,
                it.0,
                it.1,
              )
              refl
      ]
    ]

-- A message that is cut from what has arrived is cut in the same way when more arrives behind it,
-- and what arrived is left for the next one.
pub read_next_sip_message-append :
    (alloc_limit : ℕ) (s t msg rest : Text)
    → read_next_sip_message alloc_limit s ≡ message msg rest
    → read_next_sip_message alloc_limit (s ++ t) ≡ message msg (rest ++ t)
unfolding read_next_sip_message
read_next_sip_message-append alloc_limit s t msg rest h = elim (Option-cases (read_line_bytes s)) [
  | inl e ↦ let bad : failed ≡ message msg rest = rw e at h in cc
  | inr ((first, after), e) ↦ elim (Bool-cases (is_empty first)) [
    | inl blank ↦ let bad : failed ≡ message msg rest = rw (e, blank) at h in cc
    | inr filled ↦ elim (Option-cases (read_header (suc (length after)) (written first) after)) [
      | inl e2 ↦ let bad : failed ≡ message msg rest = rw (e, filled, e2) at h in cc
      | inr ((header, body), e2) ↦
          rw
            (
              read_line_bytes-append s t (first, after) e,
              filled,
              read_header-append (suc (length after)) (suc (length (after ++ t))) (written first)
                  after t (header, body) (fuel_grows after t) e2,
            )
            (with_body-append alloc_limit header body t msg rest (rw (e, filled, e2) at h))
    ]
  ]
]

read_line_bytes-length :
    (s line rest : Text) → read_line_bytes s ≡ some (line, rest) → suc (length rest) ≤ length s
unfolding read_line_bytes
read_line_bytes-length s line rest h = elim (Option-cases (cut 10 s)) [
  | inl e ↦ let bad : none ≡ some (line, rest) = rw e at h in cc
  | inr (q, e) ↦
      let it = some-injective (trim_right is_line_end q.0, q.1) (line, rest) (rw e at h) in
      subst (λ (r : Text × Text). suc (length r.1) ≤ length s) it (cut-length 10 s q e)
]

-- The loop over the header lines of what has arrived ends: more fuel than one above its length
-- changes nothing.
pub read_header-in_fuel :
    (fuel more : ℕ) (header s : Text)
    → suc (length s) ≤ fuel
    → suc (length s) ≤ more
    → read_header fuel header s ≡ read_header more header s
unfolding read_header
read_header-in_fuel zero more header s le lm = absurd (no_fuel (length s) le)
read_header-in_fuel (suc fuel) zero header s le lm = absurd (no_fuel (length s) lm)
read_header-in_fuel (suc fuel) (suc more) header s le lm = elim (Option-cases (read_line_bytes s)) [
  | inl e ↦ rw (read_header, e) refl
  | inr ((line, rest), e) ↦
      let less = read_line_bytes-length s line rest e in
      elim (Bool-cases (is_empty line)) [
        | inl stop ↦ rw (read_header, e, stop) refl
        | inr go ↦
            rw (read_header, e, go)
              (read_header-in_fuel fuel more (header ++ written line) rest (omega (arith, le, less))
                (omega (arith, lm, less)))
      ]
]
