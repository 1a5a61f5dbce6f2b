-- ===== src/Sip/Message/Laws.antt =====
-- What `ParseMessage` promises of its results.
use sipbridge.Maps.{Map}
use sipbridge.Prelude.{
  ℕ, zero, suc, ◌+◌, ◌≤◌, ◌<◌, ◌≡◌, ◌≢◌, refl, sym, ◌∙◌, ap, Option, none, some, List, [], ◌∷◌,
  arith, length, take, Option-cases, inl, inr,
}
use mathlib.Core.Path.{subst}
use sipbridge.Sip.Message.{
  with_body, with_headers, Message, Parsed, ok, err, crash, out_of_fuel, ◌>>=◌, read_line,
  read_headers, read_body_of, content_length, parse_start_line, parse_message, start_line,
  add_header, header, all_headers,
}
use sipbridge.Text.{Text, cut}

length-cut :
    (b : ℕ) (s before after : Text)
    → cut b s ≡ some (before, after)
    → length before + length after < length s
unfolding cut
length-cut b [] before after h = cc
length-cut b (c ∷ s) before after h = elim (Option-cases (cut b s)) [
  | inl e ↦ ground (arith, e, h)
  | inr ((x, y), e) ↦ ground (arith, e, h, length-cut b s x y e)
]

read_line-shorter : (s line rest : Text) → read_line s ≡ some (line, rest) → length rest < length s
unfolding read_line
read_line-shorter [] line rest h = cc
read_line-shorter (c ∷ s) line rest h = elim (Option-cases (cut 10 (c ∷ s))) [
  | inl e ↦ ground (arith, e, h)
  | inr ((x, y), e) ↦ ground (arith, e, h, length-cut 10 (c ∷ s) x y e)
]

module _ {ℓ κ} {A : Type ℓ} {B : Type κ} where
  bind-in_fuel :
      (p : Parsed A) (f : A → Parsed B)
      → p ≢ err out_of_fuel
      → ((a : A) → p ≡ ok a → f a ≢ err out_of_fuel)
      → (p >>= f) ≢ err out_of_fuel
  bind-in_fuel (ok a) f h g = g a refl
  bind-in_fuel (err e) f h g = λ bad. h (ground (arith, bad))
  bind-in_fuel crash f h g = λ bad. cc

  bind_inverse :
      (p : Parsed A) (f : A → Parsed B) {b : B}
      → (p >>= f) ≡ ok b
      → (a : A) × (p ≡ ok a) × (f a ≡ ok b)
  bind_inverse (ok a) f h = (a, refl, h)
  bind_inverse (err e) f h = cc
  bind_inverse crash f h = cc

read_headers-in_fuel :
    (fuel : ℕ) (s : Text) (headers : Map (List Text))
    → length s < fuel
    → read_headers fuel s headers ≢ err out_of_fuel
unfolding read_headers
read_headers-in_fuel zero s headers h = λ e. omega arith
read_headers-in_fuel (suc fuel) s headers h = elim (Option-cases (read_line s)) [
  | inl e ↦ λ bad. cc
  | inr ((line, rest), e) ↦
      let shorter = read_line-shorter s line rest e in
      let rec = read_headers-in_fuel fuel rest (add_header line headers) (omega arith) in
      λ bad. ground (arith, bad, e, rec)
]

length-take : (n : ℕ) (s : Text) → n ≤ length s → length (take n s) ≡ n
length-take zero s h = refl
length-take (suc n) [] h = omega arith
length-take (suc n) (c ∷ s) h = ap suc (length-take n s (omega arith))

read_body_of-length :
    (limit n : ℕ) (s body : Text) → read_body_of limit n s ≡ ok body → length body ≡ n
unfolding read_body_of
read_body_of-length limit n s body h = ground (arith, length-take n s)

parse_start_line-in_fuel : (line : Text) → parse_start_line line ≢ err out_of_fuel
unfolding parse_start_line
parse_start_line-in_fuel line = λ bad. ground (arith, bad)

start_line-in_fuel : (r : Option (Text × Text)) → start_line r ≢ err out_of_fuel
start_line-in_fuel none = λ bad. cc
start_line-in_fuel (some (line, rest)) =
    bind-in_fuel (parse_start_line line) (λ m. ok (m, rest)) (parse_start_line-in_fuel line)
      (λ m e bad. cc)

read_body_of-in_fuel : (limit n : ℕ) (s : Text) → read_body_of limit n s ≢ err out_of_fuel
unfolding read_body_of
read_body_of-in_fuel limit n s = λ bad. ground (arith, bad)

with_body-in_fuel :
    (limit : ℕ) (m : Message) (rest : Text) → with_body limit m rest ≢ err out_of_fuel
with_body-in_fuel limit m rest =
    bind-in_fuel (read_body_of limit (content_length m) rest)
      (λ body. ok (record m { body = body })) (read_body_of-in_fuel limit (content_length m) rest)
      (λ body e bad. cc)

with_headers-in_fuel : (limit : ℕ) (p : Message × Text) → with_headers limit p ≢ err out_of_fuel
with_headers-in_fuel limit (m, rest) =
    bind-in_fuel (read_headers (suc (length rest)) rest [])
      (λ q. with_body limit (record m { headers = q.0 }) q.1)
      (read_headers-in_fuel (suc (length rest)) rest [] (omega arith))
      (λ q e. with_body-in_fuel limit (record m { headers = q.0 }) q.1)

-- The parser always ends: its fuel, one more than the length of the text, never runs out.
pub parse_message-in_fuel :
    (alloc_limit : ℕ) (b : Text) → parse_message alloc_limit b ≢ err out_of_fuel
unfolding parse_message
parse_message-in_fuel alloc_limit b =
    bind-in_fuel (start_line (read_line b)) (with_headers alloc_limit)
      (start_line-in_fuel (read_line b)) (λ p e. with_headers-in_fuel alloc_limit p)

content_length-body :
    (m : Message) (body : Text) → content_length (record m { body = body }) ≡ content_length m
unfolding content_length header all_headers
content_length-body m body = refl

with_body-body :
    (limit : ℕ) (m : Message) (rest : Text) {r : Message}
    → with_body limit m rest ≡ ok r
    → length r.body ≡ content_length r
with_body-body limit m rest {r} h =
    let (body, filled, done) =
      bind_inverse (read_body_of limit (content_length m) rest) (λ b. ok (record m { body = b }))
        h in
    let is : record m { body = body } ≡ r = ground (arith, done) in
    subst (λ (x : Message). length x.body ≡ content_length x) is
      (read_body_of-length limit (content_length m) rest body filled
        ∙ sym (content_length-body m body))

-- A parsed message has the body that its Content-Length announces, no byte more and no byte less.
pub parse_message-body :
    (alloc_limit : ℕ) (b : Text) (m : Message)
    → parse_message alloc_limit b ≡ ok m
    → length m.body ≡ content_length m
unfolding parse_message
parse_message-body alloc_limit b m h =
    let ((head, rest), started, h1) =
      bind_inverse (start_line (read_line b)) (with_headers alloc_limit) h in
    let (q, read, h2) =
      bind_inverse (read_headers (suc (length rest)) rest [])
        (λ x. with_body alloc_limit (record head { headers = x.0 }) x.1) h1 in
    with_body-body alloc_limit (record head { headers = q.0 }) q.1 h2
