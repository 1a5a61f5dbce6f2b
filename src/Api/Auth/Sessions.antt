-- ===== src/Api/Auth/Sessions.antt =====
-- A token is good for whom it was issued to, and no longer than it was issued for.
use mathlib.Core.Path.{subst}
use sipbridge.Api.Auth.{Principal, SessionRecord, Sessions, issue, verify, checked}
use sipbridge.Maps.Laws.{lookup-delete, lookup-insert}
use sipbridge.Maps.{delete, insert, lookup}
use sipbridge.Prelude.{
  ℕ, ◌+◌, ◌≤◌, ◌≡◌, refl, sym, ap, ◌∙◌, unless-some, ◌⊎◌, inl, inr, false, none, some, List, [],
  ◌∷◌, arith, ltb, if◌then◌else◌, Bool-cases, Option-cases, some-injective,
}
use sipbridge.Text.Laws.{text_eq_iff, text_eq_refl}
use sipbridge.Text.{Text, is_empty, text_eq, trim_space}

-- What happens to the store of sessions.
pub data SessionEvent : Type 0 where
  issued : Principal → ℕ → ℕ → Text → SessionEvent
  verified : Text → ℕ → SessionEvent

unfoldable pub run_sessions : List SessionEvent → Sessions → Sessions
unfolding issue verify
run_sessions [] s = s
run_sessions (issued p ttl now tok ∷ rest) s = run_sessions rest (issue p ttl now tok s)
run_sessions (verified tok now ∷ rest) s = run_sessions rest (verify tok now s).0

-- Among the events, the token was issued to the principal, to last until `until`.
pub Issued : Text → Principal → ℕ → List SessionEvent → Type 0
Issued tok p until [] = ⊥
Issued tok p until (verified t now ∷ rest) = Issued tok p until rest
Issued tok p until (issued q ttl now t ∷ rest) =
    ((t ≡ tok) × (q ≡ p) × (now + ttl ≡ until)) ⊎ Issued tok p until rest

deleted-lookup :
    (t tok : Text) (s : Sessions) (rec : SessionRecord)
    → lookup tok (delete t s) ≡ some rec
    → lookup tok s ≡ some rec
deleted-lookup t tok s rec h =
    (unless-some (text_eq t tok) (lookup tok s) rec (sym (lookup-delete tok t s) ∙ h)).1

verify-lookup :
    (t tok : Text) (now : ℕ) (s : Sessions) (rec : SessionRecord)
    → lookup tok (verify t now s).0 ≡ some rec
    → lookup tok s ≡ some rec
unfolding verify
verify-lookup t tok now s rec h = elim (Bool-cases (is_empty (trim_space t))) [
  | inl e ↦ rw e at h
  | inr filled ↦ elim (Option-cases (lookup t s)) [
    | inl e ↦ rw (filled, e) at h
    | inr (old, e) ↦ elim (Bool-cases (ltb old.expires_at now)) [
      | inr fresh ↦ rw (filled, e, fresh) at h
      | inl late ↦ deleted-lookup t tok s rec (rw (filled, e, late) at h)
    ]
  ]
]

issue-lookup :
    (p : Principal) (ttl now : ℕ) (t tok : Text) (s : Sessions) (rec : SessionRecord)
    → lookup tok (issue p ttl now t s) ≡ some rec
    → (lookup tok s ≡ some rec) ⊎ ((t ≡ tok) × (p ≡ rec.principal) × (now + ttl ≡ rec.expires_at))
unfolding issue
issue-lookup p ttl now t tok s rec h =
    let there =
      sym (lookup-insert tok t (record { principal = p; expires_at = now + ttl }) s) ∙ h in
    elim (Bool-cases (text_eq t tok)) [
      | inr e ↦ inl (rw e at there)
      | inl e ↦
          let it =
            some-injective (record { principal = p; expires_at = now + ttl }) rec (rw e at there) in
          inr (
            (text_eq_iff t tok).0 e,
            ap (λ (r : SessionRecord). r.principal) it,
            ap (λ (r : SessionRecord). r.expires_at) it,
          )
    ]

run_sessions-Issued :
    (events : List SessionEvent) (s : Sessions) (tok : Text) (rec : SessionRecord)
    → lookup tok (run_sessions events s) ≡ some rec
    → (lookup tok s ≡ some rec) ⊎ Issued tok rec.principal rec.expires_at events
unfolding run_sessions Issued
run_sessions-Issued [] s tok rec h = inl h
run_sessions-Issued (verified t now ∷ rest) s tok rec h =
    elim (run_sessions-Issued rest (verify t now s).0 tok rec h) [
      | inl here ↦ inl (verify-lookup t tok now s rec here)
      | inr later ↦ inr later
    ]
run_sessions-Issued (issued p ttl now t ∷ rest) s tok rec h =
    elim (run_sessions-Issued rest (issue p ttl now t s) tok rec h) [
      | inl here ↦ elim (issue-lookup p ttl now t tok s rec here) [
        | inl before ↦ inl before
        | inr fresh ↦ inr (inl fresh)
      ]
      | inr later ↦ inr (inr later)
    ]

not_later : (a b : ℕ) → ltb a b ≡ false → b ≤ a
not_later a b h = ground arith

verified-some :
    (tok : Text) (now : ℕ) (s : Sessions) (p : Principal)
    → (verify tok now s).1 ≡ some p
    → (rec : SessionRecord) × (lookup tok s ≡ some rec)
      × (rec.principal ≡ p)
      × (now ≤ rec.expires_at)
unfolding verify
verified-some tok now s p h = elim (Bool-cases (is_empty (trim_space tok))) [
  | inl e ↦ let bad : none ≡ some p = rw e at h in cc
  | inr filled ↦ elim (Option-cases (lookup tok s)) [
    | inl e ↦ let bad : none ≡ some p = rw (filled, e) at h in cc
    | inr (rec, e) ↦ elim (Bool-cases (ltb rec.expires_at now)) [
      | inl late ↦ let bad : none ≡ some p = rw (filled, e, late) at h in cc
      | inr fresh ↦
          let it : some rec.principal ≡ some p = rw (filled, e, fresh) at h in
          (rec, e, some-injective rec.principal p it, not_later rec.expires_at now fresh)
    ]
  ]
]

-- Whatever tokens were issued and verified before, beginning with no session: a token that is
-- verified stands for a principal to whom that token was issued, and the time is not later than
-- the one until which it was issued.
pub verify-Issued :
    (events : List SessionEvent) (tok : Text) (now : ℕ) (p : Principal)
    → (verify tok now (run_sessions events [])).1 ≡ some p
    → (until : ℕ) × Issued tok p until events × (now ≤ until)
unfolding lookup
verify-Issued events tok now p h =
    let found = verified-some tok now (run_sessions events []) p h in
    elim (run_sessions-Issued events [] tok found.0 found.1) [
      | inl before ↦ cc
      | inr given ↦ (
        found.0.expires_at,
        subst (λ (q : Principal). Issued tok q found.0.expires_at events) found.2 given,
        found.3,
      )
    ]

pub checked-some :
    (tok : Text) (now : ℕ) (s : Sessions) (rec : SessionRecord)
    → (checked tok now s (some rec)).1
      ≡ (if ltb rec.expires_at now then none else some rec.principal)
checked-some tok now s rec = elim (Bool-cases (ltb rec.expires_at now)) [
  | inl e ↦ rw e refl
  | inr e ↦ rw e refl
]

-- A token that is not blank is verified, right after it was issued, exactly until its time is over.
pub verify-issue :
    (p : Principal) (ttl start now : ℕ) (tok : Text) (s : Sessions)
    → is_empty (trim_space tok) ≡ false
    → (verify tok now (issue p ttl start tok s)).1
      ≡ (if ltb (start + ttl) now then none else some p)
unfolding verify issue
verify-issue p ttl start now tok s filled =
    let there = lookup-insert tok tok (record { principal = p; expires_at = start + ttl }) s in
    let here : lookup tok (insert tok (record { principal = p; expires_at = start + ttl }) s)
        ≡ some (record { principal = p; expires_at = start + ttl }) =
      there ∙ rw (text_eq_refl tok) refl in
    rw (filled, here)
      (checked-some tok now (issue p ttl start tok s)
        (record { principal = p; expires_at = start + ttl }))
