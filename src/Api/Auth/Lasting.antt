-- ===== src/Api/Auth/Lasting.antt =====
-- A token stays good until its time is over.
use mathlib.Core.Path.{subst}
use sipbridge.Api.Auth.{Principal, SessionRecord, Sessions, issue, verify}
use sipbridge.Maps.Laws.{lookup-delete, lookup-insert}
use sipbridge.Maps.{insert, lookup}
use sipbridge.Prelude.{
  Bool, true, false, ℕ, ◌+◌, ◌≤◌, ◌≡◌, refl, sym, ap, ◌∙◌, ltb→lt, All, ◌⊎◌, inl, inr, some, List,
  [], ◌∷◌, arith, ltb, Bool-cases, Option-cases, some-injective,
}
use sipbridge.Text.Laws.{text_eq_iff, text_eq_refl}
use sipbridge.Text.{Text, is_empty, text_eq, trim_space}
use sipbridge.Api.Auth.Sessions.{SessionEvent, checked-some, issued, run_sessions, verified}

-- An event that leaves a token alone that lasts until `until`: another token is issued, another is
-- verified, or it is verified itself in time.
unfoldable pub Harmless : Text → ℕ → SessionEvent → Type 0
Harmless tok until (issued q ttl now t) = text_eq t tok ≡ false
Harmless tok until (verified t now) = (text_eq t tok ≡ false) ⊎ (now ≤ until)

in_time :
    (same : Bool) (now until : ℕ)
    → same ≡ true
    → (same ≡ false) ⊎ (now ≤ until)
    → ltb until now ≡ true
    → ⊥
in_time same now until h (inl e) late = let bad = sym h ∙ e in cc
in_time same now until h (inr early) late =
    let after = ltb→lt until now late in omega (arith, early, after)

verify-kept :
    (t tok : Text) (now : ℕ) (s : Sessions) (rec : SessionRecord)
    → lookup tok s ≡ some rec
    → (text_eq t tok ≡ false) ⊎ (now ≤ rec.expires_at)
    → lookup tok (verify t now s).0 ≡ some rec
unfolding verify
verify-kept t tok now s rec h ok = elim (Bool-cases (is_empty (trim_space t))) [
  | inl e ↦ rw e h
  | inr filled ↦ elim (Option-cases (lookup t s)) [
    | inl e ↦ rw (filled, e) h
    | inr (old, e) ↦ elim (Bool-cases (ltb old.expires_at now)) [
      | inr fresh ↦ rw (filled, e, fresh) h
      | inl late ↦ elim (Bool-cases (text_eq t tok)) [
        | inr other ↦ rw (filled, e, late) (lookup-delete tok t s ∙ rw other h)
        | inl same ↦
            let there : some old ≡ some rec =
              sym e ∙ (ap (λ (k : Text). lookup k s) ((text_eq_iff t tok).0 same) ∙ h) in
            let it = some-injective old rec there in
            absurd (
              in_time (text_eq t tok) now rec.expires_at same ok
                (subst (λ (r : SessionRecord). ltb r.expires_at now ≡ true) it late))
      ]
    ]
  ]
]

run_sessions-kept :
    (events : List SessionEvent) (s : Sessions) (tok : Text) (rec : SessionRecord)
    → lookup tok s ≡ some rec
    → All (Harmless tok rec.expires_at) events
    → lookup tok (run_sessions events s) ≡ some rec
unfolding run_sessions Harmless issue
run_sessions-kept [] s tok rec h all = h
run_sessions-kept (verified t now ∷ rest) s tok rec h all =
    run_sessions-kept rest (verify t now s).0 tok rec (verify-kept t tok now s rec h all.0) all.1
run_sessions-kept (issued p ttl now t ∷ rest) s tok rec h all =
    run_sessions-kept rest (issue p ttl now t s) tok rec
      (lookup-insert tok t (record { principal = p; expires_at = now + ttl }) s ∙ rw all.0 h) all.1

in_time_false : (until now : ℕ) → now ≤ until → ltb until now ≡ false
in_time_false until now h = ground arith

-- Once it was issued, a token that is not blank stays good until its time is over, whatever other
-- tokens are issued and verified meanwhile, and however often it is verified itself in that time.
pub run_sessions-verify :
    (p : Principal) (ttl start now : ℕ) (tok : Text) (s : Sessions) (events : List SessionEvent)
    → is_empty (trim_space tok) ≡ false
    → All (Harmless tok (start + ttl)) events
    → now ≤ start + ttl
    → (verify tok now (run_sessions events (issue p ttl start tok s))).1 ≡ some p
unfolding verify issue
run_sessions-verify p ttl start now tok s events filled all early =
    let rec : SessionRecord = record { principal = p; expires_at = start + ttl } in
    let stored : lookup tok (insert tok rec s) ≡ some rec =
      lookup-insert tok tok rec s ∙ rw (text_eq_refl tok) refl in
    let there =
      run_sessions-kept events (issue p ttl start tok s) tok
        (record { principal = p; expires_at = start + ttl }) stored all in
    rw (filled, there)
      (checked-some tok now (run_sessions events (issue p ttl start tok s))
          (record { principal = p; expires_at = start + ttl })
        ∙ rw (in_time_false (start + ttl) now early) refl)
