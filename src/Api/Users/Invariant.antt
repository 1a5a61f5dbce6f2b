-- ===== src/Api/Users/Invariant.antt =====
-- The ids and the PINs of the users stay unique under the requests of the API.
use mathlib.Core.Path.{subst}
use sipbridge.Prelude.{
  ℕ, ◌≡◌, refl, sym, ◌∙◌, ◌⊎◌, inl, inr, some, List, get_elem?, set, Bool-cases, Option-cases,
}
use sipbridge.Api.Users.Handlers.{
  Response, answer, save, save_user, status, with_user, with_users, write_live,
}
use sipbridge.Api.Users.Taken.{pin_of}
use sipbridge.Api.Users.Unique.{Free, Unique, same_key-Free, set-Unique}
use sipbridge.Api.Users.{user_index_by_id}
use sipbridge.Config.Manager.Apply.{Applied, Refused, apply_yaml-cases}
use sipbridge.Config.Manager.Loading.{Disk, apply_yaml}
use sipbridge.Config.Manager.{
  Formats, Loaded, Manager, RootConfig, apply_versioned_root_defaults, config_read_only, current,
}
use sipbridge.Config.{User}
use sipbridge.Text.{Text}

-- No two users have the same id, and no two the same PIN, where there is one.
unfoldable pub Sane : List User → Type 0
Sane us = Unique (λ u. u.id) us × Unique pin_of us

abbrev pub users_of : Manager → List User
users_of m = (current m).spec.users

-- What is written as YAML is read as it was.
unfoldable pub RoundTrip : Formats → Type 0
RoundTrip f =
    (root : RootConfig) (bytes : Text) → f.marshal root ≡ some bytes → f.unmarshal bytes ≡ some root

-- The two ends of a save.
unfoldable pub Saved : Response → RootConfig → Manager × Response → Type 0
Saved good cur r = (r.1 ≡ good) × (r.0.cur ≡ some (apply_versioned_root_defaults cur))

unfoldable pub Unsaved : Manager → Manager × Response → Type 0
Unsaved m r = ((code : ℕ) × (r.1 ≡ status code)) × (r.0.cur ≡ m.cur)

answered :
    (f : Formats) (d : Disk) (good : Response) (cur : RootConfig) (bytes : Text) (m : Manager)
    (r : Manager × Loaded)
    → f.unmarshal bytes ≡ some cur
    → Applied f bytes r ⊎ Refused f m r
    → Saved good cur (answer good r) ⊎ Unsaved m (answer good r)
unfolding Applied Refused Saved Unsaved
answered f d good cur bytes m (m', r) read (inl (document, doc, ver, val, ok, live, file)) =
    let both = sym doc ∙ read in
    let it : document ≡ cur = cc in
    rw ok (
      inl
        (refl, subst (λ (x : RootConfig). m'.cur ≡ some (apply_versioned_root_defaults x)) it live))
answered f d good cur bytes m (m', r) read (inr (e, failed, same, file)) =
    rw failed (inr ((400, refl), same))

pub save-cases :
    (f : Formats) (d : Disk) (good : Response) (cur : RootConfig) (m : Manager)
    → RoundTrip f
    → Saved good cur (save f d good cur m) ⊎ Unsaved m (save f d good cur m)
unfolding save RoundTrip Unsaved
save-cases f d good cur m trip = elim (Option-cases (f.marshal cur)) [
  | inl e ↦ rw e (inr ((500, refl), refl))
  | inr (bytes, e) ↦ rw e (
      answered f d good cur bytes m (apply_yaml f d bytes m) (trip cur bytes e)
        (apply_yaml-cases f d bytes m))
]

users_of-cur : (m : Manager) (r : RootConfig) → m.cur ≡ some r → users_of m ≡ r.spec.users
unfolding current
users_of-cur m r h = rw h refl

pub users_of-same : (m n : Manager) → m.cur ≡ n.cur → users_of m ≡ users_of n
unfolding current
users_of-same m n h = rw h refl

users_of-write_live :
    (m : Manager) (idx : ℕ) (u : User)
    → users_of (write_live (λ us. set us idx u) m) ≡ set (users_of m) idx u
unfolding current write_live
users_of-write_live m idx u = elim (Option-cases m.cur) [
  | inl e ↦ rw e refl
  | inr (r, e) ↦ rw e refl
]

pub with_user-both :
    (P : Manager × Response → Type 0) (m : Manager) (id : Text)
    (handle : ℕ → User → Manager × Response)
    → ((code : ℕ) → P (m, status code))
    → ((idx : ℕ) (u : User) → get_elem? (users_of m) idx ≡ some u → P (handle idx u))
    → P (with_user m id handle)
unfolding with_user
with_user-both P m id handle refused go = elim (Bool-cases (config_read_only m)) [
  | inl e ↦ rw e (refused 400)
  | inr writable ↦ elim (Option-cases (user_index_by_id (users_of m) id)) [
    | inl e ↦ rw (writable, e) (refused 404)
    | inr (idx, e) ↦ elim (Option-cases (get_elem? (users_of m) idx)) [
      | inl out ↦ rw (writable, e, out) (refused 404)
      | inr (u, found) ↦ rw (writable, e, found) (go idx u found)
    ]
  ]
]

-- The users that are live after a request.
abbrev pub SaneAfter : Manager × Response → Type 0
SaneAfter r = Sane (users_of r.0)

set-Sane :
    (us : List User) (idx : ℕ) (old u : User)
    → Sane us
    → get_elem? us idx ≡ some old
    → u.id ≡ old.id
    → Free pin_of us idx u
    → Sane (set us idx u)
unfolding Sane
set-Sane us idx old u sane found same_id free = (
  set-Unique (λ x. x.id) us idx old u sane.0 found
      (same_key-Free (λ x. x.id) us idx old u sane.0 found same_id),
  set-Unique pin_of us idx old u sane.1 found free,
)

pub after_save :
    (r : Manager × Response) (good : Response) (cur : RootConfig)
    → Saved good cur r
    → Sane cur.spec.users
    → SaneAfter r
unfolding Saved apply_versioned_root_defaults
after_save r good cur h sane = rw (users_of-cur r.0 (apply_versioned_root_defaults cur) h.1) sane

pub after_refusal :
    (r : Manager × Response) (m : Manager) → Unsaved m r → Sane (users_of m) → SaneAfter r
unfolding Unsaved
after_refusal r m h sane = rw (users_of-same r.0 m h.1) sane

pub save_user-Sane :
    (f : Formats) (d : Disk) (good : Response) (idx : ℕ) (old u : User) (m : Manager)
    → RoundTrip f
    → Sane (users_of m)
    → get_elem? (users_of m) idx ≡ some old
    → u.id ≡ old.id
    → Free pin_of (users_of m) idx u
    → SaneAfter (save_user f d good idx u m)
unfolding save_user
save_user-Sane f d good idx old u m trip sane found same_id free =
    let now = set-Sane (users_of m) idx old u sane found same_id free in
    elim (save-cases f d good (with_users (λ us. set us idx u) (current m))
      (write_live (λ us. set us idx u) m) trip) [
        | inl h ↦
            after_save (save_user f d good idx u m) good
              (with_users (λ us. set us idx u) (current m)) h now
        | inr h ↦
            after_refusal (save_user f d good idx u m) (write_live (λ us. set us idx u) m) h
              (rw (users_of-write_live m idx u) now)
      ]
