-- ===== src/Api/Users/Requests.antt =====
-- Every request under /v1/users keeps the ids and the PINs unique, except a delete that is refused.
use mathlib.Core.Path.{subst}
use sipbridge.Prelude.{
  ℕ, ◌≡◌, refl, sym, ap, ◌∙◌, ◌≢◌, ◌⊎◌, inl, inr, Bool, true, false, Option, none, some, List, [],
  ◌∷◌, get_elem?, ◌==◌, ==_iff, Bool-cases, pos, if-both, if-unless, unless-some, some-injective,
  take,
}
use sipbridge.Api.Users.Creating.{create-Sane}
use sipbridge.Api.Users.Handlers.{
  UserPutBody, UsersRequest, create_user, delete_at, delete_user, done, find_pin,
  handle_user_delete, handle_user_put, handle_user_reset_pin, handle_users, put_body, put_fields,
  put_pin, put_stored, put_user, reset_to, reset_user_pin, save_user, status, with_users, without,
  write_live, shifted, bad_devices, new_pin,
}
use sipbridge.Api.Users.Invariant.{
  RoundTrip, Sane, SaneAfter, Unsaved, after_save, save-cases, save_user-Sane, users_of,
  with_user-both,
}
use sipbridge.Api.Users.Taken.{participant_id_taken-Free, pin_of}
use sipbridge.Api.Users.Unique.{Free, same_key-Free, without-Unique}
use sipbridge.Api.Users.{digits_of, is_at, participant_id_taken}
use sipbridge.Config.Manager.Loading.{Disk}
use sipbridge.Config.Manager.{Formats, Manager, current}
use sipbridge.Config.{User}
use sipbridge.Text.{Text, is_empty, trim_space}

elsewhere : (idx j : ℕ) → j ≢ idx → is_at j (pos idx) ≡ false
elsewhere idx j ne = elim (Bool-cases (j == idx)) [
  | inl e ↦ absurd (ne ((==_iff j idx).0 e))
  | inr e ↦ e
]

abbrev pub deletes : UsersRequest → Bool
deletes (delete_user id) = true
deletes _ = false

module _ (f : Formats) (d : Disk) (trip : RoundTrip f) where
  -- The user that is stored by a PUT keeps the id, and its PIN is free.
  put_pin-Free :
      (us : List User) (idx : ℕ) (pin : Option Text) (old u stored : User)
      → Sane us
      → get_elem? us idx ≡ some old
      → u.id ≡ old.id
      → u.participant_id ≡ old.participant_id
      → put_pin us idx pin u ≡ some stored
      → (stored.id ≡ old.id) × Free pin_of us idx stored
  unfolding put_pin Sane
  put_pin-Free us idx none old u stored sane found same_id same_pin h =
      let it : u ≡ stored = cc in
      subst (λ (x : User). (x.id ≡ old.id) × Free pin_of us idx x) it
        (same_id, same_key-Free pin_of us idx old u sane.1 found (ap trim_space same_pin))
  put_pin-Free us idx (some raw) old u stored sane found same_id same_pin h =
      let filled = unless-some _ _ _ h in
      let fresh = unless-some _ _ _ filled.1 in
      let it = some-injective (record u { participant_id = digits_of raw }) stored fresh.1 in
      subst (λ (x : User). (x.id ≡ old.id) × Free pin_of us idx x) it
        (
          same_id,
          participant_id_taken-Free us idx (pos idx) (record u { participant_id = digits_of raw })
              fresh.0 (elsewhere idx),
        )

  put_stored-Sane :
      (idx : ℕ) (m : Manager) (old : User) (o : Option User)
      → Sane (users_of m)
      → get_elem? (users_of m) idx ≡ some old
      → ((s : User) → o ≡ some s → (s.id ≡ old.id) × Free pin_of (users_of m) idx s)
      → SaneAfter (put_stored f d idx m o)
  put_stored-Sane idx m old none sane found good = sane
  put_stored-Sane idx m old (some u) sane found good =
      let kept = good u refl in save_user-Sane f d done idx old u m trip sane found kept.0 kept.1

  put_body-Sane :
      (body : Option UserPutBody) (m : Manager) (idx : ℕ) (u : User)
      → Sane (users_of m)
      → get_elem? (users_of m) idx ≡ some u
      → SaneAfter (put_body f d body m idx u)
  put_body-Sane none m idx u sane found = sane
  put_body-Sane (some req) m idx u sane found =
      if-both SaneAfter (bad_devices req.devices) (m, status 400)
        (put_stored f d idx m (put_pin (users_of m) idx req.participant_id (put_fields req u))) sane
        (put_stored-Sane idx m u (put_pin (users_of m) idx req.participant_id (put_fields req u))
          sane found
          (λ s h.
            put_pin-Free (users_of m) idx req.participant_id u (put_fields req u) s sane found refl
              refl h))

  put_user-Sane :
      (id : Text) (body : Option UserPutBody) (m : Manager)
      → Sane (users_of m)
      → SaneAfter (handle_user_put f d id body m)
  unfolding handle_user_put
  put_user-Sane id body m sane =
      with_user-both SaneAfter m id (put_body f d body m) (λ code. sane)
        (λ idx u found. put_body-Sane body m idx u sane found)

  find_pin-fresh :
      (us : List User) (idx : ℕ) (pins : List (Option Text)) (p : Text)
      → find_pin us idx pins ≡ some p
      → is_empty p ≡ false
      → participant_id_taken us p (pos idx) ≡ false
  unfolding find_pin
  find_pin-fresh us idx [] p h filled = let it : [] ≡ p = cc in cc
  find_pin-fresh us idx (none ∷ rest) p h filled = cc
  find_pin-fresh us idx (some q ∷ rest) p h filled =
      elim (Bool-cases (participant_id_taken us q (pos idx))) [
        | inl e ↦ find_pin-fresh us idx rest p (rw e at h) filled
        | inr e ↦
            let here : some q ≡ some p = rw e at h in
            let it : q ≡ p = cc in
            subst (λ (x : Text). participant_id_taken us x (pos idx) ≡ false) it e
      ]

  reset_to-Sane :
      (m : Manager) (idx : ℕ) (u : User) (o : Option Text)
      → Sane (users_of m)
      → get_elem? (users_of m) idx ≡ some u
      → ((p : Text)
          → o ≡ some p
          → is_empty p ≡ false
          → participant_id_taken (users_of m) p (pos idx) ≡ false)
      → SaneAfter (reset_to f d m idx u o)
  reset_to-Sane m idx u none sane found fresh = sane
  reset_to-Sane m idx u (some pin) sane found fresh =
      if-unless SaneAfter (is_empty pin) (m, status 500)
        (save_user f d (new_pin pin) idx (record u { participant_id = pin }) m) sane
        (λ filled.
          save_user-Sane f d (new_pin pin) idx u (record u { participant_id = pin }) m trip sane
            found refl
            (participant_id_taken-Free (users_of m) idx (pos idx)
              (record u { participant_id = pin }) (fresh pin refl filled) (elsewhere idx)))

  reset_pin-Sane :
      (id : Text) (pins : List (Option Text)) (m : Manager)
      → Sane (users_of m)
      → SaneAfter (handle_user_reset_pin f d id pins m)
  unfolding handle_user_reset_pin
  reset_pin-Sane id pins m sane =
      with_user-both SaneAfter m id
        (λ idx u. reset_to f d m idx u (find_pin (users_of m) idx (take 50 pins))) (λ code. sane)
        (λ idx u found.
          reset_to-Sane m idx u (find_pin (users_of m) idx (take 50 pins)) sane found
            (λ p h filled. find_pin-fresh (users_of m) idx (take 50 pins) p h filled))

  delete_at-Sane :
      (m : Manager) (idx : ℕ) (u : User)
      → Sane (users_of m)
      → (delete_at f d m idx u).1 ≡ done
      → SaneAfter (delete_at f d m idx u)
  unfolding delete_at Sane Unsaved
  delete_at-Sane m idx u sane good =
      elim (save-cases f d done (with_users (without idx) (current m)) (write_live (shifted idx) m)
        trip) [
          | inl h ↦
              after_save (delete_at f d m idx u) done (with_users (without idx) (current m)) h (
                without-Unique (λ x. x.id) idx (users_of m) sane.0,
                without-Unique pin_of idx (users_of m) sane.1,
              )
          | inr h ↦ let bad = sym h.0.1 ∙ good in cc
        ]

  delete-Sane :
      (id : Text) (m : Manager)
      → Sane (users_of m)
      → (handle_user_delete f d id m).1 ≡ done
      → SaneAfter (handle_user_delete f d id m)
  unfolding handle_user_delete
  delete-Sane id m sane =
      with_user-both (λ r. r.1 ≡ done → SaneAfter r) m id (delete_at f d m) (λ code h. sane)
        (λ idx u found. delete_at-Sane m idx u sane)

  -- When what is marshalled is read back as it was, and the users that are live have different
  -- ids and, where they have a PIN, different PINs, the users that are live after a request have
  -- them too; a delete is asked to be one that is answered as done, every other request may have
  -- any answer.
  pub handle_users-Sane :
      (req : UsersRequest) (m : Manager)
      → Sane (users_of m)
      → (deletes req ≡ false) ⊎ ((handle_users f d req m).1 ≡ done)
      → Sane (users_of (handle_users f d req m).0)
  unfolding handle_users
  handle_users-Sane (put_user id body) m sane cond = put_user-Sane id body m sane
  handle_users-Sane (create_user body) m sane cond = create-Sane f d trip body m sane
  handle_users-Sane (delete_user id) m sane (inl bad) = cc
  handle_users-Sane (delete_user id) m sane (inr good) = delete-Sane id m sane good
  handle_users-Sane (reset_user_pin id pins) m sane cond = reset_pin-Sane id pins m sane
