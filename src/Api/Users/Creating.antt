-- ===== src/Api/Users/Creating.antt =====
-- A user that is created has an id and a PIN that no other user has.
use sipbridge.Prelude.{
  ℕ, ◌≡◌, refl, inl, inr, false, Option, none, some, List, [], ◌∷◌, ◌++◌, length, negsuc, if-both,
  if-unless,
}
use sipbridge.Api.Users.Handlers.{
  UserCreateBody, create_body, done, handle_user_create, save, status, user_of, with_users,
}
use sipbridge.Api.Users.Invariant.{
  RoundTrip, Sane, SaneAfter, after_refusal, after_save, save-cases, users_of,
}
use sipbridge.Api.Users.Taken.{participant_id_taken-Free, pin_of, user_index_by_id-Free}
use sipbridge.Api.Users.Unique.{append-Unique}
use sipbridge.Api.Users.{digits_of, participant_id_taken, user_index_by_id}
use sipbridge.Config.Manager.Loading.{Disk}
use sipbridge.Config.Manager.{Formats, Manager, config_read_only, current}
use sipbridge.Config.{User}
use sipbridge.Maps.{is_some}
use sipbridge.Text.{trim_space}

absent : (o : Option ℕ) → is_some o ≡ false → o ≡ none
absent none h = refl
absent (some i) h = cc

module _ (f : Formats) (d : Disk) (trip : RoundTrip f) where
  appended-Sane :
      (us : List User) (u : User)
      → Sane us
      → is_some (user_index_by_id us u.id) ≡ false
      → participant_id_taken us u.participant_id (negsuc 0) ≡ false
      → Sane (us ++ u ∷ [])
  unfolding Sane
  appended-Sane us u sane new_id fresh = (
    append-Unique (λ x. x.id) us u sane.0
        (user_index_by_id-Free us u.id (length us) u (absent (user_index_by_id us u.id) new_id)
          refl),
    append-Unique pin_of us u sane.1
        (participant_id_taken-Free us (length us) (negsuc 0) u fresh (λ j ne. refl)),
  )

  saved-Sane :
      (req : UserCreateBody) (m : Manager)
      → Sane (users_of m)
      → is_some (user_index_by_id (users_of m) (trim_space req.id)) ≡ false
      → participant_id_taken (users_of m) (digits_of req.participant_id) (negsuc 0) ≡ false
      → SaneAfter (save f d done (with_users (λ us. us ++ user_of req ∷ []) (current m)) m)
  saved-Sane req m sane new_id fresh =
      let cur = with_users (λ us. us ++ user_of req ∷ []) (current m) in
      elim (save-cases f d done cur m trip) [
        | inl h ↦
            after_save (save f d done cur m) done cur h
              (appended-Sane (users_of m) (user_of req) sane new_id fresh)
        | inr h ↦ after_refusal (save f d done cur m) m h sane
      ]

  create_body-Sane :
      (body : Option UserCreateBody) (m : Manager)
      → Sane (users_of m)
      → SaneAfter (create_body f d body m)
  create_body-Sane none m sane = sane
  create_body-Sane (some req) m sane = if-both SaneAfter _ _ _ sane (
      if-unless SaneAfter _ _ _ sane (λ new_id. if-both SaneAfter _ _ _ sane (
        if-unless SaneAfter _ _ _ sane
          (λ new_pin. if-both SaneAfter _ _ _ sane (saved-Sane req m sane new_id new_pin)))))

  pub create-Sane :
      (body : Option UserCreateBody) (m : Manager)
      → Sane (users_of m)
      → SaneAfter (handle_user_create f d body m)
  unfolding handle_user_create
  create-Sane body m sane =
      if-both SaneAfter (config_read_only m) (m, status 400) (create_body f d body m) sane
        (create_body-Sane body m sane)
