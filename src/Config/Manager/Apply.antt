-- ===== src/Config/Manager/Apply.antt =====
-- What applying a document does to the live configuration and to the file.
use sipbridge.Prelude.{
  true, false, ◌≡◌, refl, ◌⊎◌, inl, inr, ◌↔◌, Option, none, some, Bool-cases, Option-cases,
  if◌then◌else◌,
}
use sipbridge.Config.Manager.Loading.{
  Disk, apply_yaml, persisted, validate_yaml, versioned, write_file_atomic,
}
use sipbridge.Config.Manager.{
  ConfigError, Formats, Loaded, Manager, RootConfig, apply_versioned_root_defaults,
  config_read_only, failed, ok, validate_root,
}
use sipbridge.Text.{Text}

-- A write that fails leaves the live configuration; one that succeeds stores the bytes.
write_file_atomic-cases :
    (d : Disk) (bytes : Text) (m : Manager)
    → ((m' : Manager) × (write_file_atomic d bytes m ≡ (m', false)) × (m'.cur ≡ m.cur))
      ⊎ ((m' : Manager) × (write_file_atomic d bytes m ≡ (m', true))
          × (m'.file ≡ some bytes)
          × (d.written ≡ true)
          × (d.renames ≡ true))
unfolding write_file_atomic
write_file_atomic-cases d bytes m = elim (Bool-cases d.written) [
  | inr e ↦ inl (record m { temp = d.left }, simp e, refl)
  | inl w ↦ elim (Bool-cases d.renames) [
    | inl r ↦ inr (record m { file = some bytes; temp = none }, simp (w, r), refl, w, r)
    | inr r ↦ inl (
      record m {
        file = if d.removes then none else m.file;
        temp = if d.removes_temp then none else some bytes;
      },
      simp (w, r),
      refl,
    )
  ]
]

write_file_atomic-done :
    (d : Disk) (bytes : Text) (m : Manager)
    → d.written ≡ true
    → d.renames ≡ true
    → write_file_atomic d bytes m ≡ (record m { file = some bytes; temp = none }, true)
unfolding write_file_atomic
write_file_atomic-done d bytes m w r = simp (w, r)

module _ (f : Formats) where
  -- A document that is applied: it is read, passes the validation, is stored, and goes live.
  unfoldable pub Applied : Text → Manager × Loaded → Type 0
  Applied bytes r =
      (document : RootConfig) × (f.unmarshal bytes ≡ some document)
      × (versioned document ≡ true)
      × (validate_root f (apply_versioned_root_defaults document) ≡ none)
      × (r.1 ≡ ok (apply_versioned_root_defaults document))
      × (r.0.cur ≡ some (apply_versioned_root_defaults document))
      × (r.0.file ≡ some bytes)

  -- A document that is refused: what is live stays; the file stays too unless it was being written.
  unfoldable pub Refused : Manager → Manager × Loaded → Type 0
  Refused m r =
      (e : ConfigError) × (r.1 ≡ failed e)
      × (r.0.cur ≡ m.cur)
      × ((e ≡ ConfigError.write_failed) ⊎ (r.0.file ≡ m.file))

  persisted-cases :
      (d : Disk) (bytes : Text) (m : Manager) (document : RootConfig) (v : Option ConfigError)
      → f.unmarshal bytes ≡ some document
      → versioned document ≡ true
      → validate_root f (apply_versioned_root_defaults document) ≡ v
      → Applied bytes (persisted d bytes m (apply_versioned_root_defaults document) v)
        ⊎ Refused m (persisted d bytes m (apply_versioned_root_defaults document) v)
  unfolding Applied Refused
  persisted-cases d bytes m document (some e) read ver val = inr (e, refl, refl, inr refl)
  persisted-cases d bytes m document none read ver val = elim (write_file_atomic-cases d bytes m) [
    | inl (m', e, same) ↦ rw e (inr (ConfigError.write_failed, refl, same, inl refl))
    | inr (m', e, file, w, r) ↦ rw e (inl (document, read, ver, val, refl, refl, file))
  ]

  -- Applying a document ends in one of two ways: the document is read, has a version and a kind
  -- and passes the validation, and then it is stored in the file and is live; or there is an
  -- error, and then the live configuration is the one before, and so is the file unless the error
  -- is that it could not be written.
  pub apply_yaml-cases :
      (d : Disk) (bytes : Text) (m : Manager)
      → Applied bytes (apply_yaml f d bytes m) ⊎ Refused m (apply_yaml f d bytes m)
  unfolding apply_yaml Refused
  apply_yaml-cases d bytes m = elim (Bool-cases (config_read_only m)) [
    | inl e ↦ rw e (inr (ConfigError.read_only, refl, refl, inr refl))
    | inr writable ↦ elim (Option-cases (f.unmarshal bytes)) [
      | inl e ↦ rw (writable, e) (inr (ConfigError.bad_yaml, refl, refl, inr refl))
      | inr (document, read) ↦ elim (Bool-cases (versioned document)) [
        | inr e ↦ rw (writable, read, e) (inr (ConfigError.not_versioned, refl, refl, inr refl))
        | inl ver ↦
            rw (writable, read, ver)
              (persisted-cases d bytes m document
                (validate_root f (apply_versioned_root_defaults document)) read ver refl)
      ]
    ]
  ]

  -- On a manager that is not read-only and a disk that writes and renames, a document is applied
  -- exactly when it is one that the validation endpoint accepts.
  pub apply_yaml-validate_yaml :
      (d : Disk) (bytes : Text) (m : Manager)
      → config_read_only m ≡ false
      → d.written ≡ true
      → d.renames ≡ true
      → (validate_yaml f bytes ≡ none)
        ↔ ((root : RootConfig) × ((apply_yaml f d bytes m).1 ≡ ok root))
  unfolding validate_yaml apply_yaml
  apply_yaml-validate_yaml d bytes m writable w r = elim (Option-cases (f.unmarshal bytes)) [
    | inl e ↦ rw (writable, e) (λ h. cc, λ h. let bad = h.1 in cc)
    | inr (document, read) ↦ elim (Bool-cases (versioned document)) [
      | inr e ↦ rw (writable, read, e) (λ h. cc, λ h. let bad = h.1 in cc)
      | inl ver ↦ elim (Option-cases (validate_root f (apply_versioned_root_defaults document))) [
        | inr (e, val) ↦ rw (writable, read, ver, val) (λ h. cc, λ h. let bad = h.1 in cc)
        | inl val ↦
            rw (writable, read, ver, val, write_file_atomic-done d bytes m w r)
              (λ h. (apply_versioned_root_defaults document, refl), λ h. refl)
      ]
    ]
  ]
