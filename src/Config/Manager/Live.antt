-- ===== src/Config/Manager/Live.antt =====
-- Which configuration applying, reloading and polling leave live (manager.go). The handlers of the users API, which write it in place, are no events here.
use mathlib.Core.Path.{subst}
use sipbridge.Prelude.{
  List, [], ◌∷◌, if-both, sym, ◌∙◌, ◌&&◌, ◌==◌, not, ◌≡◌, inl, inr, none, some, Option-cases,
  if◌then◌else◌,
}
use sipbridge.Config.Manager.Apply.{Applied, Refused, apply_yaml-cases}
use sipbridge.Config.Manager.Loading.{
  ManagerEvent, apply, reload, poll, step_manager, run_manager, Answer, Disk, accept, remember,
  apply_yaml, load_app_config, load_from_file, load_from_http, parse_root_yaml,
}
use sipbridge.Config.Manager.{
  ConfigError, Formats, Loaded, Manager, RootConfig, apply_versioned_root_defaults, current, failed,
  ok, validate_root,
}
use sipbridge.Text.{Text, codes, is_empty, text_eq}

module _ (f : Formats) where
  -- The configuration that is live, if there is one, passes the validation.
  pub Live : Manager → Type 0
  Live m = (root : RootConfig) → m.cur ≡ some root → validate_root f root ≡ none

  abbrev LiveNow : Manager × Loaded → Type 0
  LiveNow r = Live r.0

  accept-Live : (m : Manager) (r : Loaded) → Live m → Live (accept f m r).0
  unfolding Live
  accept-Live m (failed e) live = live
  accept-Live m (ok root) live = elim (Option-cases (validate_root f root)) [
    | inr (e, val) ↦ rw val live
    | inl val ↦ rw val (λ r here.
        let it : root ≡ r = cc in subst (λ (x : RootConfig). validate_root f x ≡ none) it val)
  ]

  remember-Live : (hash : Text) (r : Manager × Loaded) → Live r.0 → Live (remember hash r).0
  unfolding Live
  remember-Live hash (m, ok root) live = live
  remember-Live hash (m, failed e) live = live

  load_from_http-Live :
      (reason : Text) (answer : Answer) (m : Manager)
      → Live m
      → Live (load_from_http f reason answer m).0
  unfolding load_from_http
  load_from_http-Live reason none m live = live
  load_from_http-Live reason (some (status, body)) m live =
      if-both LiveNow (not (status == 200)) (m, failed ConfigError.unreadable)
        (if text_eq (f.sha256 body) m.last_http_hash && text_eq reason (codes "poll")
          then (m, ok (current m))
          else remember (f.sha256 body) (accept f m (parse_root_yaml f body)))
        live
        (if-both LiveNow (text_eq (f.sha256 body) m.last_http_hash && text_eq reason (codes "poll"))
          (m, ok (current m)) (remember (f.sha256 body) (accept f m (parse_root_yaml f body))) live
          (remember-Live (f.sha256 body) (accept f m (parse_root_yaml f body))
            (accept-Live m (parse_root_yaml f body) live)))

  apply_yaml-Live :
      (d : Disk) (bytes : Text) (m : Manager) → Live m → Live (apply_yaml f d bytes m).0
  unfolding Live Applied Refused
  apply_yaml-Live d bytes m live root here = elim (apply_yaml-cases f d bytes m) [
    | inr (e, bad, same, file) ↦ live root (sym same ∙ here)
    | inl (document, read, ver, val, good, stored, file) ↦
        let it : apply_versioned_root_defaults document ≡ root =
          let both = sym stored ∙ here in cc in
        subst (λ (x : RootConfig). validate_root f x ≡ none) it val
  ]

  load_from_file-Live :
      (answer : Answer) (m : Manager) → Live m → Live (load_from_file f answer m).0
  unfolding load_from_file
  load_from_file-Live answer m live =
      if-both LiveNow (not (is_empty m.http_url)) (load_from_http f (codes "startup") answer m)
        (accept f m (load_app_config f m.file))
        (load_from_http-Live (codes "startup") answer m live)
        (accept-Live m (load_app_config f m.file) live)

  step-Live : (ev : ManagerEvent) (m : Manager) → Live m → Live (step_manager f ev m)
  unfolding step_manager
  step-Live (apply d bytes) m live = apply_yaml-Live d bytes m live
  step-Live (reload answer) m live = load_from_file-Live answer m live
  step-Live (poll answer) m live = load_from_http-Live (codes "poll") answer m live

  run-Live : (events : List ManagerEvent) (m : Manager) → Live m → Live (run_manager f events m)
  unfolding run_manager
  run-Live [] m live = live
  run-Live (ev ∷ rest) m live = run-Live rest (step_manager f ev m) (step-Live ev m live)

  -- Whatever documents are applied, reloads requested and polls answered, from a manager that has
  -- loaded nothing yet, and nothing else done to it: the configuration that is live after these
  -- events, if there is one, passes the validation.
  pub run_manager-Live :
      (events : List ManagerEvent) (m : Manager) → m.cur ≡ none → Live (run_manager f events m)
  unfolding Live
  run_manager-Live events m fresh =
      run-Live events m (λ root here. let bad = sym fresh ∙ here in cc)
