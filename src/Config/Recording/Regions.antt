-- ===== src/Config/Recording/Regions.antt =====
-- The trunk that is chosen for a listed region.
use sipbridge.Prelude.{
  true, false, ◌≡◌, none, some, List, [], ◌∷◌, All, inl, inr, Bool-cases, or_else-none, guard-none,
  ◌∙◌, not, if◌then◌else◌,
}
use mathlib.Core.Path.{subst}
use sipbridge.Config.Entries.{check_entries-Fits}
use sipbridge.Config.Recording.{
  RecordingError, RecordingSpec, RecordingTrunkEntry, SiprecIntegrationSpec, UrlParser, by_id,
  choose_trunk, defaults_error, for_region, select_recording_trunk_for_region, trunk_error,
  trunk_ids, trunks_error, validate_recording_spec, regions_error,
}
use sipbridge.Maps.{Map, lookup}
use sipbridge.Text.Sets.{member}
use sipbridge.Text.{Text, is_empty, text_eq, trim_space}
use sipbridge.Config.Recording.Trunks.{id_filled, trunk_of_id}

regions_error-member :
    (seen : List Text) (regions : Map Text) (region tid : Text)
    → regions_error seen regions ≡ none
    → lookup region regions ≡ some tid
    → member (trim_space tid) seen ≡ true
unfolding regions_error lookup
regions_error-member seen [] region tid h found = cc
regions_error-member seen ((r, u) ∷ rest) region tid h found =
    elim (Bool-cases (member (trim_space u) seen)) [
      | inr e ↦ let bad : some RecordingError.unknown_region_trunk ≡ none = rw e at h in cc
      | inl known ↦
          let later : regions_error seen rest ≡ none = rw known at h in
          elim (Bool-cases (text_eq r region)) [
            | inl same ↦
                let here : some u ≡ some tid = rw same at found in
                let it : u ≡ tid = cc in
                subst (λ (x : Text). member (trim_space x) seen ≡ true) it known
            | inr other ↦ regions_error-member seen rest region tid later (rw other at found)
          ]
    ]

defaults_error-none :
    (seen : List Text) (s : SiprecIntegrationSpec)
    → defaults_error seen s ≡ none
    → regions_error seen s.region_to_trunk ≡ none
unfolding defaults_error
defaults_error-none seen s h =
    let given =
      guard-none (is_empty (trim_space s.default_trunk_id)) RecordingError.default_required
        (if not (member (trim_space s.default_trunk_id) seen)
          then some RecordingError.unknown_default
          else regions_error seen s.region_to_trunk)
        h in
    (guard-none (not (member (trim_space s.default_trunk_id) seen)) RecordingError.unknown_default
      (regions_error seen s.region_to_trunk) given.1).1

choose_trunk-listed :
    (s : SiprecIntegrationSpec) (region tid : Text) (t : RecordingTrunkEntry)
    (ts : List RecordingTrunkEntry) (u : RecordingTrunkEntry)
    → is_empty region ≡ false
    → lookup region s.region_to_trunk ≡ some tid
    → lookup (trim_space tid) (by_id [] (t ∷ ts)) ≡ some u
    → choose_trunk s region (t ∷ ts) ≡ some u
unfolding choose_trunk for_region
choose_trunk-listed s region tid t ts u filled found it = simp (filled, found, it)

selected :
    (r : RecordingSpec) (s : SiprecIntegrationSpec) (trunks : List RecordingTrunkEntry)
    (region : Text)
    → r.siprec ≡ some s
    → s.enabled ≡ true
    → s.trunks ≡ trunks
    → select_recording_trunk_for_region r.siprec region ≡ choose_trunk s (trim_space region) trunks
unfolding select_recording_trunk_for_region
selected r s trunks region here enabled some_trunks = simp (here, enabled, some_trunks)

module _ (parse_url : UrlParser) where
  fit_filled :
      (ts : List RecordingTrunkEntry)
      → All (λ t. (is_empty (trim_space t.id) ≡ false) × (trunk_error parse_url t ≡ none)) ts
      → All (λ t. is_empty (trim_space t.id) ≡ false) ts
  fit_filled [] h = tt
  fit_filled (t ∷ ts) h = (h.0.0, fit_filled ts h.1)

  -- The ids that the configuration refers to, after a validation without errors.
  referred :
      (s : SiprecIntegrationSpec) (t : RecordingTrunkEntry) (ts : List RecordingTrunkEntry)
      (region tid : Text)
      → trunks_error parse_url s (t ∷ ts) ≡ none
      → lookup region s.region_to_trunk ≡ some tid
      → (is_empty (trim_space tid) ≡ false) × (member (trim_space tid) (trunk_ids (t ∷ ts)) ≡ true)
  unfolding trunks_error defaults_error
  referred s t ts region tid h found =
      let checked = or_else-none _ _ h in
      let fit =
        check_entries-Fits (λ (x : RecordingTrunkEntry). x.id) _ _ (trunk_error parse_url) []
          (t ∷ ts) checked.0 in
      let regions = defaults_error-none (trunk_ids (t ∷ ts)) s checked.1 in
      let there =
        regions_error-member (trunk_ids (t ∷ ts)) s.region_to_trunk region tid regions found in
      (id_filled (trim_space tid) (t ∷ ts) (fit_filled (t ∷ ts) fit) there, there)

  -- When the recording specification passes its validation, SIPREC is enabled in it with at least
  -- one trunk, and a region that is not blank is listed under its trimmed name, the trunk that is
  -- chosen for the region is one whose id is the one listed.
  pub select_recording_trunk_for_region-listed :
      (r : RecordingSpec) (s : SiprecIntegrationSpec) (t : RecordingTrunkEntry)
      (ts : List RecordingTrunkEntry) (region tid : Text)
      → validate_recording_spec parse_url (some r) ≡ none
      → r.siprec ≡ some s
      → s.enabled ≡ true
      → s.trunks ≡ t ∷ ts
      → is_empty (trim_space region) ≡ false
      → lookup (trim_space region) s.region_to_trunk ≡ some tid
      → (u : RecordingTrunkEntry) × (select_recording_trunk_for_region r.siprec region ≡ some u)
        × (trim_space u.id ≡ trim_space tid)
  unfolding validate_recording_spec
  select_recording_trunk_for_region-listed r s t ts region tid h here enabled some_trunks filled
        found =
      let valid : trunks_error parse_url s (t ∷ ts) ≡ none = rw (here, enabled, some_trunks) at h in
      let known = referred s t ts (trim_space region) tid valid found in
      let it = trunk_of_id (trim_space tid) (t ∷ ts) known.0 known.1 in
      (
        it.0,
        selected r s (t ∷ ts) region here enabled some_trunks
            ∙ choose_trunk-listed s (trim_space region) tid t ts it.0 filled found it.1,
        it.2,
      )
