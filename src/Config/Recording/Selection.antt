-- ===== src/Config/Recording/Selection.antt =====
-- What the validation of a recording configuration guarantees to the choice of a recorder: the
-- trunk that is chosen can be reached.
use sipbridge.Prelude.{
  Bool, true, false, ◌≡◌, refl, Option, none, some, List, [], ◌∷◌, All, or_else, or_else-none,
  guard-none, if◌then◌else◌,
}
use mathlib.Core.Path.{subst}
use sipbridge.Config.Entries.{check_entries-Fits}
use sipbridge.Config.Recording.{
  RecordingSpec, RecordingTrunkEntry, SiprecIntegrationSpec, UrlParser, any_case, by_id,
  choose_trunk, default_trunk, for_region, legacy_error, legacy_trunk, must_be_sip_uri,
  select_recording_trunk_for_region, trunk_at, trunk_error, trunks_error, validate_recording_spec,
}
use sipbridge.Maps.{Map, lookup}
use sipbridge.Text.Laws.{trim_space-trim_space}
use sipbridge.Text.{Text, codes, is_empty, equal_fold, trim_space}
use sipbridge.Config.Recording.Trunks.{by_id-kept}

module _ (parse_url : UrlParser) where
  -- A trunk through which a recorder can be reached.
  pub Reachable : RecordingTrunkEntry → Type 0
  Reachable t =
      (is_empty (trim_space t.recorder_sip_uri) ≡ false)
      × (must_be_sip_uri parse_url t.recorder_sip_uri ≡ none)
      × (must_be_sip_uri parse_url t.recording_trunk_sip_uri ≡ none)

  trunk_error-Reachable : (t : RecordingTrunkEntry) → trunk_error parse_url t ≡ none → Reachable t
  unfolding trunk_error Reachable
  trunk_error-Reachable t h =
      let filled = guard-none _ _ _ h in
      let uris = or_else-none _ _ filled.1 in (filled.0, uris.0, uris.1)

-- Every value that an option can have passes.
Every : (RecordingTrunkEntry → Type 0) → Option RecordingTrunkEntry → Type 0
Every P o = (t : RecordingTrunkEntry) → o ≡ some t → P t

or_else-Every :
    (P : RecordingTrunkEntry → Type 0) (o other : Option RecordingTrunkEntry)
    → Every P o
    → Every P other
    → Every P (or_else o other)
unfolding Every
or_else-Every P none other first second = second
or_else-Every P (some t) other first second = first

if-Every :
    (P : RecordingTrunkEntry → Type 0) (b : Bool) (o other : Option RecordingTrunkEntry)
    → Every P o
    → Every P other
    → Every P (if b then o else other)
if-Every P true o other first second = first
if-Every P false o other first second = second

none-Every : (P : RecordingTrunkEntry → Type 0) → Every P none
unfolding Every
none-Every P t h = cc

some-Every : (P : RecordingTrunkEntry → Type 0) (t : RecordingTrunkEntry) → P t → Every P (some t)
unfolding Every
some-Every P t ok u h = let it : t ≡ u = cc in subst P it ok

or_else-there :
    (o other : Option RecordingTrunkEntry) (t : RecordingTrunkEntry)
    → (u : RecordingTrunkEntry) × (or_else o (or_else other (some t)) ≡ some u)
or_else-there (some a) other t = (a, refl)
or_else-there none (some b) t = (b, refl)
or_else-there none none t = (t, refl)

any_case-Every :
    (P : RecordingTrunkEntry → Type 0) (m : Map RecordingTrunkEntry) (region : Text)
    (regions : Map Text)
    → ((k : Text) → Every P (lookup k m))
    → Every P (any_case m region regions)
unfolding any_case
any_case-Every P m region [] ok = none-Every P
any_case-Every P m region ((k, tid) ∷ rest) ok =
    let more = any_case-Every P m region rest ok in
    if-Every P (equal_fold (trim_space k) region)
      (or_else (lookup (trim_space tid) m) (any_case m region rest)) (any_case m region rest)
      (or_else-Every P (lookup (trim_space tid) m) (any_case m region rest) (ok (trim_space tid))
        more)
      more

trunk_at-Every :
    (P : RecordingTrunkEntry → Type 0) (m : Map RecordingTrunkEntry) (tid : Option Text)
    → ((k : Text) → Every P (lookup k m))
    → Every P (trunk_at m tid)
trunk_at-Every P m none ok = none-Every P
trunk_at-Every P m (some tid) ok = ok (trim_space tid)

for_region-Every :
    (P : RecordingTrunkEntry → Type 0) (m : Map RecordingTrunkEntry) (s : SiprecIntegrationSpec)
    (region : Text)
    → ((k : Text) → Every P (lookup k m))
    → Every P (for_region m s region)
unfolding for_region
for_region-Every P m s region ok =
    if-Every P (is_empty region) none
      (or_else (trunk_at m (lookup region s.region_to_trunk)) (any_case m region s.region_to_trunk))
      (none-Every P)
      (or_else-Every P (trunk_at m (lookup region s.region_to_trunk))
        (any_case m region s.region_to_trunk)
        (trunk_at-Every P m (lookup region s.region_to_trunk) ok)
        (any_case-Every P m region s.region_to_trunk ok))

default_trunk-Every :
    (P : RecordingTrunkEntry → Type 0) (m : Map RecordingTrunkEntry) (s : SiprecIntegrationSpec)
    → ((k : Text) → Every P (lookup k m))
    → Every P (default_trunk m s)
unfolding default_trunk
default_trunk-Every P m s ok =
    if-Every P (is_empty (trim_space s.default_trunk_id)) none
      (lookup (trim_space s.default_trunk_id) m) (none-Every P) (ok (trim_space s.default_trunk_id))

-- The trunk that is found for a key, among trunks that all pass.
by_id-Every :
    (P : RecordingTrunkEntry → Type 0) (ts : List RecordingTrunkEntry)
    → All P ts
    → (k : Text) → Every P (lookup k (by_id [] ts))
unfolding Every lookup
by_id-Every P ts all k t found = (by_id-kept P k [] ts (λ u h. cc) all t found).0

module _ (parse_url : UrlParser) where
  trunks-Reachable :
      (xs : List RecordingTrunkEntry)
      → All (λ t. (is_empty (trim_space t.id) ≡ false) × (trunk_error parse_url t ≡ none)) xs
      → All (Reachable parse_url) xs
  trunks-Reachable [] h = tt
  trunks-Reachable (t ∷ ts) h = (trunk_error-Reachable parse_url t h.0.1, trunks-Reachable ts h.1)

  must_be_sip_uri-trim_space :
      (u : Text) → must_be_sip_uri parse_url (trim_space u) ≡ must_be_sip_uri parse_url u
  unfolding must_be_sip_uri
  must_be_sip_uri-trim_space u = rw (trim_space-trim_space u) refl

  legacy_trunk-Reachable :
      (s : SiprecIntegrationSpec)
      → legacy_error parse_url s ≡ none
      → (t : RecordingTrunkEntry) × (legacy_trunk s ≡ some t) × Reachable parse_url t
  unfolding legacy_error legacy_trunk Reachable
  legacy_trunk-Reachable s h =
      let recorder = or_else-none _ _ h in
      let filled = guard-none _ _ _ recorder.1 in
      (
        record {
          id = codes "legacy";
          label = [];
          recorder_sip_uri = trim_space s.recorder_sip_uri;
          recording_trunk_sip_uri = trim_space s.recording_trunk_sip_uri;
        },
        rw filled.0 refl,
        (
          rw (trim_space-trim_space s.recorder_sip_uri) filled.0,
          rw (must_be_sip_uri-trim_space s.recorder_sip_uri) recorder.0,
          rw (must_be_sip_uri-trim_space s.recording_trunk_sip_uri) filled.1,
        ),
      )

  choose_trunk-Reachable :
      (s : SiprecIntegrationSpec) (region : Text) (trunks : List RecordingTrunkEntry)
      → trunks_error parse_url s trunks ≡ none
      → (t : RecordingTrunkEntry) × (choose_trunk s region trunks ≡ some t) × Reachable parse_url t
  unfolding choose_trunk trunks_error Every
  choose_trunk-Reachable s region [] h = legacy_trunk-Reachable s h
  choose_trunk-Reachable s region (t ∷ ts) h =
      let checked = or_else-none _ _ h in
      let reachable = trunks-Reachable (t ∷ ts) (
        check_entries-Fits (λ (x : RecordingTrunkEntry). x.id) _ _ (trunk_error parse_url) []
          (t ∷ ts) checked.0) in
      let byid = by_id [] (t ∷ ts) in
      let ok = by_id-Every (Reachable parse_url) (t ∷ ts) reachable in
      let chosen = or_else-there (for_region byid s region) (default_trunk byid s) t in
      (
        chosen.0,
        chosen.1,
        or_else-Every (Reachable parse_url) (for_region byid s region)
            (or_else (default_trunk byid s) (some t))
            (for_region-Every (Reachable parse_url) byid s region ok)
            (or_else-Every (Reachable parse_url) (default_trunk byid s) (some t)
              (default_trunk-Every (Reachable parse_url) byid s ok)
              (some-Every (Reachable parse_url) t reachable.0))
            chosen.0 chosen.1,
      )

  -- When the recording specification passes its validation and SIPREC is enabled in it, a trunk
  -- is chosen for every region, and its recorder has an address that is a sip: URI.
  pub select_recording_trunk_for_region-Reachable :
      (r : RecordingSpec) (s : SiprecIntegrationSpec) (region : Text)
      → validate_recording_spec parse_url (some r) ≡ none
      → r.siprec ≡ some s
      → s.enabled ≡ true
      → (t : RecordingTrunkEntry) × (select_recording_trunk_for_region r.siprec region ≡ some t)
        × Reachable parse_url t
  unfolding select_recording_trunk_for_region validate_recording_spec
  select_recording_trunk_for_region-Reachable r s region h here enabled =
      let valid : trunks_error parse_url s s.trunks ≡ none = rw (here, enabled) at h in
      rw (here, enabled) (choose_trunk-Reachable s (trim_space region) s.trunks valid)
