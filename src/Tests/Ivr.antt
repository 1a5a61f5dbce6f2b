-- ===== src/Tests/Ivr.antt =====
-- A caller in the IVR: the code, the PIN, the bridge, and a second fanout.
use sipbridge.Config.{Bridge, Spec, User}
use sipbridge.Maps.{lookup}
use sipbridge.Prelude.{◌≡◌, refl, pos, true, false, none, some, [], ◌∷◌, ◌++◌, any}
use sipbridge.Sip.Server.Conference.{conference_response}
use sipbridge.Sip.Server.Ivr.Access.{ivr_authorize_and_resolve_target-permits, permits}
use sipbridge.Sip.Server.Ivr.Dial.{dial-access_code, keys_of}
use sipbridge.Sip.Server.Ivr.Info.{dial, signal_digit}
use sipbridge.Sip.Server.Ivr.Join.{HasJoined, handle_ivr_digit_locked-joined}
use sipbridge.Sip.Server.Ivr.Again.{fanout_again-Deaf}
use sipbridge.Sip.Server.Ivr.Ring.{FanoutEnv, ivr_start_conference_group_fanout}
use sipbridge.Sip.Server.Ivr.{handle_ivr_digit_locked, ivr_authorize_and_resolve_target}
use sipbridge.Sip.Server.{initial, IvrSession, IvrState, Leg, Server, TargetKind}
use sipbridge.Tests.Calls.{accepted, caller_key, no_config, rung_leg}
use sipbridge.Tests.Rooms.{line_config, over, worn_server}
use sipbridge.Text.{codes, is_empty, text_eq, trim_space}

abbrev dial_in_bridge : Bridge
dial_in_bridge = record {
  id = codes "b1";
  name = [];
  type = [];
  ring_timeout_seconds = pos 0;
  ddi_access_enabled = true;
  ddi_access_number = codes "12";
  participants = [];
  line_label = [];
  recording_enabled = none;
}

abbrev dial_in_user : User
dial_in_user = record {
  id = codes "u1";
  display_name = codes "Ann";
  participant_id = codes "34";
  region = [];
  allowed_bridge_ids = codes "b1" ∷ [];
  allowed_conference_group_ids = [];
  recording_opt_in = false;
  devices = [];
}

abbrev pub dial_in : Spec
dial_in = record no_config { bridges = dial_in_bridge ∷ []; users = dial_in_user ∷ [] }

abbrev new_caller : IvrSession
new_caller = record {
  key = caller_key;
  remote = 5;
  from_header = codes "<sip:1@host>;tag=t";
  to_header = codes "<sip:100@bridge>;tag=9";
  contact_uri = codes "sip:1@host";
  created_at = 1;
  state = IvrState.collect_bridge;
  buf = [];
  bridge_access = [];
  participant_id = [];
  conference_group_id = codes "g1";
  conference_group_type = codes "mrd";
  conference_caller_side = codes "A";
  preferred_region = [];
  rtp = none;
  dtmf_via_rtp = false;
  siprec_fwd = none;
}

abbrev asked_caller : IvrSession
asked_caller = record new_caller {
  state = IvrState.collect_user;
  bridge_access = codes "12";
  buf = codes "34";
}

abbrev ivr_server : Server
ivr_server = record initial { ivr_sessions = (caller_key, new_caller) ∷ [] }

ivr_authorize_and_resolve_target-permits_example :
    (is_empty (trim_space (codes "34")) ≡ false)
    × (any (permits TargetKind.bridge (codes "b1") (trim_space (codes "34"))) dial_in.users ≡ true)
unfolding ivr_authorize_and_resolve_target
ivr_authorize_and_resolve_target-permits_example =
    ivr_authorize_and_resolve_target-permits dial_in (codes "12") (codes "34") TargetKind.bridge
      (codes "b1") refl

dial-access_code_example :
    ((dial dial_in caller_key (keys_of (codes "12") ++ codes "#" ∷ []) ivr_server).1 ≡ [])
    × (lookup caller_key
          (dial dial_in caller_key
            (keys_of (codes "12") ++ codes "#" ∷ [])
            ivr_server).0.ivr_sessions
        ≡ some (record new_caller {
          buf = [];
          bridge_access = codes "12";
          state = IvrState.collect_user;
        }))
unfolding lookup text_eq
dial-access_code_example =
    dial-access_code dial_in caller_key (codes "12") new_caller ivr_server (refl, (refl, tt)) refl
      refl refl

handle_ivr_digit_locked-joined_example :
    HasJoined dial_in caller_key asked_caller
      (codes "c")
      (codes "t")
      (codes "b1")
      (handle_ivr_digit_locked dial_in caller_key asked_caller
        (codes "#")
        (codes "c")
        (codes "t")
        ivr_server).0
unfolding ivr_authorize_and_resolve_target
handle_ivr_digit_locked-joined_example =
    handle_ivr_digit_locked-joined dial_in caller_key asked_caller (codes "c") (codes "t")
      (codes "b1") ivr_server refl refl

abbrev fanout_env : FanoutEnv
fanout_env = record {
  now = 8;
  emit = λ i ep. some (
    (record {
      target = ep.sip_uri;
      call_id = codes "again";
      branch = codes "z9hG4bK2";
      from_tag = codes "f";
      trunk_id = [];
      has_conn = false;
    }),
    4000,
  );
}

abbrev answering_leg : Leg
answering_leg = record rung_leg { session_key = codes "ivrconf|c|t" }

fanout_again-Deaf_example :
    conference_response accepted
      (codes "again")
      0
      answering_leg
      (ivr_start_conference_group_fanout fanout_env line_config caller_key new_caller worn_server).0
    ≡ (
      (ivr_start_conference_group_fanout fanout_env line_config caller_key new_caller
          worn_server).0,
      [],
    )
unfolding lookup text_eq
fanout_again-Deaf_example =
    fanout_again-Deaf fanout_env line_config caller_key new_caller worn_server over accepted
      (codes "again") 0 answering_leg refl refl refl

signal-nine : signal_digit (codes "Signal= 9" ++ (13 ∷ 10 ∷ codes "Duration=160")) ≡ codes "9"
unfolding signal_digit
signal-nine = refl
