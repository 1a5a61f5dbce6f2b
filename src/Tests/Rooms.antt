-- ===== src/Tests/Rooms.antt =====
-- What stays behind: the early registration of a conference group, and its fanouts.
use sipbridge.Config.Cluster.{ClusterLimits}
use sipbridge.Config.{ConferenceGroup, Endpoint, Spec}
use sipbridge.Maps.{lookup}
use sipbridge.Prelude.{◌<◌, ◌≡◌, refl, pos, true, false, none, some, [], ◌∷◌, arith}
use sipbridge.Sip.Identity.{allow_siprec, conference_group_by_id}
use sipbridge.Sip.Server.Fanout.{enforce_ring_timeout}
use sipbridge.Sip.Server.Invite.Leak.{ard_established-after_timeout}
use sipbridge.Sip.Server.Invite.{InviteEnv, open_session, ard_established_participant_count}
use sipbridge.Sip.Server.Run.Conferences.{run-rejects}
use sipbridge.Sip.Server.Run.{run}
use sipbridge.Sip.Server.Invite.Dispatch.{handle_invite}
use sipbridge.Sip.Server.{
  initial, IvrConf, Rejection, reply, reject_for_capacity, Session, Server, TargetKind,
}
use sipbridge.Sip.Server.Keys.{key_of}
use sipbridge.Tests.Calls.{caller_key, request_of_caller, ringing_session, no_config, events}
use sipbridge.Text.{codes, trim_space}

abbrev pub far_end : Endpoint
far_end = record {
  id = codes "e2";
  display_name = codes "Far";
  sip_uri = codes "sip:2@far";
  location = [];
  linked_user_id = [];
  linked_device_id = [];
  line_label = [];
}

abbrev line_group : ConferenceGroup
line_group = record {
  id = codes "g1";
  name = codes "Line";
  type = codes "ARD";
  ring_timeout_seconds = pos 20;
  winner_keep_ringing_seconds = pos 0;
  ddi_access_enabled = false;
  ddi_access_number = [];
  side_a = [];
  side_b = far_end ∷ [];
  line_label = codes "Line 1";
  recording_enabled = none;
  iptv_source_ids = [];
}

abbrev pub line_config : Spec
line_config = record no_config { conference_groups = line_group ∷ [] }

abbrev line_session : Session
line_session = record ringing_session {
  target_kind = TargetKind.conference_group;
  bridge_id = [];
  conference_group_id = codes "g1";
  conference_ard = true;
  ring_timeout = 20;
  legs = [];
}

abbrev pub morning : InviteEnv
morning = record {
  now = 3;
  caller_rtp = none;
  telephone_event = false;
  capture = none;
  emit = λ i ep. some (record {
    target = ep.sip_uri;
    call_id = codes "out";
    branch = codes "z9hG4bK1";
    from_tag = codes "f";
    trunk_id = [];
    has_conn = false;
  });
}

ard_established-after_timeout_example :
    0
    < ard_established_participant_count
        (codes "g1")
        (enforce_ring_timeout caller_key
          (open_session morning line_config line_session (far_end ∷ []) initial).0).0
unfolding lookup trim_space conference_group_by_id allow_siprec
ard_established-after_timeout_example =
    ard_established-after_timeout morning line_config line_session (far_end ∷ []) initial line_group
      refl refl refl refl refl

abbrev pub over : IvrConf
over = record {
  key = codes "ivrconf|c|t";
  ivr_key = caller_key;
  group_id = codes "g1";
  caller_side = codes "a";
  created_at = 0;
  ring_timeout = 20;
  legs = [];
  winner_call_id = [];
  terminated = true;
  cap = none;
}

abbrev pub worn_server : Server
worn_server = record initial { ivr_conf_sessions = (codes "ivrconf|c|t", over) ∷ [] }

abbrev pub one_call : ClusterLimits
one_call = record {
  max_concurrent_calls = pos 1;
  soft_max_concurrent_calls = pos 0;
  overflow_redirect_enabled = false;
  overflow_redirect_sip_uri = [];
}

run-rejects_example :
    (r : Rejection) × (handle_invite morning no_config one_call 6
        (request_of_caller (codes "INVITE"))
        (run no_config events worn_server).0
      ≡ (
        (run no_config events worn_server).0,
        reply 6 (request_of_caller (codes "INVITE")) 100
            ∷ reject_for_capacity 6 (request_of_caller (codes "INVITE")) r
            ∷ [],
      ))
unfolding key_of
run-rejects_example =
    run-rejects no_config one_call 1 events worn_server morning 6
      (request_of_caller (codes "INVITE")) caller_key refl (omega arith) (omega arith) refl
