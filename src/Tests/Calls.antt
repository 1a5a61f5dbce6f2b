-- ===== src/Tests/Calls.antt =====
-- One call: a caller, one rung leg, the answer and the BYE.
use sipbridge.Config.{Spec}
use sipbridge.Maps.{lookup}
use sipbridge.Prelude.{
  ◌+◌, ◌*◌, length, ◌≤◌, ◌≡◌, refl, pos, true, false, none, some, [], ◌∷◌, List, arith, Bool-cases,
  inl, inr,
}
use mathlib.Core.Path.{subst}
use sipbridge.Sip.Message.{Message, blank}
use sipbridge.Sip.Server.Fanout.Answers.{answers, refusals, ringing}
use sipbridge.Sip.Server.Fanout.{Env, fanout_response}
use sipbridge.Sip.Server.Keys.{key_of}
use sipbridge.Sip.Server.Run.Answers.{run-answers_once}
use sipbridge.Sip.Server.Run.Keyed.{WellKeyed}
use sipbridge.Sip.Server.Run.{Event, packet, ring_timer, failed_cleanup, run}
use sipbridge.Sip.Server.Teardown.LateBye.{leg_requests, bye_after_answer-Unheard}
use sipbridge.Sip.Server.Teardown.{handle_inbound_bye}
use sipbridge.Sip.Server.{initial, Leg, Session, Server, TargetKind}
use sipbridge.Text.Laws.{text_eq_iff}
use sipbridge.Text.{Text, codes, text_eq}

abbrev pub request_of_caller : Text → Message
request_of_caller method = record blank {
  is_request = true;
  method = method;
  request_uri = codes "sip:100@bridge";
  headers =
      (codes "from", codes "<sip:1@host>;tag=t" ∷ [])
      ∷ (codes "to", codes "<sip:100@bridge>" ∷ [])
      ∷ (codes "call-id", codes "c" ∷ [])
      ∷ [];
}

abbrev pub caller_key : Text
caller_key = codes "c|t"

abbrev pub rung_leg : Leg
rung_leg = record {
  session_key = caller_key;
  target_uri = codes "sip:2@far";
  call_id = codes "out";
  branch = codes "z9hG4bK1";
  from_tag = codes "f";
  to_header = [];
  siprec_bye_uri = [];
  has_conn = false;
  rtp = none;
  final_status = pos 0;
}

abbrev pub ringing_session : Session
ringing_session = record {
  key = caller_key;
  inbound_invite = request_of_caller (codes "INVITE");
  inbound_remote = 5;
  created_at = 1;
  target_kind = TargetKind.bridge;
  bridge_id = codes "b1";
  conference_group_id = [];
  conference_ard = false;
  ring_timeout = 30;
  legs = 0 ∷ [];
  winner_call_id = [];
  terminated = false;
}

abbrev ringing_server : Server
ringing_server = record initial {
  sessions = (caller_key, ringing_session) ∷ [];
  legs = rung_leg ∷ [];
  legs_by_call_id = (codes "out", 0) ∷ [];
}

abbrev pub no_config : Spec
no_config = record {
  routes = [];
  bridges = [];
  conference_groups = [];
  hoot_groups = [];
  users = [];
  entry_user = [];
}

abbrev pub noon : Env
noon = record { now = 7; media = none }

abbrev pub accepted : Message
accepted = record blank {
  status_code = pos 200;
  headers = (codes "call-id", codes "out" ∷ []) ∷ [];
}

-- The leg answers, the timer fires late, the answer is repeated, and the caller hangs up.
abbrev pub events : List Event
events =
    packet noon 9 accepted
    ∷ ring_timer caller_key
    ∷ packet noon 9 accepted
    ∷ packet noon 5 (request_of_caller (codes "BYE"))
    ∷ []

ringing_server-WellKeyed : WellKeyed ringing_server
unfolding lookup
ringing_server-WellKeyed k sess found = elim (Bool-cases (text_eq caller_key k)) [
  | inl same ↦
      let there : some ringing_session ≡ some sess = rw same at found in
      let is : ringing_session ≡ sess = ground (arith, there) in
      let at_key = (text_eq_iff caller_key k).0 same in
      subst (λ (x : Session). key_of x.inbound_invite ≡ some k) is
        (subst (λ (x : Text). key_of ringing_session.inbound_invite ≡ some x) at_key
          (unfold key_of in refl))
  | inr other ↦ ground (arith, found, other)
]

run-answers_once_example :
    (answers caller_key (run no_config events ringing_server).1
        + ringing caller_key (run no_config events ringing_server).0
      ≤ ringing caller_key ringing_server
        + refusals caller_key (run no_config events ringing_server).1)
    × (refusals caller_key (run no_config events ringing_server).1
        ≤ ringing caller_key ringing_server * length events)
run-answers_once_example =
    run-answers_once caller_key no_config events ringing_server
      (refl, (refl, (refl, (unfold text_eq in refl, tt)))) ringing_server-WellKeyed

run-answered : answers caller_key (run no_config events ringing_server).1 ≡ 1
unfolding answers run
run-answered = refl

abbrev declined : Message
declined = record accepted { status_code = pos 486 }

-- The only leg declines, and the timer fires before the cleanup that follows the 480.
abbrev declined_events : List Event
declined_events =
    packet noon 9 declined
    ∷ ring_timer caller_key
    ∷ failed_cleanup ringing_session.inbound_invite
    ∷ []

-- The caller is answered 480 and then 408.
run-refused_and_timed_out :
    (answers caller_key (run no_config declined_events ringing_server).1 ≡ 2)
    × (refusals caller_key (run no_config declined_events ringing_server).1 ≡ 1)
unfolding answers refusals run
run-refused_and_timed_out = (refl, refl)

bye_after_answer-Unheard_example :
    leg_requests
      (handle_inbound_bye 5
        (request_of_caller (codes "BYE"))
        (fanout_response noon no_config accepted (codes "out") 0 rung_leg ringing_server).0).1
    ≡ []
unfolding lookup key_of
bye_after_answer-Unheard_example =
    bye_after_answer-Unheard noon no_config accepted (codes "out") 0 rung_leg ringing_session
      ringing_server 5 (request_of_caller (codes "BYE")) refl refl refl refl refl refl
