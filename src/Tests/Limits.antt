-- ===== src/Tests/Limits.antt =====
-- An INVITE against the limit.
use sipbridge.Config.Cluster.Laws.{merge_cluster_limits-valid}
use sipbridge.Config.Cluster.{
  ClusterSpec, merge_cluster_limits, validate_cluster_limits, validate_cluster_spec,
}
use sipbridge.Config.{Spec}
use sipbridge.Prelude.{◌+◌, ◌≤◌, ◌≡◌, refl, pos, true, none, some, [], ◌∷◌, arith}
use sipbridge.Sip.Server.Capacity.{active_dialog_count}
use sipbridge.Sip.Server.Invite.Bound.{handle_invite-bound}
use sipbridge.Sip.Server.Invite.Dispatch.{handle_invite}
use sipbridge.Sip.Server.{initial}
use sipbridge.Tests.Calls.{request_of_caller}
use sipbridge.Tests.Ivr.{dial_in}
use sipbridge.Tests.Rooms.{morning, one_call}
use sipbridge.Text.{codes, trim_space}

abbrev routed : Spec
routed = record dial_in {
  routes = (record { match_user = codes "100"; target_kind = []; target_id = codes "b1" }) ∷ [];
}

handle_invite-bound_example :
    active_dialog_count
      (handle_invite morning routed one_call 5 (request_of_caller (codes "INVITE")) initial).0
    ≤ 1 + 1
unfolding active_dialog_count
handle_invite-bound_example =
    handle_invite-bound morning routed one_call 1 5 (request_of_caller (codes "INVITE")) initial
      refl (omega arith) (omega arith)

invited :
    active_dialog_count
      (handle_invite morning routed one_call 5 (request_of_caller (codes "INVITE")) initial).0
    ≡ 1
unfolding active_dialog_count handle_invite
invited = refl

abbrev overlay : ClusterSpec
overlay = record {
  max_concurrent_calls = some (pos 20);
  soft_max_concurrent_calls = some (pos 15);
  overflow_redirect_enabled = some true;
  overflow_redirect_sip_uri = some (codes " sip:spare@x ");
}

merge_cluster_limits-valid_example :
    validate_cluster_limits (merge_cluster_limits one_call (some overlay)) ≡ none
unfolding validate_cluster_spec trim_space
merge_cluster_limits-valid_example =
    merge_cluster_limits-valid one_call overlay (pos 20) (pos 15) true (codes " sip:spare@x ") refl
      refl refl refl refl
