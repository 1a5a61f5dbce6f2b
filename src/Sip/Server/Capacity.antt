-- ===== src/Sip/Server/Capacity.antt =====
-- Admission control of server.go: the count of dialogs and the rejection of an INVITE.
use sipbridge.Config.Cluster.{ClusterLimits, is_positive}
use sipbridge.Prelude.{ℕ, ◌+◌, pos, lt_int, not, ◌&&◌, Option, none, some, length, if◌then◌else◌}
use sipbridge.Sip.Server.Bridges.{count_calls}
use sipbridge.Sip.Server.{Server, Rejection, redirect, overload}
use sipbridge.Text.{trim_space, is_empty}

unfoldable pub active_dialog_count : Server → ℕ
unfolding count_calls
active_dialog_count s =
    length s.sessions
    + length s.ivr_sessions
    + length s.ivr_conf_sessions
    + count_calls s.bridge_calls

-- `none` admits the INVITE.
unfoldable pub try_reject_invite_for_capacity : ClusterLimits → Server → Option Rejection
unfolding active_dialog_count trim_space
try_reject_invite_for_capacity c s =
    if not (is_positive c.max_concurrent_calls)
    then none
    else if lt_int (pos (active_dialog_count s)) c.max_concurrent_calls
    then none
    else if c.overflow_redirect_enabled && not (is_empty (trim_space c.overflow_redirect_sip_uri))
    then some (redirect (trim_space c.overflow_redirect_sip_uri))
    else some overload
