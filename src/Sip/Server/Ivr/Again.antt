-- ===== src/Sip/Server/Ivr/Again.antt =====
-- A second fanout of the same caller, after the first one has ended.
use sipbridge.Config.{ConferenceGroup, Endpoint, Spec}
use sipbridge.Maps.Laws.{lookup-insert}
use sipbridge.Maps.{lookup}
use sipbridge.Prelude.{
  ℕ, suc, true, ◌≡◌, refl, ◌++◌, Option, none, some, List, [], ◌∷◌, length, if◌then◌else◌,
  Bool-cases, inl, inr,
}
use sipbridge.Sip.Identity.{conference_group_by_id}
use sipbridge.Sip.Message.{Message}
use sipbridge.Sip.Server.Conference.{conference_response}
use sipbridge.Sip.Server.Invite.{Emitted}
use sipbridge.Sip.Server.Ivr.Ring.{
  FanoutEnv, attach_conf_leg, ivr_start_conference_group_fanout, ring_conf, ring_group, start_ring,
}
use sipbridge.Sip.Server.Keys.{ivrconf_prefix}
use sipbridge.Sip.Server.{IvrConf, IvrSession, Leg, Server}
use sipbridge.Text.Laws.{text_eq_refl}
use sipbridge.Text.{Text, is_empty, trim_space}

-- The fanout of the key has ended.
record Over (k : Text) (s : Server) : Type 0 where
  pub fanout : IvrConf
  pub there : lookup k s.ivr_conf_sessions ≡ some fanout
  pub ended : fanout.terminated ≡ true

attach_conf_leg-Over :
    (k : Text) (out : Option (Emitted × ℕ)) (s : Server)
    → Over k s
    → Over k (attach_conf_leg k out s).0
attach_conf_leg-Over k none s h = h
attach_conf_leg-Over k (some (out, port)) s h =
    let longer = record (h.fanout) { legs = h.fanout.legs ++ length s.legs ∷ [] } in
    rw h.there
      (record { fanout = longer; there = rw lookup-insert (rw text_eq_refl refl); ended = h.ended })

ring_conf-Over :
    (env : FanoutEnv) (k : Text) (i : ℕ) (eps : List Endpoint) (s : Server)
    → Over k s
    → Over k (ring_conf env k i eps s).0
unfolding ring_conf
ring_conf-Over env k i [] s h = h
ring_conf-Over env k i (ep ∷ eps) s h =
    let out = if is_empty (trim_space ep.sip_uri) then none else env.emit i ep in
    ring_conf-Over env k (suc i) eps (attach_conf_leg k out s).0 (attach_conf_leg-Over k out s h)

start_ring-Over :
    (env : FanoutEnv) (k : Text) (fresh : IvrConf) (eps : List Endpoint) (s : Server)
    → Over k s
    → Over k (start_ring env k fresh eps s).0
start_ring-Over env k fresh [] s h = h
start_ring-Over env k fresh (ep ∷ eps) s h = rw h.there (ring_conf-Over env k 0 (ep ∷ eps) s h)

ring_group-Over :
    (env : FanoutEnv) (cfg : Spec) (key : Text) (iv : IvrSession) (gid : Text)
    (g : Option ConferenceGroup) (s : Server)
    → Over (ivrconf_prefix ++ key) s
    → Over (ivrconf_prefix ++ key) (ring_group env cfg key iv gid g s).0
ring_group-Over env cfg key iv gid none s h = h
ring_group-Over env cfg key iv gid (some g) s h =
    start_ring-Over env (ivrconf_prefix ++ key) _ _ s h

fanout-Over :
    (env : FanoutEnv) (cfg : Spec) (key : Text) (iv : IvrSession) (s : Server)
    → Over (ivrconf_prefix ++ key) s
    → Over (ivrconf_prefix ++ key) (ivr_start_conference_group_fanout env cfg key iv s).0
fanout-Over env cfg key iv s h =
    let gid = trim_space iv.conference_group_id in
    elim (Bool-cases (is_empty gid)) [
      | inl blank ↦ unfold ivr_start_conference_group_fanout in rw blank h
      | inr named ↦
          unfold ivr_start_conference_group_fanout in
          rw named (ring_group-Over env cfg key iv gid (conference_group_by_id cfg gid) s h)
    ]

-- A caller's conference fanout has ended (its timer fired): when the caller rings the group again,
-- no answer of a rung leg is taken, since the ended entry is used again.
pub fanout_again-Deaf :
    (env : FanoutEnv) (cfg : Spec) (key : Text) (iv : IvrSession) (s : Server) (fs : IvrConf)
    (msg : Message) (call_id : Text) (a : ℕ) (leg : Leg)
    → lookup (ivrconf_prefix ++ key) s.ivr_conf_sessions ≡ some fs
    → fs.terminated ≡ true
    → leg.session_key ≡ ivrconf_prefix ++ key
    → conference_response msg call_id a leg (ivr_start_conference_group_fanout env cfg key iv s).0
      ≡ ((ivr_start_conference_group_fanout env cfg key iv s).0, [])
fanout_again-Deaf env cfg key iv s fs msg call_id a leg found over of_fanout =
    let h = fanout-Over env cfg key iv s (record { fanout = fs; there = found; ended = over }) in
    unfold conference_response in rw (of_fanout, h.there, h.ended) refl
