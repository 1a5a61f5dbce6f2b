-- ===== src/Sip/Server/Run/Handlers.antt =====
-- What each event of a run does to the final answers and to the sessions.
use sipbridge.Config.{Spec}
use sipbridge.Maps.{lookup}
use sipbridge.Prelude.{
  ℕ, not, ◌||◌, ◌&&◌, refl, Option, none, some, [], Bool-cases, inl, inr, get_elem?, at_least,
}
use sipbridge.Sip.Message.{Message}
use sipbridge.Sip.Server.Fanout.Answers.{
  answers, Spends, SpendsOrRefuses, Spends-SpendsOrRefuses, Spends-⨟, IsSilent, IsSilent-Spends,
}
use sipbridge.Sip.Server.Fanout.Laws.{fanout_response-SpendsOrRefuses, enforce_ring_timeout-Spends}
use sipbridge.Sip.Server.Fanout.{Env, enforce_ring_timeout}
use sipbridge.Sip.Server.Keys.{call_id_of, siprec_prefix, ivrconf_prefix}
use sipbridge.Sip.Server.Run.Keyed.{
  WellKeyed, Shrinks, Shrinks-trans, Shrinks-of_eq, fanout_response-Shrinks,
  enforce_ring_timeout-Shrinks,
}
use sipbridge.Sip.Server.Teardown.Silent.{siprec_response-IsSilent, conference_response-IsSilent}
use sipbridge.Sip.Server.Teardown.{handle_response, leg_response, known_response}
use sipbridge.Sip.Server.{Leg, Server, Step, ◌⨟◌}
use sipbridge.Text.{Text, is_empty, has_prefix}

-- What an operation does to the answers and the sessions.
pub record Keeps (key : Text) (s : Server) (st : Step) : Type 0 where
  pub spends : Spends key s st
  pub shrinks : Shrinks s st.0

pub IsSilent-Keeps : (key : Text) (s : Server) (st : Step) → IsSilent key s st → Keeps key s st
IsSilent-Keeps key s st h = record {
  spends = IsSilent-Spends key s st h;
  shrinks = Shrinks-of_eq s st.0 h.same_sessions;
}

pub Keeps-⨟ :
    (key : Text) (s : Server) (st : Step) (f : Server → Step)
    → Keeps key s st
    → Keeps key st.0 (f st.0)
    → Keeps key s (st ⨟ f)
Keeps-⨟ key s st f h k = record {
  spends = Spends-⨟ key s st f h.spends k.spends;
  shrinks = Shrinks-trans s st.0 (f st.0).0 h.shrinks k.shrinks;
}

-- What an operation that may answer 480 does to the answers and the sessions.
pub record Settles (key : Text) (s : Server) (st : Step) : Type 0 where
  pub spends : SpendsOrRefuses key s st
  pub shrinks : Shrinks s st.0

pub Keeps-Settles : (key : Text) (s : Server) (st : Step) → Keeps key s st → Settles key s st
Keeps-Settles key s st h = record {
  spends = Spends-SpendsOrRefuses key s st h.spends;
  shrinks = h.shrinks;
}

IsSilent-Settles : (key : Text) (s : Server) (st : Step) → IsSilent key s st → Settles key s st
IsSilent-Settles key s st h = Keeps-Settles key s st (IsSilent-Keeps key s st h)

module _ (key : Text) (cfg : Spec) where
  pub quiet-Keeps : (s : Server) → Keeps key s (s, [])
  quiet-Keeps s =
      IsSilent-Keeps key s (s, [])
        (record { no_answer = unfold answers in refl; same_sessions = refl })

  quiet-Settles : (s : Server) → Settles key s (s, [])
  quiet-Settles s = Keeps-Settles key s (s, []) (quiet-Keeps s)

  leg_response-Settles :
      (env : Env) (msg : Message) (a : ℕ) (leg : Option Leg) (s : Server)
      → WellKeyed s
      → Settles key s (leg_response env cfg msg a leg s)
  leg_response-Settles env msg a none s keyed = quiet-Settles s
  leg_response-Settles env msg a (some leg) s keyed =
      elim (Bool-cases (has_prefix siprec_prefix leg.session_key)) [
        | inl rec ↦ rw rec (IsSilent-Settles key s _ (siprec_response-IsSilent key msg a leg s))
        | inr other ↦ elim (Bool-cases (has_prefix ivrconf_prefix leg.session_key)) [
          | inl conf ↦
              rw (other, conf)
                (IsSilent-Settles key s _
                  (conference_response-IsSilent key msg (call_id_of msg) a leg s))
          | inr fan ↦
              rw (other, fan)
                (record {
                  spends =
                      fanout_response-SpendsOrRefuses key cfg env msg (call_id_of msg) a leg s
                        (keyed leg.session_key);
                  shrinks = fanout_response-Shrinks cfg env msg (call_id_of msg) a leg s;
                })
        ]
      ]

  known_response-Settles :
      (env : Env) (msg : Message) (a : Option ℕ) (s : Server)
      → WellKeyed s
      → Settles key s (known_response env cfg msg a s)
  known_response-Settles env msg none s keyed = quiet-Settles s
  known_response-Settles env msg (some a) s keyed =
      leg_response-Settles env msg a (get_elem? s.legs a) s keyed

  pub handle_response-Settles :
      (env : Env) (msg : Message) (s : Server)
      → WellKeyed s
      → Settles key s (handle_response env cfg msg s)
  handle_response-Settles env msg s keyed =
      let bad =
        is_empty (call_id_of msg)
        || (at_least 0 msg.status_code && not (at_least 1 msg.status_code)) in
      elim (Bool-cases bad) [
        | inl skip ↦ unfold handle_response in rw skip (quiet-Settles s)
        | inr fine ↦
            unfold handle_response in
            rw fine
              (known_response-Settles env msg (lookup (call_id_of msg) s.legs_by_call_id) s keyed)
      ]

module _ (key : Text) where
  pub enforce_ring_timeout-Keeps :
      (k : Text) (s : Server) → WellKeyed s → Keeps key s (enforce_ring_timeout k s)
  enforce_ring_timeout-Keeps k s keyed = record {
    spends = enforce_ring_timeout-Spends key k s (keyed k);
    shrinks = enforce_ring_timeout-Shrinks k s;
  }
