-- ===== src/Sip/Server/Fanout/Answers.antt =====
-- Final answers to an inbound INVITE, counted over the effects of the fanout's operations.
use sipbridge.Config.{ConferenceGroup, Spec}
use sipbridge.Maps.{lookup, delete, is_some}
use sipbridge.Prelude.{
  ℕ, ◌+◌, ◌≤◌, Bool, false, ◌&&◌, ◌≡◌, ◌==◌, refl, ap, Option, none, some, List, [], ◌∷◌, ◌++◌, map,
  filter, arith, if◌then◌else◌, get_elem?, Bool-cases, inl, inr,
}
use sipbridge.Sip.Message.{Message, header}
use sipbridge.Sip.Server.Fanout.{
  Env, forget_legs, forget_found, drop_session, cleanup_session, cancel_losers, cancel_losers_of,
  is_loser, join_room, join_target, join_group, session_at,
}
use sipbridge.Sip.Server.Keys.{key_of}
use sipbridge.Sip.Ring.{synthetic_ard_bridge_id}
use sipbridge.Sip.Identity.{
  allow_siprec, bridge_line_label_for_from, conference_group_by_id,
  conference_invite_participant_labels,
}
use sipbridge.Sip.Server.{Leg, Session, Server, Effect, Step, ◌⨟◌, reply, send_cancel, legs_at}
use sipbridge.Text.{Text, codes, text_eq, trim_space}

abbrev key_is : Text → Option Text → Bool
key_is key none = false
key_is key (some k) = text_eq k key

-- A reply to an INVITE of the dialog `key`.
abbrev pub answers_key : Text → Message → Bool
answers_key key m = text_eq m.method (codes "INVITE") && key_is key (key_of m)

abbrev is_answer : Text → Effect → Bool
is_answer key (reply peer m status) = answers_key key m
is_answer key _ = false

unfoldable pub answers : Text → List Effect → ℕ
unfolding text_eq
answers key [] = 0
answers key (e ∷ es) = (if is_answer key e then 1 else 0) + answers key es

abbrev is_refusal : Text → Effect → Bool
is_refusal key (reply peer m status) = answers_key key m && status == 480
is_refusal key _ = false

-- The answers 480 among them.
unfoldable pub refusals : Text → List Effect → ℕ
unfolding text_eq
refusals key [] = 0
refusals key (e ∷ es) = (if is_refusal key e then 1 else 0) + refusals key es

-- 1 for a dialog that is being rung, 0 otherwise.
unfoldable pub ringing : Text → Server → ℕ
ringing key s = if is_some (lookup key s.sessions) then 1 else 0

-- Every answer uses up a ringing dialog.
abbrev pub Spends : Text → Server → Step → Type 0
Spends key s st = answers key st.1 + ringing key st.0 ≤ ringing key s

-- Every answer other than 480 uses up a ringing dialog, and only a ringing dialog is answered 480.
pub record SpendsOrRefuses (key : Text) (s : Server) (st : Step) : Type 0 where
  pub few : answers key st.1 + ringing key st.0 ≤ ringing key s + refusals key st.1
  pub refused : refusals key st.1 ≤ ringing key s

refusals-few : (key : Text) (es : List Effect) → refusals key es ≤ answers key es
unfolding refusals answers
refusals-few key [] = omega arith
refusals-few key (e ∷ es) = ground (arith, refusals-few key es)

pub Spends-SpendsOrRefuses :
    (key : Text) (s : Server) (st : Step) → Spends key s st → SpendsOrRefuses key s st
Spends-SpendsOrRefuses key s st h = record {
  few = omega (arith, h);
  refused = omega (arith, h, refusals-few key st.1);
}

pub refusals-append :
    (key : Text) (xs ys : List Effect) → refusals key (xs ++ ys) ≡ refusals key xs + refusals key ys
unfolding refusals
refusals-append key [] ys = omega arith
refusals-append key (e ∷ xs) ys = ground (arith, refusals-append key xs ys)

pub answers-append :
    (key : Text) (xs ys : List Effect) → answers key (xs ++ ys) ≡ answers key xs + answers key ys
unfolding answers
answers-append key [] ys = omega arith
answers-append key (e ∷ xs) ys = ground (arith, answers-append key xs ys)

pub Spends-⨟ :
    (key : Text) (s : Server) (st : Step) (f : Server → Step)
    → Spends key s st
    → Spends key st.0 (f st.0)
    → Spends key s (st ⨟ f)
Spends-⨟ key s (t, es) f h k = omega (arith, answers-append key es (f t).1)

-- No answer, and the same sessions.
pub record IsSilent (key : Text) (s : Server) (st : Step) : Type 0 where
  pub no_answer : answers key st.1 ≡ 0
  pub same_sessions : st.0.sessions ≡ s.sessions

pub IsSilent-Spends : (key : Text) (s : Server) (st : Step) → IsSilent key s st → Spends key s st
unfolding ringing
IsSilent-Spends key s st h = ground arith

pub IsSilent-⨟ :
    (key : Text) (s : Server) (st : Step) (f : Server → Step)
    → IsSilent key s st
    → IsSilent key st.0 (f st.0)
    → IsSilent key s (st ⨟ f)
IsSilent-⨟ key s (t, es) f h k = record {
  no_answer = omega (arith, answers-append key es (f t).1, h.no_answer, k.no_answer);
  same_sessions = cc (h.same_sessions, k.same_sessions);
}

pub answers-send_cancel : (key : Text) (legs : List Leg) → answers key (map send_cancel legs) ≡ 0
unfolding answers
answers-send_cancel key [] = refl
answers-send_cancel key (l ∷ legs) = ground (arith, answers-send_cancel key legs)

pub forget_found-IsSilent :
    (key : Text) (a : ℕ) (l : Option Leg) (s : Server) → IsSilent key s (forget_found a l s)
unfolding answers
forget_found-IsSilent key a none s = ground arith
forget_found-IsSilent key a (some l) s = ground arith

pub forget_legs-IsSilent :
    (key : Text) (addresses : List ℕ) (s : Server) → IsSilent key s (forget_legs addresses s)
unfolding forget_legs
forget_legs-IsSilent key [] s = unfold answers in ground arith
forget_legs-IsSilent key (a ∷ rest) s =
    IsSilent-⨟ key s (forget_found a (get_elem? s.legs a) s) (forget_legs rest)
      (forget_found-IsSilent key a (get_elem? s.legs a) s)
      (forget_legs-IsSilent key rest (forget_found a (get_elem? s.legs a) s).0)

pub join_room-IsSilent :
    (key : Text) (env : Env) (sess : Session) (bridge_id : Text) (who : Text × Text) (label : Text)
    (s : Server)
    → IsSilent key s (join_room env sess bridge_id who label s)
unfolding join_room answers
join_room-IsSilent key env sess bridge_id (uid, name) label s = ground arith

join_group-IsSilent :
    (key : Text) (env : Env) (cfg : Spec) (sess : Session) (gid : Text) (g : Option ConferenceGroup)
    (s : Server)
    → IsSilent key s (join_group env cfg sess gid g s)
join_group-IsSilent key env cfg sess gid none s = unfold answers in ground arith
join_group-IsSilent key env cfg sess gid (some g) s =
    let who =
      conference_invite_participant_labels cfg g (header sess.inbound_invite (codes "from")) in
    elim (Bool-cases (allow_siprec cfg g who.0)) [
      | inl allowed ↦ rw allowed (
          join_room-IsSilent key env sess (synthetic_ard_bridge_id gid) who
            (trim_space g.line_label) s)
      | inr refused ↦ rw refused (unfold answers in ground arith)
    ]

pub join_target-IsSilent :
    (key : Text) (env : Env) (cfg : Spec) (sess : Session) (s : Server)
    → IsSilent key s (join_target env cfg sess s)
join_target-IsSilent key env cfg sess s =
    let label =
      bridge_line_label_for_from cfg sess.bridge_id (header sess.inbound_invite (codes "from")) in
    unfold join_target answers in
    ground (
      arith,
      join_room-IsSilent key env sess sess.bridge_id ([], []) label s,
      join_group-IsSilent key env cfg sess (trim_space sess.conference_group_id)
          (conference_group_by_id cfg (trim_space sess.conference_group_id)) s,
    )

cancel_losers_of-IsSilent :
    (key winner : Text) (o : Option Session) (s : Server)
    → IsSilent key s (cancel_losers_of winner o s)
unfolding cancel_losers_of
cancel_losers_of-IsSilent key winner none s = unfold answers in ground arith
cancel_losers_of-IsSilent key winner (some sess) s = record {
  no_answer = answers-send_cancel key (filter (is_loser winner) (legs_at s.legs sess.legs));
  same_sessions = refl;
}

pub cancel_losers-IsSilent :
    (key : Text) (m : Message) (winner : Text) (s : Server)
    → IsSilent key s (cancel_losers m winner s)
unfolding cancel_losers
cancel_losers-IsSilent key m winner s =
    cancel_losers_of-IsSilent key winner (session_at (key_of m) s) s

pub cleanup_session_lem :
    (key : Text) (m : Message) (s : Server) {k : Text} {sess : Session}
    → key_of m ≡ some k
    → lookup k s.sessions ≡ some sess
    → (answers key (cleanup_session m s).1 ≡ 0)
      × ((cleanup_session m s).0.sessions ≡ delete k s.sessions)
unfolding answers
cleanup_session_lem key m s {k} {sess} h found =
    unfold cleanup_session drop_session in
    rw (h, found)
      (
        omega (
          arith,
          forget_legs-IsSilent key sess.legs s,
          answers-append key (forget_legs sess.legs s).1 [],
        ),
        ap (delete k) (forget_legs-IsSilent key sess.legs s).same_sessions,
      )
