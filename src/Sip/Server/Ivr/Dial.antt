-- ===== src/Sip/Server/Ivr/Dial.antt =====
-- A code that a caller types digit by digit arrives whole.
use mathlib.Core.List.{append_assoc}
use sipbridge.Config.{Spec}
use sipbridge.Maps.Laws.{lookup-insert}
use sipbridge.Maps.{lookup}
use sipbridge.Prelude.{
  ℕ, true, false, ◌≡◌, refl, ap, ◌∙◌, some, List, [], ◌∷◌, ◌++◌, map, arith, All,
}
use sipbridge.Sip.Server.Ivr.Info.{dial, rtp_digit}
use sipbridge.Sip.Server.Ivr.{handle_ivr_digit_locked, is_digit, store}
use sipbridge.Sip.Server.{IvrSession, IvrState, Server}
use sipbridge.Text.Laws.{text_eq_refl}
use sipbridge.Text.{Text, codes, is_space, text_eq, trim, trim_left, trim_right, trim_space}

abbrev pub Digits : Text → Type 0
Digits = All (λ c. is_digit c ≡ true)

trim_left-Digits : (s : Text) → Digits s → trim_left is_space s ≡ s
unfolding trim_left
trim_left-Digits [] h = refl
trim_left-Digits (c ∷ s) (d, h) = ground (arith, d)

trim_right-Digits : (s : Text) → Digits s → trim_right is_space s ≡ s
unfolding trim_right
trim_right-Digits [] h = refl
trim_right-Digits (c ∷ s) (d, h) = ground (arith, d, trim_right-Digits s h)

trim_space-Digits : (s : Text) → Digits s → trim_space s ≡ s
unfolding trim_space trim
trim_space-Digits s h = rw (trim_left-Digits s h) (trim_right-Digits s h)

append_none : (s : Text) → s ++ [] ≡ s
append_none [] = refl
append_none (c ∷ s) = ap (λ (t : Text). c ∷ t) (append_none s)

-- The keys for the digits.
abbrev pub keys_of : Text → List Text
keys_of = map (λ c. c ∷ [])

module _ (cfg : Spec) (key : Text) where
  rtp_digit-typed :
      (c : ℕ) (iv : IvrSession) (s : Server)
      → is_digit c ≡ true
      → iv.state ≡ IvrState.collect_bridge
      → lookup key s.ivr_sessions ≡ some iv
      → rtp_digit cfg key (c ∷ []) s ≡ (store key (record iv { buf = iv.buf ++ c ∷ [] }) s, [])
  unfolding rtp_digit handle_ivr_digit_locked
  rtp_digit-typed c iv s d waits found =
      let no_hash : text_eq (c ∷ []) (codes "#") ≡ false = unfold text_eq in ground (arith, d) in
      rw (found, waits, no_hash, d) refl

  rtp_digit-hash :
      (iv : IvrSession) (s : Server)
      → iv.state ≡ IvrState.collect_bridge
      → lookup key s.ivr_sessions ≡ some iv
      → rtp_digit cfg key (codes "#") s ≡ (
        store key
            (record iv {
              buf = [];
              bridge_access = trim_space iv.buf;
              state = IvrState.collect_user;
            })
            s,
        [],
      )
  unfolding rtp_digit handle_ivr_digit_locked
  rtp_digit-hash iv s waits found = rw (found, waits) refl

  stored : (iv : IvrSession) (s : Server) → lookup key (store key iv s).ivr_sessions ≡ some iv
  stored iv s = rw (lookup-insert, text_eq_refl) refl

  -- From the state with `buf` typed so far.
  dial-code :
      (ds : Text) (iv : IvrSession) (s : Server)
      → Digits ds
      → iv.state ≡ IvrState.collect_bridge
      → lookup key s.ivr_sessions ≡ some iv
      → ((dial cfg key (keys_of ds ++ codes "#" ∷ []) s).1 ≡ [])
        × (lookup key (dial cfg key (keys_of ds ++ codes "#" ∷ []) s).0.ivr_sessions
            ≡ some (record iv {
              buf = [];
              bridge_access = trim_space (iv.buf ++ ds);
              state = IvrState.collect_user;
            }))
  unfolding dial
  dial-code [] iv s h waits found =
      rw (rtp_digit-hash iv s waits found, append_none iv.buf)
        (
          refl,
          stored
              (record iv {
                buf = [];
                bridge_access = trim_space iv.buf;
                state = IvrState.collect_user;
              })
              s,
        )
  dial-code (c ∷ ds) iv s (d, h) waits found =
      let next = record iv { buf = iv.buf ++ c ∷ [] } in
      let rec = dial-code ds next (store key next s) h waits (stored next s) in
      let whole = rw (append_assoc iv.buf (c ∷ []) ds) at rec in
      rw (rtp_digit-typed c iv s d waits found) whole

  -- A caller who has typed nothing yet types digits and then `#`: the code that the IVR stores is
  -- those digits in that order, it asks for the participant id next, and nothing is sent.
  pub dial-access_code :
      (ds : Text) (iv : IvrSession) (s : Server)
      → Digits ds
      → iv.state ≡ IvrState.collect_bridge
      → iv.buf ≡ []
      → lookup key s.ivr_sessions ≡ some iv
      → ((dial cfg key (keys_of ds ++ codes "#" ∷ []) s).1 ≡ [])
        × (lookup key (dial cfg key (keys_of ds ++ codes "#" ∷ []) s).0.ivr_sessions
            ≡ some (record iv { buf = []; bridge_access = ds; state = IvrState.collect_user }))
  dial-access_code ds iv s h waits empty found =
      let rec = dial-code ds iv s h waits found in
      let code : trim_space (iv.buf ++ ds) ≡ ds = rw empty (trim_space-Digits ds h) in
      (
        rec.0,
        rec.1
            ∙ ap
                (λ (x : Text).
                  some (record iv { buf = []; bridge_access = x; state = IvrState.collect_user }))
                code,
      )
