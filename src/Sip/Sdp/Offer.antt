-- ===== src/Sip/Sdp/Offer.antt =====
-- The codec that the IVR picks from an offer.
use mathlib.Core.Path.{subst}
use sipbridge.Prelude.{
  ℕ, ℤ, ◌≡◌, refl, sym, ◌∙◌, Bool, true, false, ◌&&◌, ◌||◌, not, Option, none, some, List, [], ◌∷◌,
  any, or_else, if◌then◌else◌, Bool-cases, some-injective, inl, inr,
}
use sipbridge.Sip.Sdp.{
  Conn, Ip, Net, SdpAudioOffer, is_number, offer_of, parse_sdp_audio_offer, pick_from,
  pick_ivr_audio_payload_type, lines_of, conn_of, no_conn, addr_of, first_audio,
}
use sipbridge.Text.{Text}

-- The first of the payload types that is G.711.
unfoldable pub first_g711 : List ℤ → Option ℕ
first_g711 [] = none
first_g711 (pt ∷ pts) =
    let rest = first_g711 pts in
    if is_number 0 pt then some 0 else if is_number 8 pt then some 8 else rest

-- The flags of an offer are those of its payload types.
Flagged : SdpAudioOffer → Type 0
Flagged o =
    (o.has_pcmu ≡ any (is_number 0) o.payloads) × (o.has_pcma ≡ any (is_number 8) o.payloads)

offer_of-Flagged :
    (lines : List Text) (c : Conn) (a : Option Ip) (media : Option (ℤ × List ℤ)) (o : SdpAudioOffer)
    → offer_of lines c a media ≡ some o
    → Flagged o
unfolding Flagged
offer_of-Flagged lines c none media o h = cc
offer_of-Flagged lines c (some addr) none o h = cc
offer_of-Flagged lines c (some addr) (some (port, pts)) o h =
    subst
      (λ (x : SdpAudioOffer).
        (x.has_pcmu ≡ any (is_number 0) x.payloads) × (x.has_pcma ≡ any (is_number 8) x.payloads))
      (some-injective _ o h) (refl, refl)

step :
    (z u e a : Bool) (x y : Option ℕ)
    → (z ≡ true → u ≡ true)
    → (e ≡ true → a ≡ true)
    → x ≡ y
    → (if z && u then some 0 else if e && a then some 8 else x)
      ≡ (if z then some 0 else if e then some 8 else y)
step true u e a x y hu ha same = rw (hu refl) refl
step false u true a x y hu ha same = rw (ha refl) refl
step false u false a x y hu ha same = same

behind : (a b : Bool) → b ≡ true → (a || b) ≡ true
behind true b h = refl
behind false b h = h

neither : (a b : Bool) → (a || b) ≡ false → (a ≡ false) × (b ≡ false)
neither true b h = cc
neither false b h = (refl, h)

nothing :
    (u a : Bool) (x y : Option ℕ)
    → u ≡ false
    → a ≡ false
    → (if not u && not a then none else or_else x y) ≡ none
nothing true a x y hu ha = cc
nothing false true x y hu ha = cc
nothing false false x y hu ha = refl

something :
    (u a : Bool) (x y : Option ℕ) (n : ℕ)
    → (u || a) ≡ true
    → x ≡ some n
    → (if not u && not a then none else or_else x y) ≡ some n
something true a x y n h found = rw found refl
something false true x y n h found = rw found refl
something false false x y n h found = cc

subst2 : {u a v b : Bool} → u ≡ v → a ≡ b → (u || a) ≡ true → (v || b) ≡ true
subst2 hu ha h = rw (sym hu, sym ha) h

pick_from-first_g711 :
    (o : SdpAudioOffer) (pts : List ℤ)
    → (any (is_number 0) pts ≡ true → o.has_pcmu ≡ true)
    → (any (is_number 8) pts ≡ true → o.has_pcma ≡ true)
    → pick_from o pts ≡ first_g711 pts
unfolding pick_from first_g711
pick_from-first_g711 o [] u a = refl
pick_from-first_g711 o (pt ∷ pts) u a =
    step (is_number 0 pt) o.has_pcmu (is_number 8 pt) o.has_pcma (pick_from o pts) (first_g711 pts)
      (λ h. u (rw h refl)) (λ h. a (rw h refl))
      (pick_from-first_g711 o pts (λ h. u (behind (is_number 0 pt) (any (is_number 0) pts) h))
        (λ h. a (behind (is_number 8 pt) (any (is_number 8) pts) h)))

first_g711-none :
    (pts : List ℤ)
    → any (is_number 0) pts ≡ false
    → any (is_number 8) pts ≡ false
    → first_g711 pts ≡ none
unfolding first_g711
first_g711-none [] u a = refl
first_g711-none (pt ∷ pts) u a =
    let no_u = neither (is_number 0 pt) (any (is_number 0) pts) u in
    let no_a = neither (is_number 8 pt) (any (is_number 8) pts) a in
    rw (no_u.0, no_a.0) (first_g711-none pts no_u.1 no_a.1)

first_g711-there :
    (pts : List ℤ)
    → (any (is_number 0) pts || any (is_number 8) pts) ≡ true
    → (pt : ℕ) × (first_g711 pts ≡ some pt)
unfolding first_g711
first_g711-there [] h = cc
first_g711-there (pt ∷ pts) h = elim (Bool-cases (is_number 0 pt)) [
  | inl e ↦ (0, rw e refl)
  | inr e ↦ elim (Bool-cases (is_number 8 pt)) [
    | inl e2 ↦ (8, rw (e, e2) refl)
    | inr e2 ↦ let later = first_g711-there pts (rw (e, e2) at h) in (later.0, rw (e, e2) later.1)
  ]
]

pick-first : (o : SdpAudioOffer) → Flagged o → pick_ivr_audio_payload_type o ≡ first_g711 o.payloads
unfolding pick_ivr_audio_payload_type Flagged
pick-first o flags =
    let same = pick_from-first_g711 o o.payloads (λ h. flags.0 ∙ h) (λ h. flags.1 ∙ h) in
    elim (Bool-cases (o.has_pcmu || o.has_pcma)) [
      | inr e ↦
          let no = neither o.has_pcmu o.has_pcma e in
          nothing o.has_pcmu o.has_pcma (pick_from o o.payloads)
            (if o.has_pcmu then some 0 else some 8) no.0 no.1
          ∙ sym (first_g711-none o.payloads (sym flags.0 ∙ no.0) (sym flags.1 ∙ no.1))
      | inl e ↦
          let there = first_g711-there o.payloads (subst2 flags.0 flags.1 e) in
          something o.has_pcmu o.has_pcma (pick_from o o.payloads)
            (if o.has_pcmu then some 0 else some 8) there.0 e (same ∙ there.1)
          ∙ sym there.1
    ]

-- The codec that the IVR picks from an offer that was parsed is the first of its payload types
-- that is G.711: 0 for PCMU, 8 for PCMA, and nothing where there is none.
pub pick_ivr_audio_payload_type-first_g711 :
    (net : Net) (body : Text) (fallback : Option Ip) (o : SdpAudioOffer)
    → parse_sdp_audio_offer net body fallback ≡ some o
    → pick_ivr_audio_payload_type o ≡ first_g711 o.payloads
unfolding parse_sdp_audio_offer
pick_ivr_audio_payload_type-first_g711 net body fallback o h = pick-first o (
    offer_of-Flagged (lines_of body) (conn_of net no_conn (lines_of body))
      (addr_of net (lines_of body) (conn_of net no_conn (lines_of body)) fallback)
      (first_audio (lines_of body)) o h)
