-- ===== src/Media/Events.antt =====
-- Digits in RTP telephone events: `decodeTelephoneEvent` of internal/sip/rtp.go. Times are in
-- nanoseconds; a clock that steps back counts as no time.
use sipbridge.Prelude.{
  ℕ, ◌+◌, ◌-◌, ◌*◌, ◌<◌, ◌≤◌, Bool, true, false, ◌&&◌, ◌≡◌, ◌≢◌, refl, Option, none, some, List, [],
  ◌∷◌, ◌++◌, All, arith, leb, ltb, ◌==◌, if◌then◌else◌, Bool-cases, inl, inr,
}
use sipbridge.Text.{Text, codes}

-- What the session remembers of the last event; `has_callback` is `onDTMFDigit != nil`.
pub record EventState : Type 0 where
  pub last_event : ℕ
  pub last_event_at : Option ℕ
  pub has_callback : Bool

abbrev pub window : ℕ
window = 150 * 1000000

abbrev pub event_digit : ℕ → Text
event_digit event =
    if leb event 9
    then (b'0' + event) ∷ []
    else if event == 10
    then codes "*"
    else if event == 11
    then codes "#"
    else if event == 12
    then codes "A"
    else if event == 13
    then codes "B"
    else if event == 14
    then codes "C"
    else if event == 15
    then codes "D"
    else []

abbrev close_to : ℕ → Option ℕ → Bool
close_to now none = false
close_to now (some at) = ltb (now - at) window

abbrev is_repeat : EventState → ℕ → ℕ → Bool
is_repeat st now event = (st.last_event == event) && close_to now st.last_event_at

abbrev digit_effect : Text → List Text
digit_effect [] = []
digit_effect (c ∷ cs) = (c ∷ cs) ∷ []

abbrev pub end_event : ℕ → ℕ → EventState → EventState × List Text
end_event now event st = if is_repeat st now event then (st, []) else (
  record st { last_event = event; last_event_at = some now },
  if st.has_callback then digit_effect (event_digit event) else [],
)

-- The new state and the digits passed on. Only a packet with the end bit counts.
unfoldable pub decode_telephone_event : ℕ → List ℕ → EventState → EventState × List Text
decode_telephone_event now (event ∷ flags ∷ hi ∷ lo ∷ more) st =
    if leb 128 flags then end_event now event st else (st, [])
decode_telephone_event now _ st = (st, [])

-- Packets with the times at which they are read.
unfoldable pub decode_all : List (ℕ × List ℕ) → EventState → EventState × List Text
unfolding decode_telephone_event
decode_all [] st = (st, [])
decode_all ((now, payload) ∷ packets) st =
    let (st', out) = decode_telephone_event now payload st in
    let (st'', more) = decode_all packets st' in (st'', out ++ more)

-- Packets of one event, read less than 150 ms after the first of them.
abbrev pub Repeats : ℕ → ℕ → List (ℕ × List ℕ) → Type 0
Repeats start event = All (λ (p : ℕ × List ℕ).
    (p.0 < start + window) × ((flags hi lo : ℕ) × (p.1 ≡ event ∷ flags ∷ hi ∷ lo ∷ [])))

abbrev packet : ℕ → ℕ → ℕ → ℕ → List ℕ
packet event flags hi lo = event ∷ flags ∷ hi ∷ lo ∷ []

module _ (start event : ℕ) where
  repeat_lem :
      (now flags hi lo : ℕ) (st : EventState)
      → st.last_event ≡ event
      → st.last_event_at ≡ some start
      → now < start + window
      → decode_telephone_event now (packet event flags hi lo) st ≡ (st, [])
  unfolding decode_telephone_event
  repeat_lem now flags hi lo st same kept soon =
      let near : ltb (now - start) window ≡ true = ground arith in
      elim (Bool-cases (leb 128 flags)) [
        | inl end ↦ rw (end, same, kept, near) (ground arith)
        | inr going ↦ rw going refl
      ]

  repeats_lem :
      (packets : List (ℕ × List ℕ)) (st : EventState)
      → st.last_event ≡ event
      → st.last_event_at ≡ some start
      → Repeats start event packets
      → decode_all packets st ≡ (st, [])
  unfolding decode_all
  repeats_lem [] st same kept h = refl
  repeats_lem ((now, payload) ∷ packets) st same kept ((soon, (flags, hi, lo, is)), h) =
      rw (is, repeat_lem now flags hi lo st same kept soon) (repeats_lem packets st same kept h)

  -- A key of the telephone that differs from the last one, with a callback set: its first end
  -- packet
  -- and all the packets of it read within 150 ms pass on its digit exactly once.
  pub decode_all-once :
      (flags hi lo : ℕ) (packets : List (ℕ × List ℕ)) (st : EventState)
      → event ≤ 15
      → 128 ≤ flags
      → st.has_callback ≡ true
      → st.last_event ≢ event
      → Repeats start event packets
      → (decode_all ((start, packet event flags hi lo) ∷ packets) st).1 ≡ event_digit event ∷ []
  unfolding decode_all decode_telephone_event
  decode_all-once flags hi lo packets st key end heard new h =
      let next = record st { last_event = event; last_event_at = some start } in
      let ended : leb 128 flags ≡ true = ground arith in
      let other : (st.last_event == event) ≡ false = ground arith in
      rw (ended, other, repeats_lem packets next refl refl h, heard) (ground arith)
