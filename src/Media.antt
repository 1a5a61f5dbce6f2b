-- ===== src/Media.antt =====
-- G.711: `linearToMuLaw` of internal/sip/rtp.go, and the decoders of internal/capture/g711.go.
-- A byte is a number below 256. Masks and shifts of bytes are written as remainders, quotients and
-- powers of 2; no sum here reaches the range where an int16 wraps around.
pub mod Companding
pub mod Events
use sipbridge.Prelude.{
  ℕ, zero, suc, ◌+◌, ◌-◌, ◌*◌, ◌/◌, ◌%◌, ◌^◌, ℤ, pos, negsuc, Bool, true, false, List, map, leb,
  ltb, ◌==◌, if◌then◌else◌,
}

-- `-n`
abbrev minus : ℕ → ℤ
minus zero = pos 0
minus (suc n) = negsuc n

abbrev pub magnitude : ℤ → ℕ
magnitude (pos n) = n
magnitude (negsuc n) = suc n

abbrev is_negative : ℤ → Bool
is_negative (pos n) = false
is_negative (negsuc n) = true

-- `^u`, `u & 0x0F`, `(u & 0x70) >> 4` and `u & 0x80 != 0`
abbrev complement : ℕ → ℕ
complement u = 255 - u

abbrev low_bits : ℕ → ℕ
low_bits u = u % 16

abbrev segment : ℕ → ℕ
segment u = u / 16 % 8

abbrev high_bit : ℕ → Bool
high_bit u = leb 128 u

-- `MuLawDecode`
unfoldable pub mu_law_decode : ℕ → ℤ
mu_law_decode u =
    let v = complement u in
    let t = (low_bits v * 8 + 132) * 2 ^ segment v in
    if high_bit v then minus (t - 132) else pos (t - 132)

-- The search for the exponent: the mask at `e` is 2^(e + 7).
unfoldable pub exponent : ℕ → ℕ → ℕ
exponent zero s = 0
exponent (suc e) s = let lower = exponent e s in if s / 2 ^ (e + 8) % 2 == 1 then suc e else lower

abbrev clipped : ℕ → ℕ
clipped m = if ltb 32635 m then 32635 else m

-- `linearToMuLaw`
unfoldable pub linear_to_mu_law : ℤ → ℕ
unfolding exponent
linear_to_mu_law sample =
    let s = clipped (magnitude sample) + 132 in
    let e = exponent 7 s in
    complement ((if is_negative sample then 128 else 0) + e * 16 + s / 2 ^ (e + 3) % 16)

-- `DecodePCMU`
unfoldable pub decode_pcmu : List ℕ → List ℤ
unfolding mu_law_decode
decode_pcmu payload = map mu_law_decode payload
