-- ===== src/Sip/Message.antt =====
-- SIP messages and their parser: internal/sip/message.go. `Raw` is the parsed text itself and is
-- left out. `make([]byte, cl)` panics on a length that the runtime cannot allocate: the bound is
-- the argument `alloc_limit`.
pub mod Laws
use mathlib.Core.Option
use sipbridge.Maps.{Map, lookup, insert}
use sipbridge.Prelude.{
  ℕ, zero, suc, ◌≤◌, ℤ, pos, negsuc, Bool, true, false, ◌||◌, Option, none, some, List, [], ◌∷◌,
  ◌++◌, ◌==◌, leb, ltb, length, take, if◌then◌else◌,
}
use sipbridge.Text.Number.{atoi}
use sipbridge.Text.{
  Text, codes, text_eq, trim_space, trim_right, to_lower, has_prefix, cut, is_empty,
}

pub record Message : Type 0 where
  pub is_request : Bool
  pub method : Text
  pub request_uri : Text
  pub status_code : ℤ
  pub reason : Text
  pub version : Text
  pub headers : Map (List Text)
  pub body : Text

pub data ParseError : Type 0 where
  read_start_line empty_start_line bad_status_line bad_status_code : ParseError
  bad_request_line read_header read_body out_of_fuel : ParseError

-- `crash` is a panic of the runtime.
pub data Parsed {ℓ} (A : Type ℓ) : Type ℓ where
  ok : A → Parsed A
  err : ParseError → Parsed A
  crash : Parsed A

infixl 5 ◌>>=◌
abbrev pub ◌>>=◌ {ℓ κ} : {A : Type ℓ} {B : Type κ} → Parsed A → (A → Parsed B) → Parsed B
ok a >>= f = f a
err e >>= f = err e
crash >>= f = crash

unfoldable pub canonical_header_key : Text → Text
unfolding trim_space to_lower text_eq
canonical_header_key key =
    let k = to_lower (trim_space key) in
    if text_eq k (codes "f")
    then codes "from"
    else if text_eq k (codes "t")
    then codes "to"
    else if text_eq k (codes "v")
    then codes "via"
    else if text_eq k (codes "i")
    then codes "call-id"
    else if text_eq k (codes "l")
    then codes "content-length"
    else if text_eq k (codes "c")
    then codes "content-type"
    else if text_eq k (codes "m")
    then codes "contact"
    else k

abbrev pub values : Option (List Text) → List Text
values none = []
values (some vs) = vs

abbrev pub first_value : List Text → Text
first_value [] = []
first_value (v ∷ vs) = v

unfoldable pub all_headers : Message → Text → List Text
unfolding canonical_header_key lookup
all_headers m key = values (lookup (canonical_header_key key) m.headers)

unfoldable pub header : Message → Text → Text
unfolding all_headers
header m key = first_value (all_headers m key)

abbrev is_line_end : ℕ → Bool
is_line_end c = c == 10 || c == 13

abbrev line_and_rest : Text → Option (Text × Text) → Text × Text
line_and_rest s none = (trim_right is_line_end s, [])
line_and_rest s (some (line, rest)) = (trim_right is_line_end line, rest)

-- `none` at the end of the input; the last line may lack its line feed.
unfoldable pub read_line : Text → Option (Text × Text)
unfolding cut trim_right
read_line [] = none
read_line (c ∷ cs) = some (line_and_rest (c ∷ cs) (cut 10 (c ∷ cs)))

-- `strings.SplitN(line, " ", 3)`, `none` for fewer than three parts.
unfoldable pub three_parts : Text → Option (Text × Text × Text)
unfolding cut Option.bind
three_parts line =
    Option.bind (cut b' ' line)
      λ (p : Text × Text). Option.map (λ (q : Text × Text). (p.0, q.0, q.1)) (cut b' ' p.1)

abbrev pub blank : Message
blank = record {
  is_request = false;
  method = [];
  request_uri = [];
  status_code = pos 0;
  reason = [];
  version = [];
  headers = [];
  body = [];
}

abbrev status_line : Option (Text × Text × Text) → Parsed Message
status_line none = err bad_status_line
status_line (some (version, code, reason)) = elim (atoi (trim_space code)) [
  | none ↦ err bad_status_code
  | some n ↦ ok (record blank { version = version; status_code = n; reason = trim_space reason })
]

abbrev request_line : Option (Text × Text × Text) → Parsed Message
request_line none = err bad_request_line
request_line (some (method, uri, version)) = ok (record blank {
  is_request = true;
  method = trim_space method;
  request_uri = trim_space uri;
  version = trim_space version;
})

unfoldable pub parse_start_line : Text → Parsed Message
unfolding has_prefix three_parts atoi trim_space
parse_start_line line =
    if is_empty line
    then err empty_start_line
    else if has_prefix (codes "SIP/") line
    then status_line (three_parts line)
    else request_line (three_parts line)

-- One header line; a line with no colon is skipped.
unfoldable pub add_header : Text → Map (List Text) → Map (List Text)
unfolding cut canonical_header_key trim_space lookup insert
add_header line headers = elim (cut b':' line) [
  | none ↦ headers
  | some (k, v) ↦
      let key = canonical_header_key (trim_space k) in
      insert key (values (lookup key headers) ++ trim_space v ∷ []) headers
]

-- The loop over header lines, on fuel; what follows the empty line is the body's text.
unfoldable pub read_headers : ℕ → Text → Map (List Text) → Parsed (Map (List Text) × Text)
unfolding read_line add_header
read_headers zero s headers = err out_of_fuel
read_headers (suc fuel) s headers = elim (read_line s) [
  | none ↦ err read_header
  | some (line, rest) ↦
      let more = read_headers fuel rest (add_header line headers) in
      if is_empty line then ok (headers, rest) else more
]

abbrev non_negative : Option ℤ → ℕ
non_negative (some (pos n)) = n
non_negative _ = 0

unfoldable pub content_length : Message → ℕ
unfolding header atoi trim_space
content_length m =
    let v = header m (codes "content-length") in
    if is_empty v then 0 else non_negative (atoi (trim_space v))

-- `make([]byte, cl)` and `io.ReadFull`
unfoldable pub read_body_of : ℕ → ℕ → Text → Parsed Text
read_body_of alloc_limit n s =
    if ltb alloc_limit n then crash else if leb n (length s) then ok (take n s) else err read_body

abbrev start_line : Option (Text × Text) → Parsed (Message × Text)
start_line none = err read_start_line
start_line (some (line, rest)) = parse_start_line line >>= λ m. ok (m, rest)

abbrev pub with_body : ℕ → Message → Text → Parsed Message
with_body alloc_limit m rest = read_body_of alloc_limit (content_length m) rest >>= λ (body : Text).
    ok (record m { body = body })

abbrev pub with_headers : ℕ → Message × Text → Parsed Message
with_headers alloc_limit (m, rest) =
    read_headers (suc (length rest)) rest [] >>= λ (q : Map (List Text) × Text).
    with_body alloc_limit (record m { headers = q.0 }) q.1

unfoldable pub parse_message : ℕ → Text → Parsed Message
unfolding read_line parse_start_line read_headers content_length read_body_of
parse_message alloc_limit b = start_line (read_line b) >>= with_headers alloc_limit
