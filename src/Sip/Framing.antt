-- ===== src/Sip/Framing.antt =====
-- Messages cut from a TCP or TLS stream (internal/sip/framing.go). The argument is what the stream
-- still brings before it ends; a result has the bytes of the message and what is left.
pub mod Laws
use sipbridge.Prelude.{
  ℕ, zero, suc, ℤ, pos, negsuc, Bool, true, false, ◌||◌, Option, none, some, List, [], ◌∷◌, ◌++◌,
  ◌==◌, drop, leb, length, ltb, take, if◌then◌else◌,
}
use sipbridge.Text.Number.{atoi}
use sipbridge.Text.Split.{split_pair_from}
use sipbridge.Text.{Text, codes, cut, equal_fold, is_empty, trim_right, trim_space}

abbrev pub is_line_end : ℕ → Bool
is_line_end c = c == 10 || c == 13

abbrev pub line_read : Option (Text × Text) → Option (Text × Text)
line_read none = none
line_read (some (line, rest)) = some (trim_right is_line_end line, rest)

-- A line that the stream does not end is an error, whether it has bytes or not.
unfoldable pub read_line_bytes : Text → Option (Text × Text)
unfolding cut trim_right
read_line_bytes s = line_read (cut 10 s)

abbrev pub written : Text → Text
written line = line ++ 13 ∷ 10 ∷ []

-- The loop over the header lines; `header` is what has been written.
unfoldable pub read_header : ℕ → Text → Text → Option (Text × Text)
unfolding read_line_bytes
read_header zero header s = none
read_header (suc fuel) header s = elim (read_line_bytes s) [
  | none ↦ none
  | some (line, rest) ↦
      let more = read_header fuel (header ++ written line) rest in
      if is_empty line then some (header ++ written line, rest) else more
]

abbrev length_of : Option ℤ → ℤ
length_of none = negsuc 0
length_of (some n) = n

unfoldable pub content_length_from_lines : List Text → ℤ
unfolding cut equal_fold trim_space atoi
content_length_from_lines [] = pos 0
content_length_from_lines (line ∷ rest) =
    let more = content_length_from_lines rest in
    elim (cut b':' line) [
      | none ↦ more
      | some (k, v) ↦
          if equal_fold (trim_space k) (codes "Content-Length")
          then length_of (atoi (trim_space v))
          else more
    ]

unfoldable pub content_length_from_header_block : Text → ℤ
unfolding split_pair_from content_length_from_lines
content_length_from_header_block header =
    content_length_from_lines (split_pair_from 13 10 [] header)

abbrev pub body_length : ℤ → ℕ
body_length (pos n) = n
body_length (negsuc n) = 0

-- A length above `alloc_limit` cannot be allocated: `make` panics.
pub data Framed : Type 0 where
  message : Text → Text → Framed
  failed panicked : Framed

abbrev pub with_body : ℕ → Option (Text × Text) → Framed
with_body alloc_limit none = failed
with_body alloc_limit (some (header, rest)) =
    let n = body_length (content_length_from_header_block header) in
    if ltb alloc_limit n
    then panicked
    else if ltb (length rest) n
    then failed
    else message (header ++ take n rest) (drop n rest)

abbrev pub with_start : ℕ → Option (Text × Text) → Framed
with_start alloc_limit none = failed
with_start alloc_limit (some (first, rest)) =
    if is_empty first
    then failed
    else with_body alloc_limit (read_header (suc (length rest)) (written first) rest)

unfoldable pub read_next_sip_message : ℕ → Text → Framed
unfolding read_line_bytes read_header content_length_from_header_block
read_next_sip_message alloc_limit s = with_start alloc_limit (read_line_bytes s)
