-- ===== src/Sip/Address.antt =====
-- Header values that name a party: internal/sip/address.go, `ExtractUserFromURI` of router.go, and
-- the tags of server.go and responses.go.
use sipbridge.Prelude.{
  ℕ, ◌+◌, Bool, true, false, ◌||◌, Option, none, some, List, [], ◌∷◌, ◌++◌, ◌==◌, drop,
  if◌then◌else◌,
}
use sipbridge.Text.Number.{decimal}
use sipbridge.Text.{
  Text, codes, trim_space, trim, to_lower, has_prefix, before, index, cut, fields, is_empty,
}

abbrev is_quote : ℕ → Bool
is_quote c = c == 34

abbrev last_or : Text → List Text → Text
last_or s [] = s
last_or s (f ∷ []) = f
last_or s (f ∷ g ∷ fs) = last_or s (g ∷ fs)

-- The form without angle brackets.
unfoldable pub bare_uri : Text → Text
unfolding before trim fields trim_space
bare_uri s = let t = trim is_quote (before (λ c. c == b';') s) in trim_space (last_or t (fields t))

-- What stands between `<` and `>` of the text behind the `<`, if the `>` is there.
abbrev bracketed : Option (Text × Text) → Text → Text
bracketed none s = bare_uri s
bracketed (some (u, rest)) s = trim_space u

abbrev after_bracket : Option (Text × Text) → Text → Text
after_bracket none s = bare_uri s
after_bracket (some (name, rest)) s = bracketed (cut b'>' rest) s

unfoldable pub extract_uri_from_address_header : Text → Text
unfolding trim_space cut bare_uri
extract_uri_from_address_header h =
    let s = trim_space h in if is_empty s then [] else after_bracket (cut b'<' s) s

abbrev strip_scheme : Text → Text
strip_scheme u =
    let low = to_lower u in
    if has_prefix (codes "sip:") low
    then drop 4 u
    else if has_prefix (codes "sips:") low
    then drop 5 u
    else u

unfoldable pub extract_user_from_uri : Text → Text
unfolding trim_space to_lower has_prefix before trim
extract_user_from_uri uri = trim_space (
    trim (λ c. c == b'<' || c == b'>')
      (before (λ c. c == b'@' || c == b';') (strip_scheme (trim_space uri))))

-- The user part behind a header, as the handlers ask for it.
unfoldable pub header_user : Text → Text
unfolding extract_user_from_uri extract_uri_from_address_header
header_user h = extract_user_from_uri (extract_uri_from_address_header h)

abbrev tag_at : Text → Option ℕ → Text
tag_at h none = []
tag_at h (some i) = trim_space (before (λ c. c == b';' || c == b'>' || c == b' ') (drop (i + 4) h))

unfoldable pub extract_tag : Text → Text
unfolding to_lower index before trim_space
extract_tag h = tag_at h (index (codes "tag=") (to_lower h))

abbrev contains : Text → Text → Bool
contains sub s = elim (index sub s) [ none ↦ false | some i ↦ true ]

-- `clock` is `time.Now().UnixNano()`.
unfoldable pub ensure_to_tag : ℕ → Text → Text
unfolding index to_lower decimal
ensure_to_tag clock to =
    if contains (codes "tag=") (to_lower to)
    then to
    else to ++ (if contains (codes ";") to then [] else codes ";") ++ codes "tag=" ++ decimal clock

unfoldable pub ensure_to_tag_with_value : ℕ → Text → Text × Text
unfolding ensure_to_tag extract_tag
ensure_to_tag_with_value clock to =
    let with_tag = ensure_to_tag clock to in (with_tag, extract_tag with_tag)
