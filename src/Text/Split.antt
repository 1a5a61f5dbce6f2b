-- ===== src/Text/Split.antt =====
-- `strings.Split` at one byte, `strings.TrimPrefix` and `strings.Repeat`.
use sipbridge.Prelude.{ℕ, zero, suc, List, [], ◌∷◌, ◌++◌, ◌==◌, ◌&&◌, drop, if◌then◌else◌, length}
use sipbridge.Text.{Text, has_prefix}

-- The first argument is the part being read.
unfoldable pub split_from : ℕ → Text → Text → List Text
split_from b part [] = part ∷ []
split_from b part (c ∷ cs) =
    let rest = split_from b (if c == b then [] else part ++ c ∷ []) cs in
    if c == b then part ∷ rest else rest

unfoldable pub split : ℕ → Text → List Text
unfolding split_from
split b s = split_from b [] s

-- `strings.Split` at two bytes; the third argument is the part being read.
unfoldable pub split_pair_from : ℕ → ℕ → Text → Text → List Text
split_pair_from x y part [] = part ∷ []
split_pair_from x y part (a ∷ []) = (part ++ a ∷ []) ∷ []
split_pair_from x y part (a ∷ b ∷ s) =
    let skipped = split_pair_from x y [] s in
    let kept = split_pair_from x y (part ++ a ∷ []) (b ∷ s) in
    if a == x && b == y then part ∷ skipped else kept

-- `strings.ReplaceAll(s, old, new)` for an `old` of two bytes.
unfoldable pub replace_pair : ℕ → ℕ → Text → Text → Text
replace_pair x y new [] = []
replace_pair x y new (a ∷ []) = a ∷ []
replace_pair x y new (a ∷ b ∷ s) =
    let skipped = replace_pair x y new s in
    let kept = replace_pair x y new (b ∷ s) in if a == x && b == y then new ++ skipped else a ∷ kept

-- `strings.TrimPrefix(s, p)`
unfoldable pub trim_prefix : Text → Text → Text
unfolding has_prefix
trim_prefix p s = if has_prefix p s then drop (length p) s else s

unfoldable pub repeat : ℕ → Text → Text
repeat zero s = []
repeat (suc n) s = s ++ repeat n s
