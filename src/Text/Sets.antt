-- ===== src/Text/Sets.antt =====
-- Texts in a list: membership and distinctness.
use sipbridge.Prelude.{Bool, true, not, ◌&&◌, List, [], ◌∷◌, any}
use sipbridge.Text.{Text, text_eq}

unfoldable pub member : Text → List Text → Bool
unfolding text_eq
member k = any (λ a. text_eq a k)

unfoldable pub distinct : List Text → Bool
unfolding member
distinct [] = true
distinct (k ∷ ks) = not (member k ks) && distinct ks
