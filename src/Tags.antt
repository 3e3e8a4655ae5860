-- ===== src/Tags.antt =====
-- `_find_matching_end`, `text_between` and `text_not_between` of `src/agentic/monads/common.py`. A
-- position in a text is the rest of the text from there on.
pub mod Weaving
pub mod Tests
use agentica_server.Base.{
  ℕ, zero, suc, ◌+◌, Bool, true, false, ◌&&◌, ◌||◌, Option, none, some, List, [], ◌∷◌, ◌++◌, ltb,
  ◌==◌, if◌then◌else◌, length,
}

abbrev pub Text : Type 0
Text = List ℕ

-- What is left of a text after the given prefix.
unfoldable pub strip : Text → Text → Option Text
strip [] s = some s
strip (c ∷ p) [] = none
strip (c ∷ p) (d ∷ s) = let rest = strip p s in if c == d then rest else none

unfoldable pub first_of : Option Text → Option (Text × Text) → Option (Text × Text)
first_of (some r) _ = some ([], r)
first_of none later = later

unfoldable pub after_char : ℕ → Option (Text × Text) → Option (Text × Text)
after_char c none = none
after_char c (some (b, r)) = some (c ∷ b, r)

-- text.find: what stands before the first occurrence, and what after it.
unfoldable pub find : Text → Text → Option (Text × Text)
unfolding strip first_of after_char
find p [] = first_of (strip p []) none
find p (c ∷ s) = first_of (strip p (c ∷ s)) (after_char c (find p s))

-- What stands inside the tags, and what after them; or `ValueError`.
pub data Match : Type 0 where
  out_of_fuel unmatched : Match
  matched : Text → Text → Match

unfoldable pub prefix : Text → Match → Match
prefix t (matched inside rest) = matched (t ++ inside) rest
prefix t m = m

-- The start comes first, or both stand at one place and the start is the longer.
unfoldable pub opens : Text → Text → Text → Text → Bool
opens start end before_start before_end =
    ltb (length before_start) (length before_end)
    || (length before_start == length before_end && ltb (length end) (length start))

-- depth -= 1, where the depth is given less one
unfoldable pub close_tag : Text → ℕ → Text → Text → (ℕ → Text → Match) → Match
close_tag end zero before rest go_on = matched before rest
close_tag end (suc depth) before rest go_on = prefix (before ++ end) (go_on depth rest)

unfoldable pub next_tag :
    Text → Text → ℕ → Option (Text × Text) → Option (Text × Text) → (ℕ → Text → Match) → Match
unfolding opens close_tag prefix
next_tag start end depth next_start none go_on = unmatched
next_tag start end depth none (some (b, r)) go_on = close_tag end depth b r go_on
next_tag start end depth (some (b', r')) (some (b, r)) go_on =
    if opens start end b' b
    then prefix (b' ++ start) (go_on (suc depth) r')
    else close_tag end depth b r go_on

-- The loop, from a depth of one more than the given.
unfoldable pub find_matching_end : ℕ → Text → Text → ℕ → Text → Match
unfolding next_tag find
find_matching_end zero start end depth s = out_of_fuel
find_matching_end (suc n) start end depth s =
    next_tag start end depth (find start s) (find end s) (λ d r. find_matching_end n start end d r)

-- The next pair of tags: what stands before it, and the match.
unfoldable pub next_pair : Text → Text → Text → Option (Text × Match)
unfolding find find_matching_end
next_pair start end s = elim (find start s) [
  | none ↦ none
  | some (b, r) ↦ some (b, find_matching_end (suc (length r)) start end zero r)
]

unfoldable pub between_in : Option (Text × Match) → (Text → List Text) → List Text
between_in (some (b, matched inside rest)) go_on = inside ∷ go_on rest
between_in _ go_on = []

unfoldable pub text_between : ℕ → Text → Text → Text → List Text
unfolding next_pair between_in
text_between zero start end s = []
text_between (suc n) start end s =
    between_in (next_pair start end s) (λ r. text_between n start end r)

unfoldable pub not_between_in : Text → Option (Text × Match) → (Text → List Text) → List Text
not_between_in s (some (b, matched inside rest)) go_on = b ∷ go_on rest
not_between_in s _ go_on = s ∷ []

unfoldable pub text_not_between : ℕ → Text → Text → Text → List Text
unfolding next_pair not_between_in
text_not_between zero start end s = []
text_not_between (suc n) start end s =
    not_between_in s (next_pair start end s) (λ r. text_not_between n start end r)
