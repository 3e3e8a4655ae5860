-- ===== src/Tags/Weaving.antt =====
-- The pieces of a text that `src/agentic/monads/common.py` cuts out.
use agentica_server.Base.{
  ℕ, zero, suc, ◌<◌, ◌≡◌, refl, sym, ap, ◌∙◌, Bool, true, false, Option, none, some, List, [], ◌∷◌,
  ◌++◌, arith, append_assoc, ◌==◌, length, length-append, Bool-cases, inl, inr,
}
use agentica_server.Tags.{
  Text, strip, first_of, after_char, find, Match, out_of_fuel, unmatched, matched, prefix, opens,
  close_tag, next_tag, find_matching_end, next_pair, between_in, text_between, not_between_in,
  text_not_between,
}

-- A cut of a text at a tag.
abbrev pub Cut : Text → Text → Option (Text × Text) → Type 0
Cut p s none = Unit
Cut p s (some (b, r)) = s ≡ b ++ (p ++ r)

abbrev Strip : Text → Text → Option Text → Type 0
Strip p s none = Unit
Strip p s (some r) = s ≡ p ++ r

cons-Strip :
    (c d : ℕ) (p s : Text) (o : Option Text) → c ≡ d → Strip p s o → Strip (c ∷ p) (d ∷ s) o
cons-Strip c d p s none e h = tt
cons-Strip c d p s (some r) e h = ground (arith, e, h)

strip-Strip : (p s : Text) → Strip p s (strip p s)
unfolding strip
strip-Strip [] s = refl
strip-Strip (c ∷ p) [] = tt
strip-Strip (c ∷ p) (d ∷ s) = elim (Bool-cases (c == d)) [
  | inl e ↦ rw e (cons-Strip c d p s (strip p s) (ground arith) (strip-Strip p s))
  | inr e ↦ rw e tt
]

first_of-Cut :
    (p s : Text) (o : Option Text) (l : Option (Text × Text))
    → Strip p s o
    → Cut p s l
    → Cut p s (first_of o l)
unfolding first_of
first_of-Cut p s none l h g = g
first_of-Cut p s (some r) l h g = h

after_char-Cut :
    (c : ℕ) (p s : Text) (l : Option (Text × Text)) → Cut p s l → Cut p (c ∷ s) (after_char c l)
unfolding after_char
after_char-Cut c p s none g = tt
after_char-Cut c p s (some (b, r)) g = ap (λ (t : Text). c ∷ t) g

pub find-Cut : (p s : Text) → Cut p s (find p s)
unfolding find
find-Cut p [] = first_of-Cut p [] (strip p []) none (strip-Strip p []) tt
find-Cut p (c ∷ s) =
    first_of-Cut p (c ∷ s) (strip p (c ∷ s)) (after_char c (find p s)) (strip-Strip p (c ∷ s))
      (after_char-Cut c p s (find p s) (find-Cut p s))

-- A match cuts the text at the closing tag.
abbrev Matches : Text → Text → Match → Type 0
Matches end s (matched inside rest) = s ≡ inside ++ (end ++ rest)
Matches end s _ = Unit

prefix-Matches : (end t s : Text) (m : Match) → Matches end s m → Matches end (t ++ s) (prefix t m)
unfolding prefix
prefix-Matches end t s (matched i r) h =
    ap (λ (u : Text). t ++ u) h ∙ sym (append_assoc t i (end ++ r))
prefix-Matches end t s _ h = tt

cut_shorter : (p b r s : Text) → 0 < length p → s ≡ b ++ (p ++ r) → length r < length s
cut_shorter p b r s h e = omega (arith, ap length e, length-append b (p ++ r), length-append p r)

abbrev pub is_out : Match → Bool
is_out out_of_fuel = true
is_out _ = false

is_out-prefix : (t : Text) (m : Match) → is_out (prefix t m) ≡ is_out m
unfolding prefix
is_out-prefix t out_of_fuel = refl
is_out-prefix t unmatched = refl
is_out-prefix t (matched i r) = refl

-- The pieces between the tags and those not between them, put together again with the tags.
abbrev pub weave : Text → Text → List Text → List Text → Text
weave start end [] is = []
weave start end (o ∷ os) [] = o
weave start end (o ∷ os) (i ∷ is) = o ++ (start ++ (i ++ (end ++ weave start end os is)))

module _ (start end : Text) (some_start : 0 < length start) (some_end : 0 < length end) where
  -- What the rest of the loop is to give, and what the loop then gives.
  abbrev Good : Text → Match → Type 0
  Good s m = Matches end s m × (is_out m ≡ false)

  prefix-Good :
      (p b r s : Text) (m : Match) → s ≡ b ++ (p ++ r) → Good r m → Good s (prefix (b ++ p) m)
  prefix-Good p b r s m e (h, o) =
      let e' : s ≡ (b ++ p) ++ r = e ∙ sym (append_assoc b p r) in
      rw e' (prefix-Matches end (b ++ p) r m h, is_out-prefix (b ++ p) m ∙ o)

  abbrev GoesOn : Text → (ℕ → Text → Match) → Type 0
  GoesOn s k = (d : ℕ) (r : Text) → length r < length s → Good r (k d r)

  close_tag-Good :
      (d : ℕ) (b r s : Text) (k : ℕ → Text → Match)
      → s ≡ b ++ (end ++ r)
      → GoesOn s k
      → Good s (close_tag end d b r k)
  unfolding close_tag
  close_tag-Good zero b r s k e g = (e, refl)
  close_tag-Good (suc d) b r s k e g =
      prefix-Good end b r s (k d r) e (g d r (cut_shorter end b r s some_end e))

  next_tag-Good :
      (d : ℕ) (s : Text) (fs fe : Option (Text × Text)) (k : ℕ → Text → Match)
      → Cut start s fs
      → Cut end s fe
      → GoesOn s k
      → Good s (next_tag start end d fs fe k)
  unfolding next_tag
  next_tag-Good d s fs none k p q g = (tt, refl)
  next_tag-Good d s none (some (b, r)) k p q g = close_tag-Good d b r s k q g
  next_tag-Good d s (some (b', r')) (some (b, r)) k p q g =
      elim (Bool-cases (opens start end b' b)) [
        | inl o ↦ rw o (
            prefix-Good start b' r' s (k (suc d) r') p
              (g (suc d) r' (cut_shorter start b' r' s some_start p)))
        | inr o ↦ rw o (close_tag-Good d b r s k q g)
      ]

  match-Good : (n d : ℕ) (s : Text) → length s < n → Good s (find_matching_end n start end d s)
  unfolding find_matching_end
  match-Good zero d s h = absurd (omega arith)
  match-Good (suc n) d s h =
      next_tag-Good d s (find start s) (find end s) (λ d' r. find_matching_end n start end d' r)
        (find-Cut start s) (find-Cut end s) (λ d' r l. match-Good n d' r (omega arith))

  abbrev Pair : Text → Option (Text × Match) → Type 0
  Pair s none = Unit
  Pair s (some (b, m)) = (r : Text) × (s ≡ b ++ (start ++ r)) × Good r m

  Pair-at :
      (s : Text) (o : Option (Text × Text))
      → Cut start s o
      → Pair s (elim o [
        | none ↦ none
        | some (b, r) ↦ some (b, find_matching_end (suc (length r)) start end zero r)
      ])
  Pair-at s none h = tt
  Pair-at s (some (b, r)) h = (r, h, match-Good (suc (length r)) zero r (omega arith))

  next_pair-Pair : (s : Text) → Pair s (next_pair start end s)
  unfolding next_pair
  next_pair-Pair s = Pair-at s (find start s) (find-Cut start s)

  weave-Pair :
      (s : Text) (o : Option (Text × Match)) (g h : Text → List Text)
      → Pair s o
      → ((r : Text) → length r < length s → weave start end (g r) (h r) ≡ r)
      → weave start end (not_between_in s o g) (between_in o h) ≡ s
  unfolding not_between_in between_in
  weave-Pair s none g h p k = refl
  weave-Pair s (some (b, out_of_fuel)) g h p k = refl
  weave-Pair s (some (b, unmatched)) g h p k = refl
  weave-Pair s (some (b, matched i rest)) g h (r, e, (e', o)) k =
      let l : length r < length s = cut_shorter start b r s some_start e in
      let l' : length rest < length r = cut_shorter end i rest r some_end e' in
      let q : weave start end (g rest) (h rest) ≡ rest = k rest (omega (arith, l, l')) in
      rw q (sym (e ∙ ap (λ (t : Text). b ++ (start ++ t)) e'))

  weave_all :
      (n : ℕ) (s : Text)
      → length s < n
      → weave start end (text_not_between n start end s) (text_between n start end s) ≡ s
  unfolding text_not_between text_between
  weave_all zero s h = absurd (omega arith)
  weave_all (suc n) s h =
      weave-Pair s (next_pair start end s) (λ r. text_not_between n start end r)
        (λ r. text_between n start end r) (next_pair-Pair s) (λ r l. weave_all n r (omega arith))

  -- With tags that are not empty, and fuel for each character and one more: the pieces between the
  -- tags and those not between them, taken in turn with the tags, are the whole text, the unmatched
  -- rest included; and no search for an end runs out of fuel.
  pub weave_lem :
      (n : ℕ) (s : Text)
      → length s < n
      → (weave start end (text_not_between n start end s) (text_between n start end s) ≡ s)
        × ((d : ℕ) → is_out (find_matching_end n start end d s) ≡ false)
  weave_lem n s h = (weave_all n s h, λ d. (match-Good n d s h).1)
