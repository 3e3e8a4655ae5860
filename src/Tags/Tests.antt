-- ===== src/Tags/Tests.antt =====
-- The tag scanner of `src/agentic/monads/common.py` on small texts: tests, and the theorem at work.
use agentica_server.Base.{ℕ, ◌≡◌, refl, false, [], ◌∷◌, arith}
use agentica_server.Tags.{Text, find_matching_end, text_between, text_not_between}
use agentica_server.Tags.Weaving.{weave, is_out, weave_lem}

-- 1 2 opens, 1 3 closes; a pair within a pair, a second pair, and an opening without an end.
abbrev opening : Text
opening = 1 ∷ 2 ∷ []

abbrev closing : Text
closing = 1 ∷ 3 ∷ []

abbrev sample : Text
sample = 9 ∷ 1 ∷ 2 ∷ 1 ∷ 2 ∷ 8 ∷ 1 ∷ 3 ∷ 1 ∷ 3 ∷ 7 ∷ 1 ∷ 2 ∷ 1 ∷ 3 ∷ 1 ∷ 2 ∷ 6 ∷ []

between_test : text_between 20 opening closing sample ≡ (1 ∷ 2 ∷ 8 ∷ 1 ∷ 3 ∷ []) ∷ [] ∷ []
unfolding text_between
between_test = refl

not_between_test :
    text_not_between 20 opening closing sample ≡ (9 ∷ []) ∷ (7 ∷ []) ∷ (1 ∷ 2 ∷ 6 ∷ []) ∷ []
unfolding text_not_between
not_between_test = refl

weave_lem_example :
    (weave opening closing
        (text_not_between 20 opening closing sample)
        (text_between 20 opening closing sample)
      ≡ sample)
    × ((d : ℕ) → is_out (find_matching_end 20 opening closing d sample) ≡ false)
weave_lem_example = weave_lem opening closing (omega arith) (omega arith) 20 sample (omega arith)
