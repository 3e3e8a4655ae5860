-- ===== src/Inference/Limits.antt =====
-- The limits of an invocation: tokens of `src/com/gen_model.py`, rounds of `src/com/actions_model.py`.
use agentica_server.Base.{
  ℕ, zero, suc, ◌+◌, ◌-◌, ◌≤◌, ◌<◌, ◌≡◌, refl, sym, ap, ◌∙◌, ◌⊎◌, inl, inr, Option, none, some,
  List, [], ◌∷◌, arith, leb, Option-cases, Bool-cases,
}
use agentica_server.Inference.Deltas.{Json, Generated}
use agentica_server.Inference.Model.{
  Constraint, GenModel, smaller, spend, max_tokens, finish_invocation, spend_tokens, truthy_or,
}
use agentica_server.Inference.Rounds.{
  ModelInference, Failure, Endpoint, Effect, Tried, response, retry, raised, max_rounds_error,
  process_constraints, check_end, over_limit, request, usage, on_failure, on_response,
  after_request, try_inference, settle, attempts, attempts_allowed, perform,
}

abbrev pub sum : List ℕ → ℕ
sum [] = 0
sum (n ∷ ns) = n + sum ns

spend_twice : (a b : ℕ) (o : Option ℕ) → spend b (spend a o) ≡ spend (a + b) o
unfolding spend
spend_twice a b none = refl
spend_twice a b (some n) = ap (λ (k : ℕ). some k) {x = n - a - b} {y = n - (a + b)} (omega arith)

spend_nothing : (o : Option ℕ) → spend 0 o ≡ o
unfolding spend
spend_nothing none = refl
spend_nothing (some n) = ap (λ (k : ℕ). some k) {x = n - 0} {y = n} (omega arith)

module _ {J : Type 0} where
  abbrev pub spend_all : List ℕ → GenModel J → GenModel J
  spend_all [] m = m
  spend_all (t ∷ ts) m = spend_all ts (spend_tokens t m)

  spend_all-limits :
      (ts : List ℕ) (m : GenModel J)
      → ((spend_all ts m).max_completion_tokens ≡ spend (sum ts) m.max_completion_tokens)
        × ((spend_all ts m).max_inference_tokens ≡ m.max_inference_tokens)
  unfolding spend_tokens
  spend_all-limits [] m = (sym (spend_nothing m.max_completion_tokens), refl)
  spend_all-limits (t ∷ ts) m =
      let (a, b) = spend_all-limits ts (spend_tokens t m) in
      (a ∙ spend_twice t (sum ts) m.max_completion_tokens, b)

  -- In an invocation that has spent the tokens `ts` so far, the limit for the next round is the
  -- smaller of the limit of one round and what is left of the limit of the invocation, which is
  -- never negative; a limit that is missing is no limit.
  pub max_tokens-spend_all :
      (ts : List ℕ) (m : GenModel J)
      → max_tokens (spend_all ts (finish_invocation m))
        ≡ smaller m.max_inference_tokens (spend (sum ts) m.max_invocation_tokens)
  unfolding max_tokens
  max_tokens-spend_all ts m =
      let (a, b) = spend_all-limits ts (finish_invocation m) in
      rw (a, b) (unfold finish_invocation in refl)

module _ {J : Type 0} (j : Json J) (e : Endpoint J) where
  -- What only `finish_invocation` and a finished round change.
  abbrev SameRounds : GenModel J → GenModel J → Type 0
  SameRounds m m' =
      (m'.inference_rounds_count ≡ m.inference_rounds_count)
      × (m'.max_rounds ≡ m.max_rounds)
      × (m'.deltas ≡ m.deltas)

  same_pay : (o : Option ℕ) (m : GenModel J) → SameRounds m (truthy_or o (λ n. spend_tokens n m) m)
  unfolding truthy_or spend_tokens
  same_pay none m = (refl, refl, refl)
  same_pay (some zero) m = (refl, refl, refl)
  same_pay (some (suc n)) m = (refl, refl, refl)

  same_usage : (d : Generated J) (m : GenModel J) → SameRounds m (usage j e d m)
  same_usage d m = elim (Option-cases d.usage) [
    | inl h ↦ unfold usage in rw (h, usage) (refl, refl, refl)
    | inr (u, h) ↦ unfold usage in rw (h, usage) (same_pay (j.completion_tokens u) m)
  ]

  same_on_failure : (f : Failure) (m : GenModel J) → (on_failure j e f m).2 ≡ m
  unfolding on_failure
  same_on_failure f m = ground arith

  same_on_response : (d : Generated J) (m : GenModel J) → (on_response j e d m).2 ≡ m
  unfolding on_response
  same_on_response d m = elim (Option-cases (check_end d.end)) [
    | inl h ↦ rw (h, on_response) refl
    | inr (f, h) ↦ rw (h, on_response) (same_on_failure f m)
  ]

  same_after_request :
      (a : Failure ⊎ Generated J) (m : GenModel J) → SameRounds m (after_request j e a m).2
  unfolding after_request
  same_after_request (inl f) m = rw (same_on_failure f m) (refl, refl, refl)
  same_after_request (inr d) m = rw (same_on_response d (usage j e d m)) (same_usage d m)

  same_try :
      (cons : List Constraint) (i : ℕ) (m : GenModel J)
      → SameRounds m (try_inference j e cons i m).2
  unfolding try_inference
  same_try cons i m = same_after_request (request j e m.streaming cons i).1 m

  abbrev pub rounds_of : Failure ⊎ Generated J → ℕ
  rounds_of (inl f) = 0
  rounds_of (inr d) = 1

  -- A result that counts as a round just where it is a response.
  abbrev Counted : GenModel J → List (Effect J) × (Failure ⊎ Generated J) × GenModel J → Type 0
  Counted m r =
      (r.2.inference_rounds_count ≡ m.inference_rounds_count + rounds_of r.1)
      × (r.2.max_rounds ≡ m.max_rounds)
      × (r.2.deltas ≡ m.deltas)

  settle-Counted :
      (t : List (Effect J) × Tried J × GenModel J) (m : GenModel J)
      → (rest : List (Effect J) × (Failure ⊎ Generated J) × GenModel J) → SameRounds m t.2
      → Counted t.2 rest
      → Counted m (settle j e t rest)
  unfolding settle
  settle-Counted (out, response d, m') m rest (a, b, z) (c, d', w) = (omega (arith, a), b, z)
  settle-Counted (out, retry, m') m rest (a, b, z) (c, d', w) = (omega (arith, a, c), d' ∙ b, w ∙ z)
  settle-Counted (out, raised f, m') m rest (a, b, z) (c, d', w) = (omega (arith, a), b, z)

  attempts-Counted :
      (cons : List Constraint) (n i : ℕ) (m : GenModel J) → Counted m (attempts j e cons n i m)
  unfolding attempts
  attempts-Counted cons zero i m = (omega arith, refl, refl)
  attempts-Counted cons (suc n) i m =
      settle-Counted (try_inference j e cons i m) m
        (attempts j e cons n (suc i) (try_inference j e cons i m).2) (same_try cons i m)
        (attempts-Counted cons n (suc i) (try_inference j e cons i m).2)

  perform-Counted : (x : ModelInference) (m : GenModel J) → Counted m (perform j e x m)
  unfolding perform
  perform-Counted x m = elim (Option-cases (over_limit m.max_rounds m.inference_rounds_count)) [
    | inl h ↦
        rw (h, perform) (attempts-Counted (process_constraints x m) (attempts_allowed x m) 0 m)
    | inr (n, h) ↦ rw (h, perform) (omega arith, refl, refl)
  ]

  pub deltas-perform : (x : ModelInference) (m : GenModel J) → (perform j e x m).2.deltas ≡ m.deltas
  deltas-perform x m = (perform-Counted x m).2

  -- The limit of rounds, and the count within it.
  abbrev pub IsWithin : ℕ → GenModel J → Type 0
  IsWithin n m = (m.max_rounds ≡ some (suc n)) × (m.inference_rounds_count ≤ suc n)

  over_limit_lem :
      (n : ℕ) (m : GenModel J)
      → IsWithin n m
      → (m.inference_rounds_count ≡ suc n
          → over_limit m.max_rounds m.inference_rounds_count ≡ some (suc n))
        × (m.inference_rounds_count < suc n
            → over_limit m.max_rounds m.inference_rounds_count ≡ none)
  unfolding over_limit
  over_limit_lem n m (a, b) = rw a ((λ h. ground arith), (λ h. ground arith))

  perform_at_limit :
      (n : ℕ) (x : ModelInference) (m : GenModel J)
      → over_limit m.max_rounds m.inference_rounds_count ≡ some (suc n)
      → perform j e x m ≡ ([], inl (max_rounds_error (suc n)), m)
  unfolding perform
  perform_at_limit n x m h = rw (h, perform)

  rounds_of_le : (r : Failure ⊎ Generated J) → rounds_of r ≤ 1
  rounds_of_le (inl f) = omega arith
  rounds_of_le (inr d) = omega arith

  count-perform :
      (n : ℕ) (x : ModelInference) (m : GenModel J)
      → IsWithin n m
      → (perform j e x m).2.inference_rounds_count ≤ suc n
  count-perform n x m h = elim (Bool-cases (leb (suc n) m.inference_rounds_count)) [
    | inl g ↦
        let q : m.inference_rounds_count ≡ suc n = ground (arith, h.1) in
        rw (perform_at_limit n x m ((over_limit_lem n m h).0 q)) (omega (arith, q))
    | inr g ↦
        let q : m.inference_rounds_count < suc n = ground arith in
        omega (arith, (perform-Counted x m).0, rounds_of_le (perform j e x m).1, q)
  ]

  -- With a limit of rounds that is not zero: a round beyond it is refused before anything is sent
  -- and changes nothing; any other round, however it ends, stays within the limit, and counts just
  -- where it returns a response.
  pub perform-IsWithin :
      (n : ℕ) (x : ModelInference) (m : GenModel J)
      → IsWithin n m
      → IsWithin n (perform j e x m).2
        × ((perform j e x m).2.inference_rounds_count
            ≡ m.inference_rounds_count + rounds_of (perform j e x m).1)
        × (m.inference_rounds_count ≡ suc n
            → perform j e x m ≡ ([], inl (max_rounds_error (suc n)), m))
  perform-IsWithin n x m h =
      let (a, b, z) = perform-Counted x m in
      let (full, free) = over_limit_lem n m h in
      ((b ∙ h.0, count-perform n x m h), a, λ q. perform_at_limit n x m (full q))
