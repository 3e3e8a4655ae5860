-- ===== src/Inference/Kept.antt =====
-- What a round of inference of `src/com/actions_model.py` leaves as it was in the model's record.
use agentica_server.Base.{
  ℕ, zero, suc, ◌+◌, ◌≡◌, refl, ap, ◌∙◌, ◌⊎◌, inl, inr, Option, none, some, List, arith,
  Option-cases,
}
use agentica_server.Inference.Deltas.{Json, Generated}
use agentica_server.Inference.Model.{Constraint, GenModel, spend_tokens, truthy_or}
use agentica_server.Inference.Rounds.{
  ModelInference, Failure, Endpoint, Effect, Tried, response, retry, raised, process_constraints,
  check_end, over_limit, request, usage, on_failure, on_response, after_request, try_inference,
  settle, attempts, attempts_allowed, perform,
}

-- A part of the record that neither paying nor counting changes.
module _ {J X : Type 0} (j : Json J) (e : Endpoint J) (f : GenModel J → X)
    (paid : (t : ℕ) (m : GenModel J) → f (spend_tokens t m) ≡ f m)
    (counted : (n : ℕ) (m : GenModel J) → f (record m { inference_rounds_count = n }) ≡ f m) where
  kept_pay : (o : Option ℕ) (m : GenModel J) → f (truthy_or o (λ n. spend_tokens n m) m) ≡ f m
  unfolding truthy_or
  kept_pay none m = refl
  kept_pay (some zero) m = refl
  kept_pay (some (suc n)) m = paid (suc n) m

  kept_usage : (d : Generated J) (m : GenModel J) → f (usage j e d m) ≡ f m
  kept_usage d m = elim (Option-cases d.usage) [
    | inl h ↦ unfold usage in rw (h, usage) refl
    | inr (u, h) ↦ unfold usage in rw (h, usage) (kept_pay (j.completion_tokens u) m)
  ]

  kept_on_failure : (x : Failure) (m : GenModel J) → (on_failure j e x m).2 ≡ m
  unfolding on_failure
  kept_on_failure x m = ground arith

  kept_on_response : (d : Generated J) (m : GenModel J) → (on_response j e d m).2 ≡ m
  unfolding on_response
  kept_on_response d m = elim (Option-cases (check_end d.end)) [
    | inl h ↦ rw (h, on_response) refl
    | inr (x, h) ↦ rw (h, on_response) (kept_on_failure x m)
  ]

  kept_after_request :
      (a : Failure ⊎ Generated J) (m : GenModel J) → f (after_request j e a m).2 ≡ f m
  unfolding after_request
  kept_after_request (inl x) m = ap f (kept_on_failure x m)
  kept_after_request (inr d) m = ap f (kept_on_response d (usage j e d m)) ∙ kept_usage d m

  kept_settle :
      (t : List (Effect J) × Tried J × GenModel J)
      → (rest : List (Effect J) × (Failure ⊎ Generated J) × GenModel J) → f rest.2 ≡ f t.2
      → f (settle j e t rest).2 ≡ f t.2
  unfolding settle
  kept_settle (out, response d, m) rest h = counted (m.inference_rounds_count + 1) m
  kept_settle (out, retry, m) rest h = h
  kept_settle (out, raised x, m) rest h = refl

  kept_attempts :
      (cons : List Constraint) (n i : ℕ) (m : GenModel J) → f (attempts j e cons n i m).2 ≡ f m
  unfolding attempts
  kept_attempts cons zero i m = refl
  kept_attempts cons (suc n) i m =
      kept_settle (try_inference j e cons i m)
        (attempts j e cons n (suc i) (try_inference j e cons i m).2)
        (kept_attempts cons n (suc i) (try_inference j e cons i m).2)
      ∙ (unfold try_inference in kept_after_request (request j e m.streaming cons i).1 m)

  pub perform_keeps : (x : ModelInference) (m : GenModel J) → f (perform j e x m).2 ≡ f m
  unfolding perform
  perform_keeps x m = elim (Option-cases (over_limit m.max_rounds m.inference_rounds_count)) [
    | inl h ↦ rw (h, perform) (kept_attempts (process_constraints x m) (attempts_allowed x m) 0 m)
    | inr (n, h) ↦ rw (h, perform) refl
  ]
