-- ===== src/Inference/Retries.antt =====
-- The retries of `ModelInference.perform` of `src/com/actions_model.py`.
use agentica_server.Base.{
  ℕ, zero, suc, ◌+◌, ◌-◌, ◌≤◌, ◌<◌, ◌≡◌, refl, ap, ◌∙◌, ◌⊎◌, inl, inr, Bool, true, false, none,
  List, [], ◌∷◌, ◌++◌, map, arith,
}
use agentica_server.Inference.Deltas.{Json, Generated}
use agentica_server.Inference.Model.{Constraint, GenModel}
use agentica_server.Inference.Rounds.{
  ModelInference, Failure, max_retries_reached, Endpoint, Effect, stream_chunk, log_usage, log_chat,
  pause, send_gen_err, Tried, response, retry, raised, process_constraints, check_end, over_limit,
  infer_streaming, request, usage, is_transient, on_failure, on_response, after_request,
  try_inference, settle, attempts, attempts_allowed, perform,
}

module _ {J : Type 0} where
  abbrev pub errors_sent : List (Effect J) → List Failure
  errors_sent [] = []
  errors_sent (send_gen_err f ∷ out) = f ∷ errors_sent out
  errors_sent (_ ∷ out) = errors_sent out

  abbrev pub pauses : List (Effect J) → ℕ
  pauses [] = 0
  pauses (pause d b r ∷ out) = suc (pauses out)
  pauses (_ ∷ out) = pauses out

  errors_sent-append :
      (a b : List (Effect J)) → errors_sent (a ++ b) ≡ errors_sent a ++ errors_sent b
  errors_sent-append [] b = refl
  errors_sent-append (send_gen_err f ∷ a) b =
      ap (λ (fs : List Failure). f ∷ fs) (errors_sent-append a b)
  errors_sent-append (stream_chunk d ∷ a) b = errors_sent-append a b
  errors_sent-append (log_usage u ∷ a) b = errors_sent-append a b
  errors_sent-append (log_chat d ∷ a) b = errors_sent-append a b
  errors_sent-append (pause d c r ∷ a) b = errors_sent-append a b

  pauses-append : (a b : List (Effect J)) → pauses (a ++ b) ≡ pauses a + pauses b
  pauses-append [] b = omega arith
  pauses-append (send_gen_err f ∷ a) b = pauses-append a b
  pauses-append (stream_chunk d ∷ a) b = pauses-append a b
  pauses-append (log_usage u ∷ a) b = pauses-append a b
  pauses-append (log_chat d ∷ a) b = pauses-append a b
  pauses-append (pause d c r ∷ a) b = omega (arith, pauses-append a b)

  errors_sent-chunks : (ds : List (Generated J)) → errors_sent (map stream_chunk ds) ≡ []
  errors_sent-chunks [] = refl
  errors_sent-chunks (d ∷ ds) = errors_sent-chunks ds

  pauses-chunks : (ds : List (Generated J)) → pauses (map stream_chunk ds) ≡ 0
  pauses-chunks [] = refl
  pauses-chunks (d ∷ ds) = pauses-chunks ds

module _ {J : Type 0} (j : Json J) (e : Endpoint J) where
  -- A request by itself only logs chunks.
  quiet_request :
      (streaming : Bool) (cons : List Constraint) (i : ℕ)
      → (errors_sent (request j e streaming cons i).0 ≡ [])
        × (pauses (request j e streaming cons i).0 ≡ 0)
  unfolding request infer_streaming
  quiet_request true cons i = (
    errors_sent-chunks (e.invoke_stream cons i).deltas,
    pauses-chunks (e.invoke_stream cons i).deltas,
  )
  quiet_request false cons i = (refl, refl)

  -- The i-th request fails with an error that is retried.
  abbrev pub IsTransientAt : Bool → List Constraint → ℕ → Type 0
  IsTransientAt streaming cons i =
      (f : Failure) × ((request j e streaming cons i).1 ≡ inl f) × (is_transient j e f ≡ true)

  -- An attempt that is to be retried: one pause, nothing sent, no change.
  abbrev IsRetry : List (Effect J) × Tried J × GenModel J → GenModel J → Type 0
  IsRetry r m = (errors_sent r.0 ≡ []) × (pauses r.0 ≡ 1) × (r.1 ≡ retry) × (r.2 ≡ m)

  on_failure_transient :
      (f : Failure) (m : GenModel J) → is_transient j e f ≡ true → IsRetry (on_failure j e f m) m
  unfolding on_failure
  on_failure_transient f m t = rw t (refl, refl, refl, refl)

  try_transient :
      (cons : List Constraint) (i : ℕ) (m : GenModel J)
      → IsTransientAt m.streaming cons i
      → IsRetry (try_inference j e cons i m) m
  unfolding try_inference after_request
  try_transient cons i m (f, ef, t) =
      let (q0, q1) = quiet_request m.streaming cons i in
      let (p0, p1, p2, p3) = on_failure_transient f m t in
      rw ef (
        errors_sent-append (request j e m.streaming cons i).0 (on_failure j e f m).0
            ∙ rw (q0, p0) refl,
        omega (
          arith,
          pauses-append (request j e m.streaming cons i).0 (on_failure j e f m).0,
          q1,
          p1,
        ),
        p2,
        p3,
      )

  -- What the loop does after k attempts that were retried.
  abbrev Skips :
      ℕ
      → List (Effect J) × (Failure ⊎ Generated J) × GenModel J
      → List (Effect J) × (Failure ⊎ Generated J) × GenModel J
      → Type 0
  Skips k r rest =
      (errors_sent r.0 ≡ errors_sent rest.0)
      × (pauses r.0 ≡ k + pauses rest.0)
      × (r.1 ≡ rest.1)
      × (r.2 ≡ rest.2)

  settle_retry :
      (t : List (Effect J) × Tried J × GenModel J) (m : GenModel J)
      → (rest : List (Effect J) × (Failure ⊎ Generated J) × GenModel J) → IsRetry t m
      → Skips 1 (settle j e t rest) rest
  unfolding settle
  settle_retry (out, retry, m1) m rest (a, b, c, d) = (
    errors_sent-append out rest.0 ∙ ap (λ (fs : List Failure). fs ++ errors_sent rest.0) a,
    omega (arith, pauses-append out rest.0, b),
    refl,
    refl,
  )
  settle_retry (out, response g, m1) m rest (a, b, c, d) = absurd (cc)
  settle_retry (out, raised f, m1) m rest (a, b, c, d) = absurd (cc)

  attempts-retry :
      (cons : List Constraint) (n i : ℕ) (m : GenModel J)
      → (try_inference j e cons i m).2 ≡ m
      → attempts j e cons (suc n) i m
        ≡ settle j e (try_inference j e cons i m) (attempts j e cons n (suc i) m)
  unfolding attempts
  attempts-retry cons n i m h =
      ap
        (λ (m' : GenModel J).
          settle j e (try_inference j e cons i m) (attempts j e cons n (suc i) m'))
        h

  -- Of `total` attempts from the i-th, the first k are retried and the loop goes on at `next`.
  skip_transient :
      (cons : List Constraint) (k n i total next : ℕ) (m : GenModel J)
      → total ≡ k + n
      → next ≡ k + i
      → ((l : ℕ) → i ≤ l → l < next → IsTransientAt m.streaming cons l)
      → Skips k (attempts j e cons total i m) (attempts j e cons n next m)
  skip_transient cons zero n i total next m p q h =
      let p' : total ≡ n = omega arith in
      let q' : next ≡ i = omega arith in rw (p', q') (refl, omega arith, refl, refl)
  skip_transient cons (suc k) n i zero next m p q h = absurd (omega arith)
  skip_transient cons (suc k) n i (suc total) next m p q h =
      let t : IsRetry (try_inference j e cons i m) m =
        try_transient cons i m (h i (omega arith) (omega arith)) in
      let (a, b, c, d) =
        settle_retry (try_inference j e cons i m) m (attempts j e cons total (suc i) m) t in
      let (a', b', c', d') =
        skip_transient cons k n (suc i) total next m (omega arith) (omega arith)
          (λ l u v. h l (omega arith) v) in
      rw (attempts-retry cons total i m t.3) (a ∙ a', omega (arith, b, b'), c ∙ c', d ∙ d')

  attempts-perform :
      (x : ModelInference) (m : GenModel J)
      → over_limit m.max_rounds m.inference_rounds_count ≡ none
      → perform j e x m ≡ attempts j e (process_constraints x m) (attempts_allowed x m) 0 m
  unfolding perform
  attempts-perform x m h = rw (h, perform)

module _ {J : Type 0} (j : Json J) (e : Endpoint J) (x : ModelInference) (m : GenModel J) where
  -- Below the limit of rounds, when every attempt fails with a transient error, the round raises
  -- that the retries are used up. Nothing but pauses has happened, one after each attempt, the last
  -- included; no error is reported to the client, and nothing is spent.
  pub perform_gives_up :
      over_limit m.max_rounds m.inference_rounds_count ≡ none
      → ((l : ℕ)
          → l < attempts_allowed x m
          → IsTransientAt j e m.streaming (process_constraints x m) l)
      → ((perform j e x m).1 ≡ inl max_retries_reached)
        × ((perform j e x m).2 ≡ m)
        × (errors_sent (perform j e x m).0 ≡ [])
        × (pauses (perform j e x m).0 ≡ attempts_allowed x m)
  perform_gives_up below h =
      let (a, b, c, d) =
        skip_transient j e (process_constraints x m) (attempts_allowed x m) 0 0
          (attempts_allowed x m) (attempts_allowed x m) m (omega arith) (omega arith)
          (λ l u v. h l v) in
      rw (attempts-perform j e x m below) (unfold attempts in (c, d, a, omega (arith, b)))

  last_attempt :
      (k : ℕ)
      → k < attempts_allowed x m
      → over_limit m.max_rounds m.inference_rounds_count ≡ none
      → ((l : ℕ) → l < k → IsTransientAt j e m.streaming (process_constraints x m) l)
      → Skips j e k (perform j e x m) (
          settle j e (try_inference j e (process_constraints x m) k m) (
            attempts j e
              (process_constraints x m)
              (attempts_allowed x m - suc k)
              (suc k)
              (try_inference j e (process_constraints x m) k m).2))
  last_attempt k lt below h = rw (attempts-perform j e x m below) (
      unfold attempts in
      (skip_transient j e (process_constraints x m) k (suc (attempts_allowed x m - suc k)) 0
        (attempts_allowed x m) k m (omega arith) (omega arith) (λ l u v. h l v)))

  try_response :
      (cons : List Constraint) (k : ℕ) (d : Generated J)
      → (request j e m.streaming cons k).1 ≡ inr d
      → check_end d.end ≡ none
      → ((try_inference j e cons k m).1 ≡ response d)
        × ((try_inference j e cons k m).2 ≡ usage j e d m)
  unfolding try_inference after_request on_response
  try_response cons k d ed ec = rw ed (rw (ec, on_response) (refl, refl))

  settle_response :
      (t : List (Effect J) × Tried J × GenModel J) (d : Generated J) (m' : GenModel J)
      → (rest : List (Effect J) × (Failure ⊎ Generated J) × GenModel J) → t.1 ≡ response d
      → t.2 ≡ m'
      → ((settle j e t rest).1 ≡ inr d)
        × ((settle j e t rest).2
            ≡ record m' { inference_rounds_count = m'.inference_rounds_count + 1 })
  unfolding settle
  settle_response t d m' rest a b = rw (a, b) (refl, refl)

  -- Below the limit of rounds, when the first k attempts fail with transient errors and the next
  -- one, still allowed, brings a delta that was not cut off, the round returns that delta, pays for
  -- it alone, and counts as one round.
  pub perform_recovers :
      (k : ℕ) (d : Generated J)
      → k < attempts_allowed x m
      → over_limit m.max_rounds m.inference_rounds_count ≡ none
      → ((l : ℕ) → l < k → IsTransientAt j e m.streaming (process_constraints x m) l)
      → (request j e m.streaming (process_constraints x m) k).1 ≡ inr d
      → check_end d.end ≡ none
      → ((perform j e x m).1 ≡ inr d)
        × ((perform j e x m).2 ≡ record (usage j e d m) {
          inference_rounds_count = (usage j e d m).inference_rounds_count + 1;
        })
  perform_recovers k d lt below h ed ec =
      let (a, b, c, f) = last_attempt k lt below h in
      let (p, q) = try_response (process_constraints x m) k d ed ec in
      let (u, v) =
        settle_response (try_inference j e (process_constraints x m) k m) d (usage j e d m)
          (attempts j e (process_constraints x m) (attempts_allowed x m - suc k) (suc k)
            (try_inference j e (process_constraints x m) k m).2)
          p q in
      (c ∙ u, f ∙ v)
