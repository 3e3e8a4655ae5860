-- ===== src/Inference/Rounds.antt =====
-- `class ModelInference` of `src/com/actions_model.py`: one round of inference with its retries. The
-- endpoint with its converter is an argument: what the i-th request of the round answers.
use agentica_server.Base.{
  ℕ, zero, suc, ◌+◌, ◌⊎◌, inl, inr, Bool, true, Option, none, some, List, [], ◌∷◌, ◌++◌, map, leb,
  if◌then◌else◌,
}
use agentica_server.Inference.Deltas.{
  Text, End, max_tokens_reached, stop_token_reached, Json, Generated, glue_stream,
}
use agentica_server.Inference.Errors.{
  InferenceError, rate_limit, api_connection, HttpError, Converter, generation_error_from_http,
}
use agentica_server.Inference.Model.{
  Constraint, max_tokens_constraint, stop_token_constraint, GenModel, max_tokens, spend_tokens,
  truthy_or,
}

pub record ModelInference : Type 0 where
  pub stop_tokens : List Text
  pub max_tokens : Option ℕ
  pub max_retries : Option ℕ

-- What the rounds raise.
pub data Failure : Type 0 where
  inference_error : InferenceError → Failure
  max_tokens_error : Option ℕ → Failure
  content_filtering : Failure
  empty_stream : Failure
  max_rounds_error : ℕ → Failure
  max_retries_reached : Failure

-- A stream's deltas, and the error that breaks it off, if any.
pub record Stream (J : Type 0) : Type 0 where
  pub deltas : List (Generated J)
  pub error : Option HttpError

-- `invoke` and `invoke_stream` of the endpoint by the number of the request; and which errors the
-- package `agentica_internal` derives from `RateLimitError` or `APIConnectionError`, besides these
-- two, and which from `GenerationError`.
pub record Endpoint (J : Type 0) : Type 0 where
  pub converter : Converter
  pub invoke : List Constraint → ℕ → HttpError ⊎ Generated J
  pub invoke_stream : List Constraint → ℕ → Stream J
  pub is_derived : Failure → Bool
  pub is_generation_error : Failure → Bool
  pub has_invocation : Bool

-- In order: a chunk logged, the usage and the chat event of a response logged, the pause with what its length is the
-- product of, and `send_gen_err`.
pub data Effect (J : Type 0) : Type 0 where
  stream_chunk : Generated J → Effect J
  log_usage : J → Effect J
  log_chat : Generated J → Effect J
  pause : ℕ → ℕ → Bool → Effect J
  send_gen_err : Failure → Effect J

-- What `try_inference` does: it returns a response or `None`, or it raises.
pub data Tried (J : Type 0) : Type 0 where
  response : Generated J → Tried J
  retry : Tried J
  raised : Failure → Tried J

-- What a response that has arrived still raises.
unfoldable pub check_end : End → Option Failure
check_end (max_tokens_reached n) = some (max_tokens_error n)
check_end (stop_token_reached token true) = some content_filtering
check_end _ = none

-- if max_rounds := ctx.gen.max_rounds, and the comparison
unfoldable pub over_limit : Option ℕ → ℕ → Option ℕ
over_limit (some (suc n)) count = if leb (suc n) count then some (suc n) else none
over_limit _ count = none

module _ {J : Type 0} where
  unfoldable pub process_constraints : ModelInference → GenModel J → List Constraint
  unfolding max_tokens truthy_or
  process_constraints x m =
      map stop_token_constraint x.stop_tokens
      ++ truthy_or x.max_tokens (λ n. max_tokens_constraint n ∷ [])
          (elim (max_tokens m) [ none ↦ [] | some n ↦ max_tokens_constraint n ∷ [] ])

  -- self.max_retries or ctx.gen.error_handling.max_retries
  unfoldable pub attempts_allowed : ModelInference → GenModel J → ℕ
  unfolding truthy_or
  attempts_allowed x m = truthy_or x.max_retries (λ n. n) m.error_handling.max_retries

module _ {J : Type 0} (j : Json J) (e : Endpoint J) where
  unfoldable pub infer : List Constraint → ℕ → Failure ⊎ Generated J
  unfolding generation_error_from_http
  infer cons i = elim (e.invoke cons i) [
    | inl err ↦ inl (inference_error (generation_error_from_http e.converter err))
    | inr d ↦ inr d
  ]

  -- The end of a stream: the error that broke it off, or the glued delta.
  unfoldable pub end_stream : Option HttpError → Option (Generated J) → Failure ⊎ Generated J
  unfolding generation_error_from_http
  end_stream (some err) g = inl (inference_error (generation_error_from_http e.converter err))
  end_stream none none = inl empty_stream
  end_stream none (some g) = inr g

  unfoldable pub infer_streaming : List Constraint → ℕ → List (Effect J) × (Failure ⊎ Generated J)
  unfolding end_stream glue_stream
  infer_streaming cons i =
      let s = e.invoke_stream cons i in
      (map stream_chunk s.deltas, end_stream s.error (glue_stream j s.deltas))

  unfoldable pub request : Bool → List Constraint → ℕ → List (Effect J) × (Failure ⊎ Generated J)
  unfolding infer infer_streaming
  request streaming cons i = if streaming then infer_streaming cons i else ([], infer cons i)

  -- if completion_tokens := gen_usage.completion_tokens: ctx.gen.spend_tokens(completion_tokens)
  unfoldable pub usage : Generated J → GenModel J → GenModel J
  unfolding spend_tokens truthy_or
  usage d m = elim d.usage [
    | none ↦ m
    | some u ↦ truthy_or (j.completion_tokens u) (λ n. spend_tokens n m) m
  ]

  unfoldable pub is_transient : Failure → Bool
  is_transient (inference_error rate_limit) = true
  is_transient (inference_error api_connection) = true
  is_transient f = e.is_derived f

  -- The `except` clauses. The delay is computed from the configured one each time.
  unfoldable pub on_failure : Failure → GenModel J → List (Effect J) × Tried J × GenModel J
  unfolding is_transient
  on_failure f m =
      if is_transient f
      then (
        pause m.error_handling.rate_limit_delay m.error_handling.rate_limit_exponential_base
              m.error_handling.rate_limit_jitter
            ∷ [],
        retry,
        m,
      )
      else if e.is_generation_error f
      then (send_gen_err f ∷ [], raised f, m)
      else ([], raised f, m)

  -- What the invocation is told of a response.
  unfoldable pub log_response : Generated J → List (Effect J)
  log_response d =
      if e.has_invocation
      then elim d.usage [ none ↦ log_chat d ∷ [] | some u ↦ log_usage u ∷ log_chat d ∷ [] ]
      else []

  -- After `response = await _response`, for a model that has paid for the response.
  unfoldable pub on_response : Generated J → GenModel J → List (Effect J) × Tried J × GenModel J
  unfolding check_end on_failure log_response
  on_response d m = elim (check_end d.end) [
    | none ↦ (log_response d, response d, m)
    | some f ↦ let (out, t, m') = on_failure f m in (log_response d ++ out, t, m')
  ]

  unfoldable pub after_request :
      Failure ⊎ Generated J → GenModel J → List (Effect J) × Tried J × GenModel J
  unfolding on_failure on_response usage
  after_request (inl f) m = on_failure f m
  after_request (inr d) m = on_response d (usage d m)

  unfoldable pub try_inference :
      List Constraint → ℕ → GenModel J → List (Effect J) × Tried J × GenModel J
  unfolding request after_request
  try_inference cons i m =
      let (chunks, answer) = request m.streaming cons i in
      let (out, t, m') = after_request answer m in (chunks ++ out, t, m')

  -- One turn of the loop, and the turns after it.
  unfoldable pub settle :
      List (Effect J) × Tried J × GenModel J
      → List (Effect J) × (Failure ⊎ Generated J) × GenModel J
      → List (Effect J) × (Failure ⊎ Generated J) × GenModel J
  settle (out, response d, m) rest =
      (out, inr d, record m { inference_rounds_count = m.inference_rounds_count + 1 })
  settle (out, retry, m) rest = (out ++ rest.0, rest.1, rest.2)
  settle (out, raised f, m) rest = (out, inl f, m)

  -- for _ in range(n), from the i-th request on
  unfoldable pub attempts :
      List Constraint → ℕ → ℕ → GenModel J → List (Effect J) × (Failure ⊎ Generated J) × GenModel J
  unfolding try_inference settle
  attempts cons zero i m = ([], inl max_retries_reached, m)
  attempts cons (suc n) i m =
      settle (try_inference cons i m) (attempts cons n (suc i) (try_inference cons i m).2)

  unfoldable pub perform :
      ModelInference → GenModel J → List (Effect J) × (Failure ⊎ Generated J) × GenModel J
  unfolding process_constraints attempts attempts_allowed over_limit
  perform x m = elim (over_limit m.max_rounds m.inference_rounds_count) [
    | some n ↦ ([], inl (max_rounds_error n), m)
    | none ↦ attempts (process_constraints x m) (attempts_allowed x m) 0 m
  ]
