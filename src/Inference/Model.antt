-- ===== src/Inference/Model.antt =====
-- `class GenModel` of `src/com/gen_model.py` and `src/com/constraints.py`: the limits of an
-- invocation, its deltas and its cache key.
use agentica_server.Base.{
  ℕ, suc, ◌+◌, ◌-◌, Bool, Option, none, some, List, [], ◌∷◌, ◌++◌, leb, if◌then◌else◌,
}
use agentica_server.Inference.Deltas.{Text, Generated}

pub data Constraint : Type 0 where
  max_tokens_constraint : ℕ → Constraint
  stop_token_constraint : Text → Constraint

pub record ErrorHandling : Type 0 where
  pub max_retries : ℕ
  pub rate_limit_delay : ℕ
  pub rate_limit_exponential_base : ℕ
  pub rate_limit_jitter : Bool

pub record CacheKey : Type 0 where
  pub key : ℕ
  pub first_request_time : ℕ
  pub num_requests : ℕ

pub record GenModel (J : Type 0) : Type 0 where
  pub deltas : List (Generated J)
  pub inference_rounds_count : ℕ
  pub max_rounds : Option ℕ
  pub max_invocation_tokens : Option ℕ
  pub max_inference_tokens : Option ℕ
  pub max_completion_tokens : Option ℕ
  pub streaming : Bool
  pub cache_key : CacheKey
  pub error_handling : ErrorHandling

-- The smaller of two limits, where a missing one is no limit.
unfoldable pub smaller : Option ℕ → Option ℕ → Option ℕ
smaller none b = b
smaller (some a) none = some a
smaller (some a) (some b) = some (if leb a b then a else b)

-- max(mct - tokens, 0), where there is a limit
unfoldable pub spend : ℕ → Option ℕ → Option ℕ
spend tokens none = none
spend tokens (some mct) = some (mct - tokens)

-- a or b, for a number that may be missing
unfoldable pub truthy_or {ℓ} : {A : Type ℓ} → Option ℕ → (ℕ → A) → A → A
truthy_or (some (suc n)) f b = f (suc n)
truthy_or _ f b = b

module _ {J : Type 0} where
  unfoldable pub max_tokens : GenModel J → Option ℕ
  unfolding smaller
  max_tokens m = smaller m.max_inference_tokens m.max_completion_tokens

  unfoldable pub finish_invocation : GenModel J → GenModel J
  finish_invocation m = record m {
    max_completion_tokens = m.max_invocation_tokens;
    inference_rounds_count = 0;
  }

  unfoldable pub spend_tokens : ℕ → GenModel J → GenModel J
  unfolding spend
  spend_tokens tokens m = record m { max_completion_tokens = spend tokens m.max_completion_tokens }

  -- The append of `push_delta`, less what it logs.
  unfoldable pub push_delta : Generated J → GenModel J → GenModel J
  push_delta d m = record m { deltas = m.deltas ++ d ∷ [] }

  -- `fresh` and `now` are what `uuid4` and `time.time` return.
  unfoldable pub use_cache_key : (CacheKey → Bool) → ℕ → ℕ → GenModel J → ℕ × GenModel J
  use_cache_key condition fresh now m =
      let k =
        if condition m.cache_key
        then m.cache_key
        else record { key = fresh; first_request_time = now; num_requests = 0 } in
      (k.key, record m { cache_key = record k { num_requests = k.num_requests + 1 } })
