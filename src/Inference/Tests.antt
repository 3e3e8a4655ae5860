-- ===== src/Inference/Tests.antt =====
-- Rounds of inference of `src/com/actions_model.py` on small inputs: tests, and the theorems at work.
use agentica_server.Base.{
  ℕ, zero, suc, ◌+◌, ◌<◌, ◌≡◌, refl, inl, inr, true, false, Option, none, some, List, [], ◌∷◌, map,
  arith,
}
use agentica_server.Inference.Deltas.{
  Text, agent, End, eos, max_tokens_reached, Json, Generated, glue_stream,
}
use agentica_server.Inference.Errors.{
  status, InferenceError, Converter, default_codes, generation_error_from_http,
}
use agentica_server.Inference.Model.{GenModel, smaller, spend, max_tokens, finish_invocation}
use agentica_server.Inference.Rounds.{
  ModelInference, inference_error, max_retries_reached, max_rounds_error, Endpoint, request, usage,
  process_constraints, perform, over_limit, check_end, attempts_allowed,
}
use agentica_server.Inference.Streams.{text_of, texts, last_end, first_refusal, glue_stream_lem}
use agentica_server.Inference.Limits.{
  sum, spend_all, max_tokens-spend_all, rounds_of, IsWithin, perform-IsWithin,
}
use agentica_server.Inference.Retries.{
  errors_sent, pauses, IsTransientAt, perform_gives_up, perform_recovers,
}

-- Usages are numbers of completion tokens, 0 standing for the empty dict.
abbrev numbers : Json ℕ
numbers = record {
  is_empty = λ u. elim u [ zero ↦ true | suc n ↦ false ];
  json_merge = λ a b. a + b;
  completion_tokens = λ u. some u;
}

abbrev piece : Option Text → End → Generated ℕ
piece t e = record {
  id = 1;
  name = agent;
  content = t;
  usage = some 3;
  end = e;
  reasoning_content = none;
  annotations = none;
  audio = none;
  refusal = none;
}

abbrev first : Generated ℕ
first = piece none eos

abbrev others : List (Generated ℕ)
others = piece (some (7 ∷ [])) (max_tokens_reached none) ∷ piece (some (8 ∷ [])) eos ∷ []

glue_stream_lem_example :
    (g : Generated ℕ) × (glue_stream numbers (first ∷ others) ≡ some g)
    × ((g.id ≡ 1) × (g.name ≡ agent))
    × (text_of g.content ≡ texts (map (λ x. x.content) (first ∷ others)))
    × (text_of g.reasoning_content ≡ texts (map (λ x. x.reasoning_content) (first ∷ others)))
    × (g.end ≡ last_end eos (map (λ x. x.end) others))
    × (g.refusal ≡ first_refusal none (map (λ x. x.refusal) others))
glue_stream_lem_example = glue_stream_lem numbers first others

last_end_test : last_end eos (map (λ (x : Generated ℕ). x.end) others) ≡ max_tokens_reached none
last_end_test = refl

abbrev budget : GenModel ℕ
budget = record {
  deltas = [];
  inference_rounds_count = 0;
  max_rounds = some 2;
  max_invocation_tokens = some 10;
  max_inference_tokens = some 6;
  max_completion_tokens = some 10;
  streaming = false;
  cache_key = record { key = 0; first_request_time = 0; num_requests = 0 };
  error_handling = record {
    max_retries = 3;
    rate_limit_delay = 1;
    rate_limit_exponential_base = 2;
    rate_limit_jitter = true;
  };
}

max_tokens-spend_all_example :
    max_tokens (spend_all (3 ∷ 4 ∷ []) (finish_invocation budget))
    ≡ smaller (some 6) (spend (sum (3 ∷ 4 ∷ [])) (some 10))
max_tokens-spend_all_example = max_tokens-spend_all (3 ∷ 4 ∷ []) budget

left_test : smaller (some 6) (spend 7 (some 10)) ≡ some 3
unfolding smaller spend
left_test = refl

-- Two requests are refused with the status 429, the third is answered.
abbrev flaky : Endpoint ℕ
flaky = record {
  converter = default_codes;
  invoke = λ cons i. elim i [
    | zero ↦ inl (status 429)
    | suc k ↦ elim k [ zero ↦ inl (status 429) | suc l ↦ inr first ]
  ];
  invoke_stream = λ cons i. record { deltas = []; error = none };
  is_derived = λ f. false;
  is_generation_error = λ f. true;
  has_invocation = true;
}

abbrev limited : Endpoint ℕ
limited = record flaky { invoke = λ cons i. inl (status 429) }

abbrev plain : ModelInference
plain = record { stop_tokens = []; max_tokens = none; max_retries = none }

flaky_transient :
    (l : ℕ) → l < 2 → IsTransientAt numbers flaky false (process_constraints plain budget) l
unfolding request agentica_server.Inference.Rounds.is_transient
flaky_transient zero h = (inference_error InferenceError.rate_limit, refl, refl)
flaky_transient (suc zero) h = (inference_error InferenceError.rate_limit, refl, refl)
flaky_transient (suc (suc l)) h = absurd (omega arith)

limited_transient :
    (l : ℕ) → l < 3 → IsTransientAt numbers limited false (process_constraints plain budget) l
unfolding request agentica_server.Inference.Rounds.is_transient
limited_transient l h = (inference_error InferenceError.rate_limit, refl, refl)

perform_gives_up_example :
    ((perform numbers limited plain budget).1 ≡ inl max_retries_reached)
    × ((perform numbers limited plain budget).2 ≡ budget)
    × (errors_sent (perform numbers limited plain budget).0 ≡ [])
    × (pauses (perform numbers limited plain budget).0 ≡ 3)
unfolding attempts_allowed
perform_gives_up_example =
    perform_gives_up numbers limited plain budget (unfold over_limit in refl)
      (unfold attempts_allowed in limited_transient)

perform_recovers_example :
    ((perform numbers flaky plain budget).1 ≡ inr first)
    × ((perform numbers flaky plain budget).2 ≡ record (usage numbers flaky first budget) {
      inference_rounds_count = (usage numbers flaky first budget).inference_rounds_count + 1;
    })
perform_recovers_example =
    perform_recovers numbers flaky plain budget 2 first (unfold attempts_allowed in omega arith)
      (unfold over_limit in refl) flaky_transient (unfold request in refl)
      (unfold check_end in refl)

-- The response cost three tokens.
paid_test : (perform numbers flaky plain budget).2.max_completion_tokens ≡ some 7
unfolding perform
paid_test = refl

perform-IsWithin_example :
    IsWithin numbers flaky 1 (perform numbers flaky plain budget).2
    × ((perform numbers flaky plain budget).2.inference_rounds_count
        ≡ 0 + rounds_of numbers flaky (perform numbers flaky plain budget).1)
    × (budget.inference_rounds_count ≡ 2
        → perform numbers flaky plain budget ≡ ([], inl (max_rounds_error 2), budget))
perform-IsWithin_example = perform-IsWithin numbers flaky 1 plain budget (refl, omega arith)

abbrev with_timeout : Converter
with_timeout = record default_codes { timeout = some 504 }

-- The code for an exceeded deadline, 504, is an internal error by default.
deadline_test :
    generation_error_from_http default_codes (status 504) ≡ InferenceError.internal_server
unfolding generation_error_from_http
deadline_test = refl
