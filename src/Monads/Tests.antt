-- ===== src/Monads/Tests.antt =====
-- Computations on the chat of `src/com/monads_basic.py`: tests, and the theorems at work.
use agentica_server.Base.{
  ℕ, zero, suc, ◌+◌, ◌≡◌, refl, ◌⊎◌, inl, inr, Bool, true, false, Option, none, some, List, [], ◌∷◌,
  ◌++◌,
}
use agentica_server.Inference.Deltas.{role_name, user_name, Json}
use agentica_server.Inference.Errors.{status, default_codes}
use agentica_server.Inference.Rounds.{ModelInference, Endpoint}
use agentica_server.Monads.{
  HistoryMonad, pure, do_action, model_inference, Context, key_error, bind, then_monad,
  insert_string, retrieve, continue_with, run,
}
use agentica_server.Monads.Laws.{run-bind}
use agentica_server.Monads.History.{Extends, run-Extends}

abbrev numbers : Json ℕ
numbers = record {
  is_empty = λ u. elim u [ zero ↦ true | suc n ↦ false ];
  json_merge = λ a b. a + b;
  completion_tokens = λ u. some u;
}

abbrev down : Endpoint ℕ
down = record {
  converter = default_codes;
  invoke = λ cons i. inl (status 500);
  invoke_stream = λ cons i. record { deltas = []; error = none };
  is_derived = λ f. false;
  is_generation_error = λ f. true;
  has_invocation = true;
}

abbrev fresh : Context ℕ ℕ
fresh = record {
  gen = record {
    deltas = [];
    inference_rounds_count = 0;
    max_rounds = none;
    max_invocation_tokens = none;
    max_inference_tokens = none;
    max_completion_tokens = none;
    streaming = false;
    cache_key = record { key = 0; first_request_time = 0; num_requests = 0 };
    error_handling = record {
      max_retries = 1;
      rate_limit_delay = 1;
      rate_limit_exponential_base = 2;
      rate_limit_jitter = true;
    };
  };
  captures = [];
  is_python = true;
  session = record { is_function = false; is_returning_text = true };
  has_invocation = true;
  log = [];
  effects = [];
}

abbrev say : ℕ → HistoryMonad ℕ ℕ (Unit {0})
unfolding insert_string
say n = insert_string n (n ∷ []) (role_name user_name)

abbrev plain : ModelInference
plain = record { stop_tokens = []; max_tokens = none; max_retries = none }

-- Text, then a round that fails, then text that is never inserted.
abbrev broken : HistoryMonad ℕ ℕ (Unit {0})
broken = then_monad (say 1) (then_monad (do_action (model_inference plain) (λ _. pure tt)) (say 2))

run-bind_example :
    run numbers (λ c. down) (bind (say 1) (λ _. broken)) fresh
    ≡ continue_with numbers
        (λ c. down)
        (run numbers (λ c. down) (say 1) fresh)
        (λ x c. run numbers (λ c. down) broken c)
run-bind_example = run-bind numbers (λ c. down) (say 1) (λ _. broken) fresh

run-Extends_example : Extends fresh (run numbers (λ c. down) broken fresh).1
run-Extends_example = run-Extends numbers (λ c. down) broken fresh

abbrev read : ℕ → HistoryMonad ℕ ℕ ℕ
read name = retrieve name

-- A name that was never captured raises.
missing_test : (run numbers (λ c. down) (retrieve 8) fresh).0 ≡ inl (key_error 8)
unfolding run retrieve agentica_server.Base.get
missing_test = refl
