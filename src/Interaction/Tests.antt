-- ===== src/Interaction/Tests.antt =====
-- Turns of `src/agentic/monads/repl_tool/multi_turn/openai.py` on small responses: tests, and the
-- theorems at work.
use agentica_server.Base.{
  ℕ, zero, suc, ◌+◌, ◌≡◌, refl, true, false, inr, none, some, List, [], ◌∷◌, ◌++◌, arith, ◌==◌,
}
use agentica_server.Tags.{Text}
use agentica_server.Inference.Deltas.{agent, eos, Json, Generated}
use agentica_server.Inference.Errors.{default_codes}
use agentica_server.Inference.Rounds.{Endpoint}
use agentica_server.Monads.{Context, run}
use agentica_server.Interaction.{
  Surroundings, system_exit, fence, python_fence, code_blocks, infer_and_insert, turn,
  interaction_monad,
}
use agentica_server.Interaction.Rounds.{IsEnd, interaction_monad_ends}
use agentica_server.Interaction.Chat.{Adds, turn-Adds}
use agentica_server.Interaction.Fences.{RunsFirst, turn-RunsFirst}

abbrev pub numbers : Json ℕ
numbers = record {
  is_empty = λ u. elim u [ zero ↦ true | suc n ↦ false ];
  json_merge = λ a b. a + b;
  completion_tokens = λ u. some u;
}

-- Two blocks of one character each, after a word.
abbrev pub rest : Text
rest = 96 ∷ 96 ∷ 112 ∷ 121 ∷ 116 ∷ 104 ∷ 111 ∷ 110 ∷ 49 ∷ 96 ∷ 96 ∷ 96 ∷ []

abbrev pub two_blocks : Text
two_blocks = 96 ∷ (rest ++ (python_fence ++ 50 ∷ fence))

abbrev pub reply : Generated ℕ
reply = record {
  id = 5;
  name = agent;
  content = some two_blocks;
  usage = none;
  end = eos;
  reasoning_content = none;
  annotations = none;
  audio = none;
  refusal = none;
}

abbrev pub answers : Endpoint ℕ
answers = record {
  converter = default_codes;
  invoke = λ cons i. inr reply;
  invoke_stream = λ cons i. record { deltas = []; error = none };
  is_derived = λ f. false;
  is_generation_error = λ f. true;
  has_invocation = true;
}

-- The sandbox collects the codes that it runs, and none brings a result.
abbrev pub around : Surroundings ℕ ℕ (List Text)
around = record {
  json = numbers;
  endpoint = λ c. answers;
  session = record { is_function = false; is_returning_text = true };
  repl_run_code = λ code ran. (
    some (record { output = 32 ∷ []; has_result = false; exception_name = system_exit }),
    code ∷ ran,
  );
  explain = λ e. [];
  fresh = λ c. 9;
  repr = λ t. 39 ∷ (t ++ 39 ∷ []);
  is_space = λ c. c == 32;
}

abbrev pub fresh : Context ℕ ℕ
fresh = record {
  gen = record {
    deltas = [];
    inference_rounds_count = 0;
    max_rounds = some 2;
    max_invocation_tokens = none;
    max_inference_tokens = none;
    max_completion_tokens = none;
    streaming = false;
    cache_key = record { key = 0; first_request_time = 0; num_requests = 0 };
    error_handling = record {
      max_retries = 1;
      rate_limit_delay = 1;
      rate_limit_exponential_base = 2;
      rate_limit_jitter = true;
    };
  };
  captures = [];
  is_python = true;
  session = record { is_function = false; is_returning_text = true };
  has_invocation = true;
  log = [];
  effects = [];
}

blocks_test : code_blocks around two_blocks ≡ (49 ∷ []) ∷ (50 ∷ []) ∷ []
unfolding code_blocks
blocks_test = refl

-- "<thinking>1</thinking> 2 " is taken to return "2".
clean_test :
    code_blocks around (
      60 ∷ 116 ∷ 104 ∷ 105 ∷ 110 ∷ 107 ∷ 105 ∷ 110 ∷ 103 ∷ 62 ∷ 49 ∷ 60 ∷ 47 ∷ 116 ∷ 104 ∷ 105 ∷ 110
      ∷ 107 ∷ 105 ∷ 110 ∷ 103 ∷ 62 ∷ 32 ∷ 50 ∷ 32 ∷ [])
    ≡ (114 ∷ 101 ∷ 116 ∷ 117 ∷ 114 ∷ 110 ∷ 32 ∷ 39 ∷ 50 ∷ 39 ∷ []) ∷ []
unfolding code_blocks
clean_test = refl

interaction_monad_ends_example : IsEnd around 1 (interaction_monad around 3 fresh [])
interaction_monad_ends_example =
    interaction_monad_ends around 3 1 fresh [] (refl, omega arith) (omega arith)

turn-Adds_test : Adds around fresh (turn around fresh [])
turn-Adds_test = turn-Adds around fresh []

abbrev answered : Context ℕ ℕ
unfolding run
answered = (run numbers (λ c. answers) infer_and_insert fresh).1

turn-RunsFirst_example : RunsFirst around two_blocks [] (turn around fresh []).2
unfolding run agentica_server.Inference.Rounds.perform
turn-RunsFirst_example =
    turn-RunsFirst around fresh answered [] reply 96 (rest ++ (python_fence ++ 50 ∷ fence)) refl
      refl
