-- ===== src/Conversion/Tests.antt =====
-- Tests of `src/com/conversion`, with numbers for the dicts of JSON values.
use agentica_server.Base.{ℕ, ◌≡◌, refl, true, false, none, some, List, [], ◌∷◌, ◌++◌, ◌==◌}
use agentica_server.ModelNames.{codes}
use agentica_server.Inference.Deltas.{user, agent, system, Json, Generated, eos, max_tokens_reached}
use agentica_server.Inference.Model.{max_tokens_constraint}
use agentica_server.Conversion.{
  Delta, plain, generated, as_system, as_user, as_assistant, Converted, failed, converted, no_role,
}
use agentica_server.Conversion.OpenAi.{ChatMessage, convert_from_deltas}
use agentica_server.Conversion.Anthropic.{BlockMessage, new_message, convert_deltas}
use agentica_server.Conversion.Choices.{Choice}
use agentica_server.Conversion.Completions.{
  RequestMessage, block_message, mark_messages, start_counters, to_delta,
}
use agentica_server.Conversion.Texts.{texts, convert_from_deltas-texts}
use agentica_server.Conversion.Turns.{tagged, roles, IsAlternating}
use agentica_server.Conversion.Groups.{system_blocks, chat_blocks, convert_deltas_grouped}
use agentica_server.Conversion.Breakpoints.{all_blocks, mark_messages_by_place}
use agentica_server.Conversion.Answers.{convert_deltas-to_delta}

abbrev small : Json ℕ
small = record { is_empty = λ n. n == 0; json_merge = λ a b. b; completion_tokens = λ n. some n }

abbrev an_answer : Generated ℕ
an_answer = record {
  id = 1;
  name = agent;
  content = some (codes "b");
  usage = none;
  end = eos;
  reasoning_content = some (codes "c");
  annotations = none;
  audio = none;
  refusal = none;
}

abbrev a_chat : List (Delta ℕ)
a_chat =
    plain (user none) (some (codes "a"))
    ∷ plain system (some (codes "s"))
    ∷ plain agent (some (codes "d"))
    ∷ generated an_answer
    ∷ []

convert_from_deltas-texts_test :
    (ms : List ChatMessage) × (convert_from_deltas small (λ n. none) a_chat ≡ converted ms)
    × (texts ms ≡ codes "asdbc")
convert_from_deltas-texts_test = convert_from_deltas-texts small (λ n. none) a_chat refl

convert_deltas_grouped_test :
    (ms : List BlockMessage) × (convert_deltas a_chat ≡ converted ms)
    × (tagged ms ≡ system_blocks a_chat ++ chat_blocks a_chat)
    × IsAlternating (roles ms)
unfolding agentica_server.Conversion.Anthropic.convert_from_role
convert_deltas_grouped_test = convert_deltas_grouped a_chat refl

-- Gluing to a message of the assistant leaves an empty list of calls in it.
glued_calls_test :
    convert_deltas {J = ℕ} (plain agent (some (codes "a")) ∷ plain agent (some (codes "b")) ∷ [])
    ≡ converted (
        record {
          role = as_assistant;
          content = some (codes "a") ∷ some (codes "b") ∷ [];
          tool_calls = true;
        }
        ∷ [])
unfolding convert_deltas
glued_calls_test = refl

abbrev two_messages : List RequestMessage
two_messages =
    block_message as_user false ((some (codes "a"), false) ∷ (some (codes "b"), false) ∷ [])
    ∷ block_message as_assistant false ((some (codes "c"), false) ∷ [])
    ∷ []

mark_messages_by_place_example :
    all_blocks (mark_messages two_messages start_counters).0
    ≡ (some (codes "a"), false) ∷ (some (codes "b"), false) ∷ (some (codes "c"), true) ∷ []
mark_messages_by_place_example = mark_messages_by_place two_messages

abbrev a_choice : Choice ℕ
a_choice = record {
  id = 1;
  role = some (codes "assistant");
  name = none;
  content = some (codes "hello");
  reasoning_content = none;
  annotations = none;
  audio = none;
  refusal = none;
  has_tool_calls = false;
  finish_reason = some (codes "length");
  stop_text = none;
  error_message = none;
}

abbrev its_delta : Generated ℕ
its_delta = record {
  id = 1;
  name = agent;
  content = some (codes "hello");
  usage = none;
  end = max_tokens_reached (some 5);
  reasoning_content = none;
  annotations = none;
  audio = none;
  refusal = none;
}

choice_converted : to_delta false (max_tokens_constraint 5 ∷ []) a_choice none ≡ converted its_delta
unfolding to_delta
choice_converted = refl

convert_deltas-to_delta_test :
    convert_deltas (generated its_delta ∷ [])
    ≡ converted (new_message as_assistant (some (codes "hello")) ∷ [])
convert_deltas-to_delta_test =
    convert_deltas-to_delta false (max_tokens_constraint 5 ∷ []) a_choice none its_delta
      choice_converted

-- A chunk that repeats no role is refused.
no_role_test : to_delta true [] (record a_choice { role = none }) none ≡ failed no_role
unfolding to_delta
no_role_test = refl
