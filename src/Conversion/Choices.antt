-- ===== src/Conversion/Choices.antt =====
-- `src/com/conversion/openai_chat_completions/utils.py`: constraints to arguments of a request, and a
-- choice of a response to a delta.
use agentica_server.Base.{ℕ, Bool, true, false, Option, none, some, List, [], ◌∷◌, if◌then◌else◌}
use agentica_server.ModelNames.{codes, same_text}
use agentica_server.Inference.Deltas.{
  Text, Role, user, agent, system, End, eos, max_tokens_reached, stop_token_reached, Generated,
}
use agentica_server.Inference.Model.{Constraint, max_tokens_constraint, stop_token_constraint}
use agentica_server.Conversion.{
  this_is_a_bug, no_role, name_of_no_user, invalid_role, invalid_finish_reason, inference_error,
  Converted, failed, converted, and_then,
}

unfoldable pub stop_tokens : List Constraint → List Text
stop_tokens [] = []
stop_tokens (stop_token_constraint t ∷ cs) = t ∷ stop_tokens cs
stop_tokens (max_tokens_constraint n ∷ cs) = stop_tokens cs

-- The first limit of tokens, as for `next` and for `max_tokens[0]`.
unfoldable pub first_max_tokens : List Constraint → Option ℕ
first_max_tokens [] = none
first_max_tokens (max_tokens_constraint n ∷ cs) = some n
first_max_tokens (stop_token_constraint t ∷ cs) = first_max_tokens cs

-- The arguments 'stop', where there is one, and 'max_completion_tokens'.
pub record Arguments : Type 0 where
  pub stop : List Text
  pub max_completion_tokens : Option ℕ

unfoldable pub convert_from_constraints : List Constraint → Arguments
unfolding stop_tokens first_max_tokens
convert_from_constraints cs = record {
  stop = stop_tokens cs;
  max_completion_tokens = first_max_tokens cs;
}

-- `choices[0]` of a response, with its message, or the delta of a chunk. `has_tool_calls` is whether
-- its tool calls are truthy, and `error_message` what its error says.
pub record Choice (J : Type 0) : Type 0 where
  pub id : ℕ
  pub role : Option Text
  pub name : Option Text
  pub content : Option Text
  pub reasoning_content : Option Text
  pub annotations : Option J
  pub audio : Option J
  pub refusal : Option Text
  pub has_tool_calls : Bool
  pub finish_reason : Option Text
  pub stop_text : Option Text
  pub error_message : Option Text

abbrev pub text_or : Option Text → Text → Text
text_or none default = default
text_or (some t) default = t

unfoldable pub other_reason : Bool → Text → Converted End
other_reason streaming reason =
    if streaming then converted eos else failed (invalid_finish_reason reason)

-- The cases of `match finish_reason`.
unfoldable pub match_reason :
    {J : Type 0} → Bool → List Constraint → Choice J → Text → Converted End
unfolding other_reason first_max_tokens same_text
match_reason streaming cs c reason =
    if same_text reason (codes "tool_calls")
    then failed this_is_a_bug
    else if same_text reason (codes "length")
    then converted (max_tokens_reached (first_max_tokens cs))
    else if same_text reason (codes "stop")
    then converted (stop_token_reached (some (text_or c.stop_text [])) false)
    else if same_text reason (codes "content_filter")
    then converted (stop_token_reached none true)
    else if same_text reason (codes "filter_content")
    then converted (stop_token_reached none true)
    else if same_text reason (codes "error")
    then failed (inference_error (text_or c.error_message (codes "Unknown error")))
    else other_reason streaming reason

unfoldable pub finish :
    {J : Type 0} → Bool → List Constraint → Choice J → Option Text → Converted End
unfolding match_reason
finish streaming cs c none = converted eos
finish streaming cs c (some []) = converted eos
finish streaming cs c (some (x ∷ xs)) = match_reason streaming cs c (x ∷ xs)

unfoldable pub make_end : {J : Type 0} → Bool → List Constraint → Choice J → Converted End
unfolding finish
make_end streaming cs c =
    if c.has_tool_calls then failed this_is_a_bug else finish streaming cs c c.finish_reason

-- No name but for users, then the cases of `match role`.
unfoldable pub match_role : Text → Option Text → Converted Role
unfolding same_text
match_role role name = if same_text role (codes "user") then converted (user name) else elim name [
  | some t ↦ failed name_of_no_user
  | none ↦
      if same_text role (codes "assistant")
      then converted agent
      else if same_text role (codes "system")
      then converted system
      else failed (invalid_role role)
]

unfoldable pub convert_to_role : Option Text → Option Text → Converted Role
unfolding match_role
convert_to_role none none = failed no_role
convert_to_role none (some t) = failed name_of_no_user
convert_to_role (some role) name = match_role role name

-- The usage is set by `_to` of the converter.
unfoldable pub convert_to_delta :
    {J : Type 0} → Bool → List Constraint → Choice J → Option J → Converted (Generated J)
unfolding convert_to_role make_end
convert_to_delta streaming cs c usage = and_then (convert_to_role c.role c.name) λ role.
    and_then (make_end streaming cs c) λ end. converted (record {
      id = c.id;
      name = role;
      content = c.content;
      usage = usage;
      end = end;
      reasoning_content = c.reasoning_content;
      annotations = c.annotations;
      audio = c.audio;
      refusal = c.refusal;
    })
