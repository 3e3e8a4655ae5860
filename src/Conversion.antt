-- ===== src/Conversion.antt =====
-- The conversion of the chat to requests and of responses to deltas, in `src/com/conversion`. The
-- calls of executables are disabled in the program: what handles them imports a module that is not
-- there. Texts are lists of characters.
pub mod OpenAi
pub mod Anthropic
pub mod Choices
pub mod Completions
pub mod Texts
pub mod Turns
pub mod Groups
pub mod Breakpoints
pub mod Answers
mod Tests
use agentica_server.Base.{Option, none, some, List, [], ◌∷◌}
use agentica_server.Inference.Deltas.{
  Text, Role, End, eos, max_tokens_reached, stop_token_reached, object_types, callable_types,
  Generated,
}

-- `Delta`, and its subclass `GeneratedDelta`.
pub data Delta (J : Type 0) : Type 0 where
  plain : Role → Option Text → Delta J
  generated : Generated J → Delta J

pub data ChatRole : Type 0 where
  as_system as_user as_assistant : ChatRole

-- `no_module` is the import of `utils_json`, `this_is_a_bug` the answer to tool calls.
pub data ConversionError : Type 0 where
  content_required : ChatRole → ConversionError
  no_names no_audio_id no_module this_is_a_bug no_role name_of_no_user : ConversionError
  invalid_role invalid_finish_reason inference_error : Text → ConversionError

pub data Converted (A : Type 0) : Type 0 where
  failed : ConversionError → Converted A
  converted : A → Converted A

abbrev pub and_then : {A B : Type 0} → Converted A → (A → Converted B) → Converted B
and_then (failed e) f = failed e
and_then (converted a) f = f a

-- What holds of a result, where there is one.
abbrev pub Gives : {A : Type 0} → (A → Type 0) → Converted A → Type 0
Gives P (failed e) = Unit
Gives P (converted a) = P a

module _ {J : Type 0} where
  abbrev pub name_of : Delta J → Role
  name_of (plain name content) = name
  name_of (generated g) = g.name

  abbrev pub content_of : Delta J → Option Text
  content_of (plain name content) = content
  content_of (generated g) = g.content

-- `Delta.get_end(EndGenCallableTypes)`, where there is one.
unfoldable pub check_calls : {A : Type 0} → End → A → Converted A
check_calls eos a = converted a
check_calls (max_tokens_reached c) a = converted a
check_calls (stop_token_reached c b) a = converted a
check_calls object_types a = converted a
check_calls callable_types a = failed no_module

-- `if delta.content is None: raise ValueError(...)`
unfoldable pub require : ChatRole → Option Text → Converted Text
require r none = failed (content_required r)
require r (some t) = converted t
