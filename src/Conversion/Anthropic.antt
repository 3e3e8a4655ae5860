-- ===== src/Conversion/Anthropic.antt =====
-- `src/com/conversion/openai_chat_completions/anthropic.py`: the messages for Anthropic. The current
-- message is the last of the messages, and is kept beside the others.
use agentica_server.Base.{Bool, true, false, Option, none, some, List, [], ◌∷◌, ◌++◌, if◌then◌else◌}
use agentica_server.Inference.Deltas.{Text, user, agent, system}
use agentica_server.Conversion.{
  Delta, plain, generated, ChatRole, as_system, as_user, as_assistant, no_names, Converted, failed,
  converted, and_then, check_calls, require,
}

-- A text block, whose text can be missing.
abbrev pub Block : Type 0
Block = Option Text

-- `tool_calls` is whether the entry is there; it is always empty.
pub record BlockMessage : Type 0 where
  pub role : ChatRole
  pub content : List Block
  pub tool_calls : Bool

unfoldable pub make_system_block : Option Text → Converted Block
unfolding require
make_system_block content = and_then (require as_system content) λ t. converted (some t)

-- if role.username: raise ValueError(...)
unfoldable pub refuse_name : Option Text → Block → Converted Block
refuse_name none b = converted b
refuse_name (some []) b = converted b
refuse_name (some (c ∷ cs)) b = failed no_names

unfoldable pub make_user_block : Option Text → Option Text → Converted Block
unfolding require refuse_name
make_user_block username content =
    and_then (require as_user content) λ t. refuse_name username (some t)

abbrev pub same_chat_role : ChatRole → ChatRole → Bool
same_chat_role as_system as_system = true
same_chat_role as_system as_user = false
same_chat_role as_system as_assistant = false
same_chat_role as_user as_system = false
same_chat_role as_user as_user = true
same_chat_role as_user as_assistant = false
same_chat_role as_assistant as_system = false
same_chat_role as_assistant as_user = false
same_chat_role as_assistant as_assistant = true

pub record Chat : Type 0 where
  pub system_message : Option (List Block)
  pub messages : List BlockMessage
  pub current_message : Option BlockMessage

abbrev pub is_assistant : ChatRole → Bool
is_assistant as_system = false
is_assistant as_user = false
is_assistant as_assistant = true

-- Gluing to an assistant message makes the entry 'tool_calls'.
unfoldable pub append_block : ChatRole → Block → BlockMessage → BlockMessage
append_block r b m = record {
  role = m.role;
  content = m.content ++ b ∷ [];
  tool_calls = if is_assistant r then true else m.tool_calls;
}

abbrev pub new_message : ChatRole → Block → BlockMessage
new_message r b = record { role = r; content = b ∷ []; tool_calls = false }

abbrev pub append_system : Option (List Block) → Block → List Block
append_system none b = b ∷ []
append_system (some bs) b = bs ++ b ∷ []

unfoldable pub add_message :
    ChatRole → Block → List BlockMessage → Option BlockMessage → List BlockMessage × BlockMessage
unfolding append_block
add_message r b ms none = (ms, new_message r b)
add_message r b ms (some m) =
    if same_chat_role m.role r then (ms, append_block r b m) else (ms ++ m ∷ [], new_message r b)

unfoldable pub add_block : ChatRole → Block → Chat → Chat
unfolding add_message
add_block as_system b c = record c { system_message = some (append_system c.system_message b) }
add_block as_user b c =
    let (ms, m) = add_message as_user b c.messages c.current_message in
    record c { messages = ms; current_message = some m }
add_block as_assistant b c =
    let (ms, m) = add_message as_assistant b c.messages c.current_message in
    record c { messages = ms; current_message = some m }

abbrev pub together : List BlockMessage → Option BlockMessage → List BlockMessage
together ms none = ms
together ms (some m) = ms ++ m ∷ []

-- messages.insert(0, system_message)
abbrev pub insert_system : Option (List Block) → List BlockMessage → List BlockMessage
insert_system none ms = ms
insert_system (some bs) ms = record { role = as_system; content = bs; tool_calls = false } ∷ ms

module _ {J : Type 0} where
  unfoldable pub convert_from_role : Delta J → ChatRole
  convert_from_role (generated g) = as_assistant
  convert_from_role (plain (user username) content) = as_user
  convert_from_role (plain agent content) = as_assistant
  convert_from_role (plain system content) = as_system

  -- The block that a delta becomes, by its role.
  unfoldable pub make_block : Delta J → Converted Block
  unfolding make_system_block make_user_block check_calls
  make_block (generated g) = check_calls g.end g.content
  make_block (plain (user username) content) = make_user_block username content
  make_block (plain agent content) = converted content
  make_block (plain system content) = make_system_block content

  unfoldable pub convert_blocks : List (Delta J) → Chat → Converted Chat
  unfolding add_block make_block convert_from_role
  convert_blocks [] c = converted c
  convert_blocks (d ∷ ds) c =
      and_then (make_block d) λ b. convert_blocks ds (add_block (convert_from_role d) b c)

  unfoldable pub convert_deltas : List (Delta J) → Converted (List BlockMessage)
  unfolding convert_blocks
  convert_deltas ds =
      and_then
        (convert_blocks ds
          (record { system_message = none; messages = []; current_message = none }))
        λ c. converted (insert_system c.system_message (together c.messages c.current_message))
