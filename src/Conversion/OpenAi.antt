-- ===== src/Conversion/OpenAi.antt =====
-- `src/com/conversion/openai_chat_completions/openai.py`: the messages for OpenAI. The current
-- message is the last of the messages, and is kept beside the others.
use agentica_server.Base.{Bool, true, false, Option, none, some, List, [], ◌∷◌, ◌++◌, if◌then◌else◌}
use agentica_server.ModelNames.{same_text}
use agentica_server.Inference.Deltas.{Text, Role, user, agent, system, Json}
use agentica_server.Conversion.{
  Delta, plain, generated, ChatRole, as_system, as_user, as_assistant, no_audio_id, Converted,
  failed, converted, and_then, name_of, check_calls, require,
}

pub record ChatMessage : Type 0 where
  pub role : ChatRole
  pub content : Option Text
  pub name : Option Text
  pub refusal : Option Text
  pub audio : Option Text

unfoldable pub same_name : Option Text → Option Text → Bool
unfolding same_text
same_name none none = true
same_name none (some t) = false
same_name (some t) none = false
same_name (some t) (some u) = same_text t u

-- `GenRole.__eq__` and `UserRole.__eq__`
unfoldable pub same_role : Role → Role → Bool
unfolding same_name
same_role (user a) (user b) = same_name a b
same_role (user a) agent = false
same_role (user a) system = false
same_role agent (user b) = false
same_role agent agent = true
same_role agent system = false
same_role system (user b) = false
same_role system agent = false
same_role system system = true

-- The text, or the empty text for a missing one.
abbrev pub or_empty_text : Option Text → Text
or_empty_text none = []
or_empty_text (some t) = t

-- An empty text is falsy.
unfoldable pub truthy : Option Text → Option Text
truthy none = none
truthy (some []) = none
truthy (some (c ∷ cs)) = some (c ∷ cs)

unfoldable pub make_system : Option Text → Converted ChatMessage
unfolding require
make_system content = and_then (require as_system content) λ t.
    converted
      (record { role = as_system; content = some t; name = none; refusal = none; audio = none })

unfoldable pub make_user : Option Text → Option Text → Converted ChatMessage
unfolding require truthy
make_user username content = and_then (require as_user content) λ t. converted (record {
  role = as_user;
  content = some t;
  name = truthy username;
  refusal = none;
  audio = none;
})

-- content = (content or '') + reasoning_content
unfoldable pub with_reasoning : Option Text → Option Text → Option Text
with_reasoning content none = content
with_reasoning content (some r) = some (or_empty_text content ++ r)

-- if delta.content: content = (content or '') + delta.content
unfoldable pub with_content : Option Text → Option Text → Option Text
with_content prev none = prev
with_content prev (some []) = prev
with_content prev (some (c ∷ cs)) = some (or_empty_text prev ++ c ∷ cs)

pub record Progress : Type 0 where
  pub messages : List ChatMessage
  pub current : Option (Role × ChatMessage)

abbrev pub all_messages : Progress → List ChatMessage
all_messages s = elim s.current [ none ↦ s.messages | some (r, m) ↦ s.messages ++ m ∷ [] ]

module _ {J : Type 0} where
  unfoldable pub glue_message : Delta J → ChatMessage → ChatMessage
  unfolding with_content with_reasoning
  glue_message (plain name content) m = record m { content = with_content m.content content }
  glue_message (generated g) m = record m {
    content = with_reasoning (with_content m.content g.content) g.reasoning_content;
  }

-- `audio_id` is the entry 'id' of a dict, where it is a text.
module _ {J : Type 0} (j : Json J) (audio_id : J → Option Text) where
  unfoldable pub make_audio : Option J → Converted (Option Text)
  make_audio none = converted none
  make_audio (some audio) =
      if j.is_empty audio
      then converted none
      else elim (audio_id audio) [ none ↦ failed no_audio_id | some id ↦ converted (some id) ]

  unfoldable pub make_assistant : Delta J → Converted ChatMessage
  unfolding make_audio with_reasoning check_calls
  make_assistant (plain name content) =
      converted (record {
        role = as_assistant;
        content = content;
        name = none;
        refusal = none;
        audio = none;
      })
  make_assistant (generated g) = and_then (make_audio g.audio) λ audio. check_calls g.end (record {
    role = as_assistant;
    content = with_reasoning g.content g.reasoning_content;
    name = none;
    refusal = g.refusal;
    audio = audio;
  })

  unfoldable pub convert_from_delta : Delta J → Converted ChatMessage
  unfolding make_assistant make_system make_user
  convert_from_delta (generated g) = make_assistant (generated g)
  convert_from_delta (plain system content) = make_system content
  convert_from_delta (plain agent content) = make_assistant (plain agent content)
  convert_from_delta (plain (user username) content) = make_user username content

  unfoldable pub begin_message : Delta J → List ChatMessage → Converted Progress
  unfolding convert_from_delta
  begin_message d ms =
      and_then (convert_from_delta d)
        λ m. converted (record { messages = ms; current = some (name_of d, m) })

  unfoldable pub convert_next :
      Delta J → List ChatMessage → Option (Role × ChatMessage) → Converted Progress
  unfolding begin_message glue_message same_role
  convert_next d ms none = begin_message d ms
  convert_next d ms (some (r, m)) =
      if same_role r (name_of d)
      then converted (record { messages = ms; current = some (r, glue_message d m) })
      else begin_message d (ms ++ m ∷ [])

  unfoldable pub convert_all : List (Delta J) → Progress → Converted Progress
  unfolding convert_next
  convert_all [] s = converted s
  convert_all (d ∷ ds) s = and_then (convert_next d s.messages s.current) (convert_all ds)

  unfoldable pub convert_from_deltas : List (Delta J) → Converted (List ChatMessage)
  unfolding convert_all
  convert_from_deltas ds =
      and_then (convert_all ds (record { messages = []; current = none }))
        λ s. converted (all_messages s)
