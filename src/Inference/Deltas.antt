-- ===== src/Inference/Deltas.antt =====
-- `src/com/deltas.py` and `src/com/roles.py`, and the gluing of streamed deltas in
-- `ModelInference.infer_streaming` of `src/com/actions_model.py`. Texts are lists of characters. `J`
-- is the type of Python's dicts of JSON values, which the code only merges, tests and looks up.
use agentica_server.Base.{ℕ, Bool, Option, none, some, List, [], ◌∷◌, ◌++◌, if◌then◌else◌}

abbrev pub Text : Type 0
Text = List ℕ

pub data Role : Type 0 where
  user : Option Text → Role
  agent system : Role

pub data RoleName : Type 0 where
  user_name agent_name system_name : RoleName

-- A role or the name of one.
pub data RoleType : Type 0 where
  role_object : Role → RoleType
  role_name : RoleName → RoleType

-- GenRole.from_name
unfoldable pub from_name : RoleType → Role
from_name (role_object r) = r
from_name (role_name user_name) = user none
from_name (role_name agent_name) = agent
from_name (role_name system_name) = system

-- The subclasses of `EndGen`, with the value of the constraint that was reached.
pub data End : Type 0 where
  eos : End
  max_tokens_reached : Option ℕ → End
  stop_token_reached : Option Text → Bool → End
  object_types callable_types : End

-- `json_merge` of the package `agentica_internal`, and what the code asks of a dict.
pub record Json (J : Type 0) : Type 0 where
  pub is_empty : J → Bool
  pub json_merge : J → J → J
  pub completion_tokens : J → Option ℕ

pub record Generated (J : Type 0) : Type 0 where
  pub id : ℕ
  pub name : Role
  pub content : Option Text
  pub usage : Option J
  pub end : End
  pub reasoning_content : Option Text
  pub annotations : Option J
  pub audio : Option J
  pub refusal : Option Text

-- An empty text is falsy, as a missing one is.
unfoldable pub glue_text : Option Text → Option Text → Option Text
glue_text old none = old
glue_text old (some []) = old
glue_text none (some (c ∷ cs)) = some (c ∷ cs)
glue_text (some old) (some (c ∷ cs)) = some (old ++ c ∷ cs)

unfoldable pub glue_json : {J : Type 0} → Json J → Option J → Option J → Option J
glue_json j old none = old
glue_json j none (some d) = if j.is_empty d then none else some d
glue_json j (some old) (some d) = if j.is_empty d then some old else some (j.json_merge old d)

unfoldable pub glue_end : End → End → End
glue_end old eos = old
glue_end old e = e

unfoldable pub glue_refusal : Option Text → Option Text → Option Text
glue_refusal (some old) _ = some old
glue_refusal none none = none
glue_refusal none (some []) = none
glue_refusal none (some (c ∷ cs)) = some (c ∷ cs)

module _ {J : Type 0} (j : Json J) where
  -- The first delta is the one that the others are glued to.
  unfoldable pub glue : Generated J → Generated J → Generated J
  unfolding glue_text glue_json glue_end glue_refusal
  glue glued delta = record glued {
    content = glue_text glued.content delta.content;
    usage = glue_json j glued.usage delta.usage;
    reasoning_content = glue_text glued.reasoning_content delta.reasoning_content;
    end = glue_end glued.end delta.end;
    annotations = glue_json j glued.annotations delta.annotations;
    audio = glue_json j glued.audio delta.audio;
    refusal = glue_refusal glued.refusal delta.refusal;
  }

  unfoldable pub glue_all : Generated J → List (Generated J) → Generated J
  unfolding glue
  glue_all glued [] = glued
  glue_all glued (delta ∷ deltas) = glue_all (glue glued delta) deltas

  -- An empty stream fails the assertion.
  unfoldable pub glue_stream : List (Generated J) → Option (Generated J)
  unfolding glue_all
  glue_stream [] = none
  glue_stream (delta ∷ deltas) = some (glue_all delta deltas)
