-- ===== src/Conversion/Completions.antt =====
-- `OpenAIChatCompletionConverter` of `src/com/conversion/openai_completions.py`: the request with its
-- marks for the caching of prompts. `now` and `fresh` are what the clock and `uuid4` return; times
-- are whole seconds that do not run backwards.
use agentica_server.Base.{
  ℕ, ◌+◌, ◌-◌, ◌%◌, Bool, true, false, ◌&&◌, Option, none, some, List, [], ◌∷◌, ◌==◌, leb,
  if◌then◌else◌,
}
use agentica_server.ModelNames.{codes}
use agentica_server.Tags.{strip}
use agentica_server.Inference.Deltas.{Text, Json, Generated}
use agentica_server.Inference.Model.{Constraint, CacheKey, GenModel, use_cache_key}
use agentica_server.Conversion.{Delta, ChatRole, Converted, converted, and_then}
use agentica_server.Conversion.OpenAi.{ChatMessage, convert_from_deltas}
use agentica_server.Conversion.Anthropic.{Block, BlockMessage, convert_deltas}
use agentica_server.Conversion.Choices.{
  Arguments, convert_from_constraints, Choice, convert_to_delta,
}

-- A block and whether it has the entry 'cache_control'.
abbrev pub Marked : Type 0
Marked = Block × Bool

-- A message for OpenAI, or one of blocks: its role, whether it has 'tool_calls', and the blocks.
pub data RequestMessage : Type 0 where
  text_message : ChatMessage → RequestMessage
  block_message : ChatRole → Bool → List Marked → RequestMessage

-- What the request takes from the endpoint and the model.
pub record Settings : Type 0 where
  pub model : Text
  pub user_id : Option Text
  pub reasoning_effort : Option Text

pub record ChatRequest : Type 0 where
  pub model : Text
  pub stream : Bool
  pub user : Option Text
  pub reasoning : Option Text
  pub messages : List RequestMessage
  pub arguments : Arguments
  pub prompt_cache_key : Option ℕ

abbrev pub is_empty_text : Option Text → Bool
is_empty_text none = false
is_empty_text (some []) = true
is_empty_text (some (c ∷ cs)) = false

abbrev pub is_empty_block : Block → Bool
is_empty_block none = true
is_empty_block (some []) = true
is_empty_block (some (c ∷ cs)) = false

unfoldable pub all_empty : List Marked → Bool
all_empty [] = true
all_empty ((b, f) ∷ bs) = is_empty_block b && all_empty bs

unfoldable pub is_empty_content : RequestMessage → Bool
unfolding all_empty
is_empty_content (text_message m) = is_empty_text m.content
is_empty_content (block_message r t bs) = all_empty bs

unfoldable pub drop_empty : List RequestMessage → List RequestMessage
unfolding is_empty_content
drop_empty [] = []
drop_empty (m ∷ ms) = let rest = drop_empty ms in if is_empty_content m then rest else m ∷ rest

-- num_blocks, num_breakpoints
pub record Counters : Type 0 where
  pub num_blocks : ℕ
  pub num_breakpoints : ℕ

-- The body of the inner loop; no breakpoint left is its break.
unfoldable pub mark_block : Marked → Counters → Marked × Counters
mark_block (b, f) c =
    if c.num_breakpoints == 0
    then ((b, f), c)
    else if c.num_blocks % 20 == 0
    then (
      (b, true),
      record { num_blocks = c.num_blocks + 1; num_breakpoints = c.num_breakpoints - 1 },
    )
    else ((b, f), record c { num_blocks = c.num_blocks + 1 })

-- for b in reversed(m["content"])
unfoldable pub mark_blocks : List Marked → Counters → List Marked × Counters
unfolding mark_block
mark_blocks [] c = ([], c)
mark_blocks (b ∷ bs) c =
    let (rest, c') = mark_blocks bs c in let (b', c'') = mark_block b c' in (b' ∷ rest, c'')

-- The content of a text message has characters, and no blocks.
unfoldable pub mark_message : RequestMessage → Counters → RequestMessage × Counters
unfolding mark_blocks
mark_message (text_message m) c = (text_message m, c)
mark_message (block_message r t bs) c =
    let (bs', c') = mark_blocks bs c in (block_message r t bs', c')

-- for m in reversed(kwargs["messages"])
unfoldable pub mark_messages : List RequestMessage → Counters → List RequestMessage × Counters
unfolding mark_message
mark_messages [] c = ([], c)
mark_messages (m ∷ ms) c =
    let (rest, c') = mark_messages ms c in let (m', c'') = mark_message m c' in (m' ∷ rest, c'')

abbrev pub unmarked : List Block → List Marked
unmarked [] = []
unmarked (b ∷ bs) = (b, false) ∷ unmarked bs

abbrev pub block_messages : List BlockMessage → List RequestMessage
block_messages [] = []
block_messages (m ∷ ms) = block_message m.role m.tool_calls (unmarked m.content) ∷ block_messages ms

abbrev pub text_messages : List ChatMessage → List RequestMessage
text_messages [] = []
text_messages (m ∷ ms) = text_message m ∷ text_messages ms

-- context.gen.model.startswith('anthropic')
unfoldable pub is_anthropic : Text → Bool
is_anthropic model = elim (strip (codes "anthropic") model) [ none ↦ false | some rest ↦ true ]

unfoldable pub is_usable : ℕ → CacheKey → Bool
is_usable now k = leb k.num_requests 15 && leb (now - k.first_request_time) 60

abbrev pub start_counters : Counters
start_counters = record { num_blocks = 0; num_breakpoints = 4 }

module _ {J : Type 0} where
  unfoldable pub build_request :
      Settings
      → List Constraint
      → List RequestMessage
      → Option ℕ
      → GenModel J
      → ChatRequest × GenModel J
  unfolding drop_empty mark_messages convert_from_constraints
  build_request st cs ms key gen = (
    record {
      model = st.model;
      stream = gen.streaming;
      user = st.user_id;
      reasoning = st.reasoning_effort;
      messages = (mark_messages (drop_empty ms) start_counters).0;
      arguments = convert_from_constraints cs;
      prompt_cache_key = key;
    },
    gen,
  )

  -- `_from`. The deltas are those of the chat.
  unfoldable pub from_context :
      Json J
      → (J → Option Text)
      → Settings
      → ℕ
      → ℕ
      → List Constraint
      → List (Delta J)
      → GenModel J
      → Converted (ChatRequest × GenModel J)
  unfolding is_anthropic convert_deltas convert_from_deltas use_cache_key is_usable build_request
  from_context j audio_id st now fresh cs ds gen =
      if is_anthropic st.model
      then and_then (convert_deltas ds)
          (λ ms. converted (build_request st cs (block_messages ms) none gen))
      else and_then (convert_from_deltas j audio_id ds) λ ms.
        let (key, gen') = use_cache_key (is_usable now) fresh now gen in
        converted (build_request st cs (text_messages ms) (some key) gen')

  -- `_to`, of `choices[0]` and of the usage of a response.
  unfoldable pub to_delta : Bool → List Constraint → Choice J → Option J → Converted (Generated J)
  unfolding convert_to_delta
  to_delta streaming cs choice usage = convert_to_delta streaming cs choice usage
