-- ===== src/Interaction.antt =====
-- `interaction_monad` of `src/agentic/monads/repl_tool/multi_turn/openai.py`, with the actions of
-- `src/com/actions_repl.py` that it performs: the loop in which the model answers with code, the
-- sandbox runs it and the chat gets its output.
pub mod Rounds
pub mod Chat
pub mod Fences
pub mod SystemPrompt
pub mod SystemChat
pub mod Kept
pub mod Tests
use agentica_server.Base.{
  ℕ, zero, suc, ◌+◌, ◌⊎◌, inl, inr, Bool, true, false, ◌&&◌, Option, none, some, List, [], ◌∷◌,
  ◌++◌, if◌then◌else◌, length,
}
use agentica_server.Tags.{Text, text_between, text_not_between}
use agentica_server.Inference.Deltas.{user, role_object, Json, Generated}
use agentica_server.Inference.Rounds.{ModelInference, Endpoint}
use agentica_server.Monads.{
  Action, model_inference, insert_delta, log_code, log_result, HistoryMonad, pure, do_action,
  SessionInfo, Context, Raised, insert_string, run,
}

pub data ExceptionName : Type 0 where
  no_exception system_exit : ExceptionName
  other_exception : ℕ → ExceptionName

-- The fields of `ReplEvaluationInfo` that the loop reads.
pub record EvaluationInfo : Type 0 where
  pub output : Text
  pub has_result : Bool
  pub exception_name : ExceptionName

-- The files of `explain` that the loop answers with.
pub data Explanation : Type 0 where
  empty_response missing_code empty_output uncaught_exit multiple_code_blocks : Explanation

-- What the loop uses of the rest: the endpoint, which may read the whole chat; the sandbox in a state
-- `S`, whose run of a code may also raise; the rendered files; fresh ids for deltas and blocks;
-- `repr`; and which characters are white space.
pub record Surroundings (V J S : Type 0) : Type 0 where
  pub json : Json J
  pub endpoint : Context V J → Endpoint J
  pub session : SessionInfo
  pub repl_run_code : Text → S → Option EvaluationInfo × S
  pub explain : Explanation → Text
  pub fresh : Context V J → ℕ
  pub repr : Text → Text
  pub is_space : ℕ → Bool

-- "```", "```python", "<thinking>", "</thinking>", "<implementation_analysis>" and its end,
-- "return " and "execution", in ASCII.
abbrev pub fence : Text
fence = 96 ∷ 96 ∷ 96 ∷ []

abbrev pub python_fence : Text
python_fence = 96 ∷ 96 ∷ 96 ∷ 112 ∷ 121 ∷ 116 ∷ 104 ∷ 111 ∷ 110 ∷ []

abbrev pub thinking : Text
thinking = 60 ∷ 116 ∷ 104 ∷ 105 ∷ 110 ∷ 107 ∷ 105 ∷ 110 ∷ 103 ∷ 62 ∷ []

abbrev pub end_thinking : Text
end_thinking = 60 ∷ 47 ∷ 116 ∷ 104 ∷ 105 ∷ 110 ∷ 107 ∷ 105 ∷ 110 ∷ 103 ∷ 62 ∷ []

abbrev implementation_analysis : Text
implementation_analysis =
    105 ∷ 109 ∷ 112 ∷ 108 ∷ 101 ∷ 109 ∷ 101 ∷ 110 ∷ 116 ∷ 97 ∷ 116 ∷ 105 ∷ 111 ∷ 110 ∷ 95 ∷ 97 ∷ 110
    ∷ 97 ∷ 108 ∷ 121 ∷ 115 ∷ 105 ∷ 115 ∷ 62 ∷ []

abbrev pub analysis : Text
analysis = 60 ∷ implementation_analysis

abbrev pub end_analysis : Text
end_analysis = 60 ∷ 47 ∷ implementation_analysis

abbrev pub return_word : Text
return_word = 114 ∷ 101 ∷ 116 ∷ 117 ∷ 114 ∷ 110 ∷ 32 ∷ []

abbrev pub execution : Text
execution = 101 ∷ 120 ∷ 101 ∷ 99 ∷ 117 ∷ 116 ∷ 105 ∷ 111 ∷ 110 ∷ []

abbrev pub plain_inference : ModelInference
plain_inference = record { stop_tokens = []; max_tokens = none; max_retries = none }

-- How a turn of the loop ends.
pub data Turn : Type 0 where
  again returned : Turn
  raised : Raised → Turn
  sandbox_raised : Turn

-- *_, content = pieces
unfoldable pub last_of : Text → List Text → Text
last_of d [] = d
last_of d (t ∷ ts) = last_of t ts

module _ (is_space : ℕ → Bool) where
  unfoldable pub lstrip : Text → Text
  lstrip [] = []
  lstrip (c ∷ s) = let rest = lstrip s in if is_space c then rest else c ∷ s

  unfoldable pub keep_char : ℕ → Text → Text
  keep_char c [] = if is_space c then [] else c ∷ []
  keep_char c (d ∷ s) = c ∷ d ∷ s

  unfoldable pub rstrip : Text → Text
  unfolding keep_char
  rstrip [] = []
  rstrip (c ∷ s) = keep_char c (rstrip s)

  -- not output or output.isspace()
  unfoldable pub is_blank : Text → Bool
  is_blank [] = true
  is_blank (c ∷ s) = is_space c && is_blank s

module _ {V J : Type 0} where
  abbrev pub infer_and_insert : HistoryMonad V J (Generated J)
  infer_and_insert =
      do_action (model_inference plain_inference) (λ d. do_action (insert_delta d) (λ _. pure d))

module _ {V J S : Type 0} (m : Surroundings V J S) where
  unfoldable pub between : Text → Text → Text → List Text
  unfolding text_between
  between start end t = text_between (suc (length t)) start end t

  unfoldable pub not_between : Text → Text → Text → List Text
  unfolding text_not_between
  not_between start end t = text_not_between (suc (length t)) start end t

  -- What a response without code is taken to return.
  unfoldable pub clean_response : Text → Text
  unfolding not_between last_of lstrip rstrip
  clean_response t =
      let said = last_of [] (not_between thinking end_thinking t) in
      let content = last_of [] (not_between analysis end_analysis said) in
      lstrip m.is_space (rstrip m.is_space content)

  unfoldable pub return_block : Text → List Text
  return_block [] = []
  return_block (c ∷ cs) = (return_word ++ m.repr (c ∷ cs)) ∷ []

  unfoldable pub or_clean : Text → List Text → List Text
  unfolding clean_response return_block
  or_clean t (b ∷ bs) = b ∷ bs
  or_clean t [] = if m.session.is_returning_text then return_block (clean_response t) else []

  unfoldable pub code_blocks : Text → List Text
  unfolding between or_clean
  code_blocks t = or_clean t (between python_fence fence t)

  -- _user_execution
  unfoldable pub user_execution : Text → Context V J → Context V J
  unfolding run insert_string
  user_execution text c =
      (run m.json m.endpoint (insert_string (m.fresh c) text (role_object (user (some execution))))
        c).1

  unfoldable pub say_all : List Text → Context V J → Context V J
  unfolding user_execution
  say_all [] c = c
  say_all (t ∷ ts) c = say_all ts (user_execution t c)

  unfoldable pub has_extra : List Text → Bool
  has_extra [] = false
  has_extra (t ∷ ts) = true

  -- The messages after a run that brought no result.
  unfoldable pub guidance : EvaluationInfo → List Text → List Text
  unfolding is_blank has_extra
  guidance info extra =
      (if is_blank m.is_space info.output then m.explain empty_output else info.output ++ 10 ∷ [])
      ∷ ((elim info.exception_name [ system_exit ↦ m.explain uncaught_exit ∷ [] | _ ↦ [] ])
          ++ (if has_extra extra then m.explain multiple_code_blocks ∷ [] else []))

  unfoldable pub after_run :
      ℕ → List Text → Option EvaluationInfo → Context V J → S → Turn × Context V J × S
  unfolding say_all guidance run
  after_run exec_id extra none c s = (sandbox_raised, c, s)
  after_run exec_id extra (some info) c s =
      let logged = (run m.json m.endpoint (do_action (log_result info.output exec_id) pure) c).1 in
      if info.has_result
      then (returned, logged, s)
      else (again, say_all (guidance info extra) logged, s)

  unfoldable pub run_block : Text → List Text → Context V J → S → Turn × Context V J × S
  unfolding after_run run
  run_block code extra c s =
      let exec_id = m.fresh c in
      let logged = (run m.json m.endpoint (do_action (log_code exec_id code) pure) c).1 in
      let (info, s') = m.repl_run_code code s in after_run exec_id extra info logged s'

  unfoldable pub on_blocks : List Text → Context V J → S → Turn × Context V J × S
  unfolding user_execution run_block
  on_blocks [] c s = (again, user_execution (m.explain missing_code) c, s)
  on_blocks (code ∷ extra) c s = run_block code extra c s

  unfoldable pub on_content : Option Text → Context V J → S → Turn × Context V J × S
  unfolding user_execution code_blocks on_blocks
  on_content (some (c ∷ cs)) x s = on_blocks (code_blocks (c ∷ cs)) x s
  on_content _ x s = (again, user_execution (m.explain empty_response) x, s)

  unfoldable pub on_inferred : (Raised ⊎ Generated J) × Context V J → S → Turn × Context V J × S
  unfolding on_content
  on_inferred (inl r, c) s = (raised r, c, s)
  on_inferred (inr d, c) s = on_content d.content c s

  -- One pass of `while True`.
  unfoldable pub turn : Context V J → S → Turn × Context V J × S
  unfolding run on_inferred
  turn c s = on_inferred (run m.json m.endpoint infer_and_insert c) s

  unfoldable pub go_on :
      Turn × Context V J × S
      → (Context V J → S → Option (Turn × Context V J × S))
      → Option (Turn × Context V J × S)
  go_on (again, c, s) k = k c s
  go_on t k = some t

  -- `none` without fuel left.
  unfoldable pub interaction_monad : ℕ → Context V J → S → Option (Turn × Context V J × S)
  unfolding turn go_on
  interaction_monad zero c s = none
  interaction_monad (suc n) c s = go_on (turn c s) (λ c' s'. interaction_monad n c' s')
