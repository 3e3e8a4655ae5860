-- ===== src/Interaction/SystemPrompt.antt =====
-- `system_monad` and `_few_shot_examples` of `src/agentic/monads/repl_tool/multi_turn/openai.py`, with
-- `_system_prompt` of `src/agentic/monads/prompter.py`. What jinja, yaml, the formatter and the files
-- make of a session is an argument. Exceptions of Python are numbers.
use agentica_server.Base.{
  ℕ, suc, ◌⊎◌, inl, inr, Bool, true, false, ◌||◌, some, List, [], ◌∷◌, if◌then◌else◌,
}
use agentica_server.Tags.{Text}
use agentica_server.Interaction.{execution}
use agentica_server.ModelNames.{codes}
use agentica_server.Inference.Deltas.{user, agent, system, role_object}
use agentica_server.Monads.{
  SessionInfo, get_session_info, sdk_is_python, HistoryMonad, pure, do_action, throw, bind,
  then_monad, immediate, insert_string,
}

-- The system prompt of a request: none, a text, or a template, as `should_template` tells them apart.
pub data SystemPrompt : Type 0 where
  no_system : SystemPrompt
  plain_system : Text → SystemPrompt
  template_system : ℕ → SystemPrompt

pub data ExampleRole : Type 0 where
  assistant instructions executed : ExampleRole
  other_role : Text → ExampleRole

-- An example with its rendered text, or the exception of its rendering.
abbrev pub Example : Type 0
Example = ExampleRole × (ℕ ⊎ Text)

-- `formatted` and `from_file` give the stripped prompt, or the exception that is raised; the template
-- variables only read the session and whether the SDK is that of Python. `dedented` is `dedent` and
-- `strip`; `examples` are none where the file is missing; `id` are the ids that `uuid4` returns one
-- after the other.
pub record Rendering : Type 0 where
  pub formatted : ℕ → SessionInfo → ℕ ⊎ Text
  pub from_file : SessionInfo → Bool → ℕ ⊎ Text
  pub dedented : Text → Text
  pub examples : SessionInfo → ℕ ⊎ List Example
  pub invalid_role : Text → ℕ
  pub id : ℕ → ℕ

abbrev pub is_given : SystemPrompt → Bool
is_given no_system = false
is_given (plain_system t) = true
is_given (template_system n) = true

module _ {V J : Type 0} where
  -- What a continuation does with a value whose computation may raise.
  unfoldable pub or_throw : {A B : Type 0} → ℕ ⊎ A → (A → HistoryMonad V J B) → HistoryMonad V J B
  or_throw (inl err) k = throw err
  or_throw (inr a) k = k a

module _ {V J : Type 0} (r : Rendering) where
  unfoldable pub prompt_from_file : HistoryMonad V J Text
  unfolding or_throw
  prompt_from_file =
      do_action get_session_info
        (λ s. do_action sdk_is_python (λ b. or_throw (r.from_file s b) pure))

  -- `_system_prompt`
  unfoldable pub system_prompt : SystemPrompt → HistoryMonad V J Text
  unfolding immediate or_throw prompt_from_file
  system_prompt no_system = immediate (λ _. prompt_from_file)
  system_prompt (plain_system []) = immediate (λ _. prompt_from_file)
  system_prompt (plain_system (c ∷ cs)) = immediate (λ _. pure (r.dedented (c ∷ cs)))
  system_prompt (template_system n) =
      immediate (λ _. do_action get_session_info (λ s. or_throw (r.formatted n s) pure))

  -- The cases of the role of an example, with what comes after it.
  unfoldable pub insert_example :
      ℕ → ExampleRole → Text → HistoryMonad V J (Unit {0}) → HistoryMonad V J (Unit {0})
  unfolding then_monad insert_string
  insert_example n assistant t rest = then_monad (insert_string (r.id n) t (role_object agent)) rest
  insert_example n instructions t rest =
      then_monad (insert_string (r.id n) t (role_object (user (some (codes "instructions"))))) rest
  insert_example n executed t rest =
      then_monad (insert_string (r.id n) t (role_object (user (some execution)))) rest
  insert_example n (other_role name) t rest = throw (r.invalid_role name)

  -- for example in examples
  unfoldable pub insert_examples : ℕ → List Example → HistoryMonad V J (Unit {0})
  unfolding insert_example
  insert_examples n [] = pure tt
  insert_examples n ((role, inl err) ∷ xs) = throw err
  insert_examples n ((role, inr t) ∷ xs) = insert_example n role t (insert_examples (suc n) xs)

  unfoldable pub few_shot_examples : HistoryMonad V J (Unit {0})
  unfolding immediate or_throw insert_examples
  few_shot_examples =
      immediate (λ _. do_action get_session_info (λ s. or_throw (r.examples s) (insert_examples 1)))

  -- What follows the system prompt.
  unfoldable pub after_prompt : SystemPrompt → SessionInfo → HistoryMonad V J (Unit {0})
  unfolding few_shot_examples
  after_prompt prompt s = if is_given prompt || s.is_function then pure tt else few_shot_examples

  unfoldable pub system_monad : SystemPrompt → HistoryMonad V J (Unit {0})
  unfolding immediate bind then_monad insert_string system_prompt after_prompt
  system_monad prompt = immediate (λ _. do_action get_session_info (λ s.
      bind (system_prompt prompt)
        (λ t. then_monad (insert_string (r.id 0) t (role_object system)) (after_prompt prompt s))))
