-- ===== src/Interaction/SystemChat.antt =====
-- The chat that `system_monad` of `src/agentic/monads/repl_tool/multi_turn/openai.py` leaves.
use agentica_server.Base.{
  ℕ, suc, ◌≡◌, refl, sym, ap, ◌∙◌, ◌⊎◌, inl, inr, Bool, true, false, none, some, List, [], ◌∷◌,
  ◌++◌, append-nil, append_assoc, if◌then◌else◌,
}
use agentica_server.Tags.{Text}
use agentica_server.Interaction.{execution}
use agentica_server.ModelNames.{codes}
use agentica_server.Inference.Deltas.{Role, user, agent, system, role_object, Json, Generated, eos}
use agentica_server.Inference.Model.{push_delta}
use agentica_server.Inference.Rounds.{Endpoint}
use agentica_server.Monads.{
  SessionInfo, HistoryMonad, bind, then_monad, immediate, insert_string, Context, Raised,
  continuation_raised, push, perform_action, continue_with, run, pure,
}
use agentica_server.Monads.Laws.{run-bind}
use agentica_server.Interaction.SystemPrompt.{
  SystemPrompt, no_system, plain_system, template_system, assistant, instructions, executed,
  other_role, Example, Rendering, or_throw, prompt_from_file, system_prompt, insert_example,
  insert_examples, few_shot_examples, after_prompt, system_monad,
}

-- A delta that is only a text.
abbrev pub text_delta : {J : Type 0} → ℕ → Text → Role → Generated J
text_delta id t role = record {
  id = id;
  name = role;
  content = some t;
  usage = none;
  end = eos;
  reasoning_content = none;
  annotations = none;
  audio = none;
  refusal = none;
}

module _ (r : Rendering) where
  -- The prompt for a session, or why there is none.
  abbrev pub rendered : SystemPrompt → SessionInfo → Bool → ℕ ⊎ Text
  rendered no_system s b = r.from_file s b
  rendered (plain_system []) s b = r.from_file s b
  rendered (plain_system (c ∷ cs)) s b = inr (r.dedented (c ∷ cs))
  rendered (template_system n) s b = r.formatted n s

  -- The examples before the first whose rendering raises or whose role is not valid.
  abbrev pub said : {J : Type 0} → ℕ → List Example → List (Generated J)
  said n [] = []
  said n ((role, inl err) ∷ xs) = []
  said n ((assistant, inr t) ∷ xs) = text_delta (r.id n) t agent ∷ said (suc n) xs
  said n ((instructions, inr t) ∷ xs) =
      text_delta (r.id n) t (user (some (codes "instructions"))) ∷ said (suc n) xs
  said n ((executed, inr t) ∷ xs) = text_delta (r.id n) t (user (some execution)) ∷ said (suc n) xs
  said n ((other_role name, inr t) ∷ xs) = []

  abbrev pub said_of : {J : Type 0} → ℕ ⊎ List Example → List (Generated J)
  said_of (inl err) = []
  said_of (inr xs) = said 1 xs

  -- Examples are for sessions with no system prompt of their own, and not for functions.
  abbrev pub few_said : {J : Type 0} → SystemPrompt → SessionInfo → List (Generated J)
  few_said no_system s = if s.is_function then [] else said_of (r.examples s)
  few_said (plain_system t) s = []
  few_said (template_system n) s = []

module _ {V J : Type 0} (j : Json J) (e : Context V J → Endpoint J) (r : Rendering) where
  abbrev ended : {A : Type 0} → ℕ ⊎ A → Context V J → (Raised ⊎ A) × Context V J
  ended (inl err) c = (inl (continuation_raised err), c)
  ended (inr t) c = (inr t, c)

  run-or_throw :
      {A : Type 0} (o : ℕ ⊎ A) (c : Context V J) → run j e (or_throw o pure) c ≡ ended o c
  unfolding or_throw run
  run-or_throw (inl err) c = refl
  run-or_throw (inr t) c = refl

  run-system_prompt :
      (p : SystemPrompt) (c : Context V J)
      → run j e (system_prompt r p) c ≡ ended (rendered r p c.session c.is_python) c
  unfolding system_prompt run perform_action continue_with immediate prompt_from_file
  run-system_prompt no_system c = run-or_throw (r.from_file c.session c.is_python) c
  run-system_prompt (plain_system []) c = run-or_throw (r.from_file c.session c.is_python) c
  run-system_prompt (plain_system (x ∷ xs)) c = refl
  run-system_prompt (template_system n) c = run-or_throw (r.formatted n c.session) c

  -- The deltas after a computation are those before it and then `ds`.
  abbrev Says : List (Generated J) → HistoryMonad V J (Unit {0}) → Context V J → Type 0
  Says ds m c = (run j e m c).1.gen.deltas ≡ c.gen.deltas ++ ds

  one_more :
      (d : Generated J) (ds : List (Generated J)) (m : HistoryMonad V J (Unit {0}))
      → (c : Context V J) → Says ds m (push d c)
      → (run j e m (push d c)).1.gen.deltas ≡ c.gen.deltas ++ d ∷ ds
  unfolding push push_delta
  one_more d ds m c h = h ∙ append_assoc c.gen.deltas (d ∷ []) ds

  insert_examples-Says :
      (n : ℕ) (xs : List Example) (c : Context V J) → Says (said r n xs) (insert_examples r n xs) c
  unfolding insert_examples insert_example run then_monad bind insert_string perform_action
      continue_with
  insert_examples-Says n [] c = sym (append-nil c.gen.deltas)
  insert_examples-Says n ((role, inl err) ∷ xs) c = sym (append-nil c.gen.deltas)
  insert_examples-Says n ((assistant, inr t) ∷ xs) c =
      one_more _ (said r (suc n) xs) (insert_examples r (suc n) xs) c
        (insert_examples-Says (suc n) xs _)
  insert_examples-Says n ((instructions, inr t) ∷ xs) c =
      one_more _ (said r (suc n) xs) (insert_examples r (suc n) xs) c
        (insert_examples-Says (suc n) xs _)
  insert_examples-Says n ((executed, inr t) ∷ xs) c =
      one_more _ (said r (suc n) xs) (insert_examples r (suc n) xs) c
        (insert_examples-Says (suc n) xs _)
  insert_examples-Says n ((other_role name, inr t) ∷ xs) c = sym (append-nil c.gen.deltas)

  loaded-Says :
      (o : ℕ ⊎ List Example) (c : Context V J)
      → Says (said_of r o) (or_throw o (insert_examples r 1)) c
  unfolding or_throw run
  loaded-Says (inl err) c = sym (append-nil c.gen.deltas)
  loaded-Says (inr xs) c = insert_examples-Says 1 xs c

  few_shot-Says :
      (c : Context V J) → Says (said_of r (r.examples c.session)) (few_shot_examples r) c
  unfolding few_shot_examples run perform_action continue_with immediate
  few_shot-Says c = loaded-Says (r.examples c.session) c

  chosen-Says :
      (is_function : Bool) (c : Context V J)
      → Says
          (if is_function then [] else said_of r (r.examples c.session))
          (if is_function then pure tt else few_shot_examples r)
          c
  unfolding run
  chosen-Says true c = sym (append-nil c.gen.deltas)
  chosen-Says false c = few_shot-Says c

  after_prompt-Says :
      (p : SystemPrompt) (c : Context V J)
      → Says (few_said r p c.session) (after_prompt r p c.session) c
  unfolding after_prompt run
  after_prompt-Says no_system c = chosen-Says c.session.is_function c
  after_prompt-Says (plain_system t) c = sym (append-nil c.gen.deltas)
  after_prompt-Says (template_system n) c = sym (append-nil c.gen.deltas)

  -- The computation after the prompt.
  abbrev with_prompt : SystemPrompt → SessionInfo → Text → HistoryMonad V J (Unit {0})
  with_prompt p s t =
      then_monad (insert_string (r.id 0) t (role_object system)) (after_prompt r p s)

  run-system_monad :
      (p : SystemPrompt) (c : Context V J)
      → run j e (system_monad r p) c
        ≡ continue_with j e
            (ended (rendered r p c.session c.is_python) c)
            (λ t c'. run j e (with_prompt p c.session t) c')
  unfolding system_monad run perform_action continue_with immediate
  run-system_monad p c =
      run-bind j e (system_prompt r p) (with_prompt p c.session) c
      ∙ ap (λ x. continue_with j e x (λ t c'. run j e (with_prompt p c.session t) c'))
          (run-system_prompt p c)

  -- Where no prompt can be rendered the monad raises and leaves the context alone.
  pub run-system_monad-raises :
      (p : SystemPrompt) (c : Context V J) (err : ℕ)
      → rendered r p c.session c.is_python ≡ inl err
      → run j e (system_monad r p) c ≡ (inl (continuation_raised err), c)
  unfolding continue_with
  run-system_monad-raises p c err h =
      run-system_monad p c
      ∙ ap (λ o. continue_with j e (ended o c) (λ t c'. run j e (with_prompt p c.session t) c')) h

  -- Else the chat gets the prompt and then the examples, as far as they can be said.
  pub system_monad-Says :
      (p : SystemPrompt) (c : Context V J) (t : Text)
      → rendered r p c.session c.is_python ≡ inr t
      → Says (text_delta (r.id 0) t system ∷ few_said r p c.session) (system_monad r p) c
  unfolding continue_with run then_monad bind insert_string perform_action push push_delta
  system_monad-Says p c t h =
      ap (λ x. x.1.gen.deltas)
        (run-system_monad p c
          ∙ ap (λ o. continue_with j e (ended o c) (λ t c'. run j e (with_prompt p c.session t) c'))
              h)
      ∙ one_more (text_delta (r.id 0) t system) (few_said r p c.session)
          (after_prompt r p c.session) c
          (after_prompt-Says p (push (text_delta (r.id 0) t system) c))
