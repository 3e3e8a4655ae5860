-- ===== src/Agent/Tests.antt =====
-- A small agent of `src/agentic/agent.py`: tests, and the theorems at work.
use agentica_server.Base.{
  ℕ, ◌≡◌, refl, ◌⊎◌, inl, inr, Bool, true, false, none, some, List, [], ◌∷◌, arith,
}
use agentica_server.Tags.{Text}
use agentica_server.Inference.Deltas.{role_name, user_name, agent, system}
use agentica_server.Monads.{run, HistoryMonad, Context, insert_string}
use agentica_server.Interaction.Tests.{numbers, answers, around, fresh}
use agentica_server.Agent.{Agent, data_message, other_message, cancelled, raised, init, done}
use agentica_server.Agent.Running.{call}
use agentica_server.Agent.Prompts.{IsOver, call_ends}
use agentica_server.Agent.System.{IsRefused, IsInserted, ensure_system_message_once}
use agentica_server.Interaction.SystemPrompt.{
  no_system, assistant, executed, other_role, Rendering, system_monad,
}
use agentica_server.Interaction.SystemChat.{text_delta}
use agentica_server.Agent.Tasks.{
  Event, starts, sets_up, delivers, cancels, fails, finishes, happen_all, IsPaired, done-happen_all,
}
use agentica_server.Agent.Inbox.{a_run, IsFinished, a_run-IsFinished}
use agentica_server.Agent.Closing.{IsClosed, close, close-IsClosed}

an_agent : Agent ℕ ℕ
unfolding init
an_agent = init 20 false fresh

abbrev none_done : ℕ → Bool
none_done t = false

abbrev ask : ℕ → HistoryMonad ℕ ℕ (Unit {0})
unfolding insert_string
ask n = insert_string n (n ∷ []) (role_name user_name)

-- With a limit of tokens, of which some are spent.
abbrev spent : Context ℕ ℕ
spent = record fresh {
  gen = record fresh.gen {
    max_invocation_tokens = some 9;
    max_completion_tokens = some 2;
    inference_rounds_count = 1;
  };
}

call_ends_example : IsOver around 1 spent (call around 3 (ask 1) spent [])
call_ends_example = call_ends around 3 1 (ask 1) spent [] (refl, omega arith) (omega arith)

-- Two examples, of which the second has no valid role.
abbrev rendering : Rendering
rendering = record {
  formatted = λ n s. inl 3;
  from_file = λ s b. inr (5 ∷ 6 ∷ []);
  dedented = λ t. t;
  examples = λ s.
      inr
        ((assistant, inr (7 ∷ [])) ∷ (other_role (8 ∷ []), inr (9 ∷ [])) ∷ (executed, inl 4) ∷ []);
  invalid_role = λ t. 2;
  id = λ n. n;
}

ensure_system_message_once_example :
    ((err : ℕ) × (◌≡◌ {A = ℕ ⊎ Text} (inr (5 ∷ 6 ∷ [])) (inl err))
      × IsRefused numbers (λ c. answers) rendering no_system err fresh an_agent)
    ⊎ ((t : Text) × (◌≡◌ {A = ℕ ⊎ Text} (inr (5 ∷ 6 ∷ [])) (inr t))
        × IsInserted numbers (λ c. answers) rendering no_system t fresh an_agent)
unfolding an_agent
ensure_system_message_once_example =
    ensure_system_message_once numbers (λ c. answers) rendering no_system fresh an_agent refl refl

said_test :
    (run numbers (λ c. answers) (system_monad rendering no_system) fresh).1.gen.deltas
    ≡ text_delta 0 (5 ∷ 6 ∷ []) system ∷ text_delta 1 (7 ∷ []) agent ∷ []
unfolding run system_monad
said_test = refl

abbrev events : List Event
events =
    starts 40 1 2
    ∷ starts 41 3 4
    ∷ sets_up 40 true
    ∷ delivers (data_message 40 7)
    ∷ fails none_done 9
    ∷ finishes none_done none_done 1 2 cancelled
    ∷ cancels none_done none
    ∷ []

done-happen_all_test :
    IsPaired (happen_all events an_agent).1 × (done (happen_all events an_agent).1 ≡ false)
unfolding an_agent
done-happen_all_test = done-happen_all events an_agent refl

a_run-IsFinished_example : IsFinished 40 1 2 none_done (raised 9) (7 ∷ 8 ∷ []) (
    happen_all
      (a_run 40 1 2 true
        (data_message 40 7 ∷ data_message 39 6 ∷ other_message ∷ data_message 40 8 ∷ [])
        none_done
        none_done
        (raised 9))
      an_agent)
unfolding an_agent
a_run-IsFinished_example =
    a_run-IsFinished 40 1 2 true
      (data_message 40 7 ∷ data_message 39 6 ∷ other_message ∷ data_message 40 8 ∷ []) none_done
      none_done (raised 9) [] fresh an_agent refl refl refl

close-IsClosed_example : IsClosed an_agent (close an_agent)
unfolding an_agent
close-IsClosed_example = close-IsClosed an_agent (refl, refl, refl, refl, refl)
