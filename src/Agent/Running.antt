-- ===== src/Agent/Running.antt =====
-- What an agent of `src/agentic/agent.py` runs on its context: the system message, then the task.
use agentica_server.Base.{ℕ, ◌⊎◌, inl, inr, Bool, true, false, Option, none, some, List, [], ◌∷◌}
use agentica_server.Inference.Deltas.{Json}
use agentica_server.Inference.Model.{GenModel, finish_invocation}
use agentica_server.Inference.Rounds.{Endpoint}
use agentica_server.Monads.{Context, HistoryMonad, Raised, run}
use agentica_server.Interaction.{Surroundings, Turn, raised, interaction_monad}
use agentica_server.Agent.{Agent}

-- Why `_ensure_system_message` raises: the context is gone, the sandbox does not take the globals, or
-- the monad raises.
pub data Failed : Type 0 where
  no_context : Failed
  update_failed : ℕ → Failed
  run_raised : Raised → Failed

abbrev pub is_empty_list {ℓ} : {A : Type ℓ} → List A → Bool
is_empty_list [] = true
is_empty_list (x ∷ xs) = false

-- not self.inference_context.gen.deltas
abbrev pub is_fresh : {J : Type 0} → GenModel J → Bool
is_fresh g = is_empty_list g.deltas

module _ {V J : Type 0} (j : Json J) (e : Context V J → Endpoint J) where
  -- `updated` is the exception of `repl_update`, if any. A monad that raises leaves the mark set.
  unfoldable pub inserted :
      (Raised ⊎ Unit {0}) × Context V J → Agent V J → (Failed ⊎ Unit {0}) × Agent V J
  inserted (inl r, c) a =
      (inl (run_raised r), record a { context = some c; sending_system_message = true })
  inserted (inr x, c) a = (inr x, record a { context = some c; sending_system_message = false })

  unfoldable pub ensure_system_message :
      Option ℕ → HistoryMonad V J (Unit {0}) → Agent V J → (Failed ⊎ Unit {0}) × Agent V J
  unfolding inserted run
  ensure_system_message updated init_monad a = elim a.context [
    | none ↦ (inl no_context, a)
    | some c ↦ elim (is_fresh c.gen) [
      | false ↦ (inr tt, a)
      | true ↦ elim updated [
        | some err ↦ (inl (update_failed err), a)
        | none ↦ inserted (run j e init_monad c) a
      ]
    ]
  ]

module _ {V J S : Type 0} (m : Surroundings V J S) where
  unfoldable pub finished : Turn × Context V J × S → Turn × Context V J × S
  unfolding finish_invocation
  finished (t, c, s) = (t, record c { gen = finish_invocation c.gen }, s)

  unfoldable pub after_user :
      ℕ → (Raised ⊎ Unit {0}) × Context V J → S → Option (Turn × Context V J × S)
  unfolding interaction_monad finished
  after_user k (inl r, c) s = some (finished (raised r, c, s))
  after_user k (inr x, c) s = elim (interaction_monad m k c s) [
    | none ↦ none
    | some r ↦ some (finished r)
  ]

  -- `call`: `user_monad >> interaction_monad`, and the `finally` clause.
  unfoldable pub call :
      ℕ → HistoryMonad V J (Unit {0}) → Context V J → S → Option (Turn × Context V J × S)
  unfolding after_user run
  call k user_monad c s = after_user k (run m.json m.endpoint user_monad c) s
