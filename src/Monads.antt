-- ===== src/Monads.antt =====
-- `src/com/abstract.py`, `actions_basic.py`, `monads_basic.py` and `Context.run` of
-- `src/com/context.py`: computations on the chat as trees of actions, and the loop that performs
-- them. `V` is the type of captured values, `J` that of Python's dicts of JSON values.
pub mod Laws
pub mod History
pub mod Tests
use agentica_server.Base.{
  ℕ, ◌+◌, ◌⊎◌, inl, inr, Bool, true, false, not, Option, none, some, List, [], ◌∷◌, ◌++◌,
  if◌then◌else◌, Dict, get, put,
}
use agentica_server.Inference.Deltas.{Text, Role, RoleType, from_name, eos, Json, Generated}
use agentica_server.Inference.Model.{GenModel, push_delta}
use agentica_server.Inference.Rounds.{ModelInference, Failure, Endpoint, Effect, perform}

-- The fields of `ReplSessionInfo` that the monads read.
pub record SessionInfo : Type 0 where
  pub is_function : Bool
  pub is_returning_text : Bool

-- The actions; `insert` has the fresh id that `uuid4` returns, `log_code_block` that of the block.
pub data Action (V J : Type 0) : Type 0 where
  noop sdk_is_python get_session_info : Action V J
  insert : ℕ → Text → Role → Action V J
  capture_value : ℕ → V → Action V J
  retrieve_value : ℕ → Action V J
  send_log_message : ℕ → Action V J
  log_code : ℕ → Text → Action V J
  log_result : Text → ℕ → Action V J
  model_inference : ModelInference → Action V J
  insert_delta : Generated J → Action V J

-- The type of the value that an action produces. (`InsertDelta` returns the context, which is the
-- state that every action has anyway.)
abbrev pub Produced : {V J : Type 0} → Action V J → Type 0
Produced sdk_is_python = Bool
Produced get_session_info = SessionInfo
Produced {V} (capture_value name x) = V
Produced {V} (retrieve_value name) = V
Produced (log_code id code) = ℕ
Produced {V} {J} (model_inference x) = Generated J
Produced _ = Unit

-- HistoryMonad, with its two subclasses. `throw` stands where a continuation raises instead of
-- returning a monad.
pub data HistoryMonad (V J A : Type 0) : Type 0 where
  pure : A → HistoryMonad V J A
  do_action : (a : Action V J) → (Produced a → HistoryMonad V J A) → HistoryMonad V J A
  throw : ℕ → HistoryMonad V J A

-- What goes to the log of the invocation.
pub data LogEntry : Type 0 where
  log_message : ℕ → LogEntry
  code_block : ℕ → Text → LogEntry
  execute_result : Text → ℕ → LogEntry

pub record Context (V J : Type 0) : Type 0 where
  pub gen : GenModel J
  pub captures : Dict V
  pub is_python : Bool
  pub session : SessionInfo
  pub has_invocation : Bool
  pub log : List LogEntry
  pub effects : List (Effect J)

-- An exception that leaves `run`.
pub data Raised : Type 0 where
  key_error : ℕ → Raised
  inference_failed : Failure → Raised
  continuation_raised : ℕ → Raised

module _ {V J : Type 0} where
  unfoldable pub bind :
      {A B : Type 0} → HistoryMonad V J A → (A → HistoryMonad V J B) → HistoryMonad V J B
  bind (pure x) f = f x
  bind (do_action a k) f = do_action a (λ b. bind (k b) f)
  bind (throw err) f = throw err

  -- HistoryMonad.immediate
  unfoldable pub immediate : {A : Type 0} → (Unit {0} → HistoryMonad V J A) → HistoryMonad V J A
  immediate f = do_action noop f

  -- m1 >> m2, for a monad m2
  unfoldable pub then_monad :
      {A B : Type 0} → HistoryMonad V J A → HistoryMonad V J B → HistoryMonad V J B
  unfolding bind
  then_monad m n = bind m (λ _. n)

  unfoldable pub bypass : {A B : Type 0} → (A → HistoryMonad V J B) → A → HistoryMonad V J A
  unfolding then_monad
  bypass f x = then_monad (f x) (pure x)

  unfoldable pub combine :
      {A B : Type 0} → HistoryMonad V J A → HistoryMonad V J B → HistoryMonad V J (A × B)
  unfolding bind
  combine m1 m2 = bind m1 (λ x1. bind m2 (λ x2. pure (x1, x2)))

  unfoldable pub lift : {A B : Type 0} → (A → B) → A → HistoryMonad V J B
  lift f a = pure (f a)

  unfoldable pub insert_string : ℕ → Text → RoleType → HistoryMonad V J (Unit {0})
  unfolding from_name
  insert_string id content name = do_action (insert id content (from_name name)) pure

  unfoldable pub capture : ℕ → HistoryMonad V J V → HistoryMonad V J V
  unfolding bind
  capture name m = bind m (λ x. do_action (capture_value name x) pure)

  unfoldable pub retrieve : ℕ → HistoryMonad V J V
  retrieve name = do_action (retrieve_value name) pure

  unfoldable pub not_m : HistoryMonad V J Bool → HistoryMonad V J Bool
  unfolding bind
  not_m m = bind m (λ b. pure (not b))

  unfoldable pub if_m :
      {A : Type 0}
      → HistoryMonad V J Bool
      → HistoryMonad V J A
      → HistoryMonad V J A
      → HistoryMonad V J A
  unfolding bind
  if_m cond m n = bind cond (λ c. if c then m else n)

  unfoldable pub when : Bool → HistoryMonad V J (Unit {0}) → HistoryMonad V J (Unit {0})
  when cond m = if cond then m else pure tt

  unfoldable pub guard :
      Bool → HistoryMonad V J (Unit {0}) → HistoryMonad V J (Unit {0}) → HistoryMonad V J (Unit {0})
  guard cond consequent alternative = if cond then consequent else alternative

  unfoldable pub push : Generated J → Context V J → Context V J
  unfolding push_delta
  push d c = record c { gen = push_delta d c.gen }

  unfoldable pub write_log : LogEntry → Context V J → Context V J
  write_log entry c = if c.has_invocation then record c { log = c.log ++ entry ∷ [] } else c

-- The endpoint may answer each round by the whole chat.
module _ {V J : Type 0} (j : Json J) (e : Context V J → Endpoint J) where
  -- The `perform` of each action.
  unfoldable pub perform_action :
      (a : Action V J) → Context V J → (Raised ⊎ Produced a) × Context V J
  unfolding push write_log
  perform_action noop c = (inr tt, c)
  perform_action sdk_is_python c = (inr c.is_python, c)
  perform_action get_session_info c = (inr c.session, c)
  perform_action (insert id content role) c = (
    inr tt,
    push
        (record {
          id = id;
          name = role;
          content = some content;
          usage = none;
          end = eos;
          reasoning_content = none;
          annotations = none;
          audio = none;
          refusal = none;
        })
        c,
  )
  perform_action (capture_value name x) c = (inr x, record c { captures = put name x c.captures })
  perform_action (retrieve_value name) c =
      (elim (get name c.captures) [ none ↦ inl (key_error name) | some x ↦ inr x ], c)
  perform_action (send_log_message m) c = (inr tt, write_log (log_message m) c)
  perform_action (log_code id code) c = (inr id, write_log (code_block id code) c)
  perform_action (log_result result id) c = (inr tt, write_log (execute_result result id) c)
  perform_action (model_inference x) c =
      let (out, r, gen) = perform j (e c) x c.gen in
      (
        elim r [ inl f ↦ inl (inference_failed f) | inr d ↦ inr d ],
        record c { gen = gen; effects = c.effects ++ out },
      )
  perform_action (insert_delta d) c = (inr tt, push d c)

  -- What the loop does with the result of an action.
  unfoldable pub continue_with :
      {B A : Type 0}
      → (Raised ⊎ B) × Context V J
      → (B → Context V J → (Raised ⊎ A) × Context V J)
      → (Raised ⊎ A) × Context V J
  continue_with (inl r, c) k = (inl r, c)
  continue_with (inr b, c) k = k b c

  -- Context.run
  unfoldable pub run : {A : Type 0} → HistoryMonad V J A → Context V J → (Raised ⊎ A) × Context V J
  unfolding perform_action continue_with
  run (pure x) c = (inr x, c)
  run (do_action a k) c = continue_with (perform_action a c) (λ b c'. run (k b) c')
  run (throw err) c = (inl (continuation_raised err), c)
