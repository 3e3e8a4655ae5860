-- ===== src/Multiplexer.antt =====
-- `src/server_session_manager/multiplexer.py`: the invocations of one connection. Each handler and
-- each stretch of `_run_invocation` between two awaits is a function on the multiplexer, what it
-- shares with other connections (`W`) and what it sends. The event loop's tasks are part of the
-- state: a task that is popped from `_invocation_tasks` goes on running.
pub mod Protocol
pub mod Requests
pub mod Steps
pub mod Slots
pub mod Shared
pub mod Endings
pub mod Shutdown
pub mod Tests
pub use Protocol.*
use agentica_server.Base.{
  ℕ, Bool, true, false, Option, none, some, List, [], ◌∷◌, ◌++◌, ◌==◌, if◌then◌else◌, Dict, get,
  has, put, erase, keys,
}

-- `AgentContext`; the legacy and OpenTelemetry notifiers send to the connection's own transport.
pub record AgentContext (A : Type 0) : Type 0 where
  pub uid : ℕ
  pub agent : A

-- Where a task of `_run_invocation` is suspended: not yet started, in `on_enter`, in the `try`
-- block, in the `finally` block; or it has ended.
pub data Phase : Type 0 where
  created entering running exiting ended : Phase

pub record Task : Type 0 where
  pub uid : ℕ
  pub phase : Phase

-- `tasks` are the event loop's tasks, `invocation_tasks` the iids that `_invocation_tasks` holds.
pub record Mux (A : Type 0) : Type 0 where
  pub contexts : Dict (AgentContext A)
  pub queues : Dict (List ClientMessage)
  pub invocation_tasks : Dict ℕ
  pub tasks : Dict Task

-- What the multiplexer needs of `ServerSessionContext` and of the two callbacks: the agents, and
-- the shared count of invocations.
pub record Server (A W : Type 0) : Type 0 where
  pub agents : W → Dict A
  pub create_invocation : W → Bool × W
  pub destroy_invocation : W → W
  pub session_id : A → Option ℕ
  pub session_manager_id : A → Option ℕ

-- A handler's effects in order: messages sent, and calls of `Agent.cancel(iid)`.
pub data Effect (A : Type 0) : Type 0 where
  send : Channel → ServerMessage → Effect A
  cancel_agent : A → ℕ → Effect A

abbrev pub init : {A : Type 0} → Mux A
init = record { contexts = []; queues = []; invocation_tasks = []; tasks = [] }

module _ {A W : Type 0} (s : Server A W) where
  unfoldable pub create_agent_context : ℕ → W → Option (AgentContext A)
  create_agent_context uid w = elim (get uid (s.agents w)) [
    | none ↦ none
    | some a ↦ some (record { uid = uid; agent = a })
  ]

  unfoldable pub get_or_init_context : ℕ → Mux A → W → Option (AgentContext A) × Mux A
  unfolding create_agent_context
  get_or_init_context uid m w = elim (get uid m.contexts) [
    | some ctx ↦ (some ctx, m)
    | none ↦ elim (create_agent_context uid w) [
      | none ↦ (none, m)
      | some ctx ↦ (some ctx, record m { contexts = put uid ctx m.contexts })
    ]
  ]

  -- Without a context the message goes through the notifier of the whole server.
  unfoldable pub send_error : ℕ → ℕ → ErrorName → Mux A → Effect A
  send_error uid iid name m = elim (get uid m.contexts) [
    | none ↦ send server_channel (
        error_message (record {
          iid = iid;
          name = name;
          uid = none;
          session_id = none;
          session_manager_id = none;
        }))
    | some ctx ↦ send own_channel (
        error_message (record {
          iid = iid;
          name = name;
          uid = some uid;
          session_id = s.session_id ctx.agent;
          session_manager_id = s.session_manager_id ctx.agent;
        }))
  ]

  -- An invocation of a known agent, under a fresh iid. The queue is made before the limit is
  -- checked, and stays where the limit refuses.
  unfoldable pub admit : ℕ → Invoke → Mux A → W → List (Effect A) × Mux A × W
  unfolding send_error
  admit iid v m w =
      let m' = record m { queues = put iid [] m.queues } in
      if (s.create_invocation w).0
      then (
        send own_channel (new_iid v.uid iid v.match_id) ∷ [],
        record m' {
          invocation_tasks = put iid v.uid m.invocation_tasks;
          tasks = put iid (record { uid = v.uid; phase = created }) m.tasks;
        },
        (s.create_invocation w).1,
      )
      else (send_error v.uid v.match_id too_many_invocations m' ∷ [], m', (s.create_invocation w).1)

  unfoldable pub invoke_in :
      Option (AgentContext A) → ℕ → Invoke → Mux A → W → List (Effect A) × Mux A × W
  unfolding send_error admit
  invoke_in none iid v m w = (send_error v.uid v.match_id malformed_invoke m ∷ [], m, w)
  invoke_in (some _) iid v m w = admit iid v m w

  unfoldable pub handle_invoke : ℕ → Invoke → Mux A → W → List (Effect A) × Mux A × W
  unfolding get_or_init_context invoke_in
  handle_invoke iid v m w =
      let (ctx, m') = get_or_init_context v.uid m w in invoke_in ctx iid v m' w

  -- ctx = self._uid_context.get(uid); if ctx: ctx.agent.cancel(iid)
  unfoldable pub cancel_in_context : ℕ → ℕ → Mux A → List (Effect A)
  cancel_in_context uid iid m = elim (get uid m.contexts) [
    | none ↦ []
    | some ctx ↦ cancel_agent ctx.agent iid ∷ []
  ]

  unfoldable pub handle_cancel : ℕ → ℕ → Mux A → List (Effect A) × Mux A
  unfolding send_error cancel_in_context
  handle_cancel uid iid m =
      if has iid m.queues
      then (
        cancel_in_context uid iid m,
        record m { queues = erase iid m.queues; invocation_tasks = erase iid m.invocation_tasks },
      )
      else (send_error uid iid not_running m ∷ [], m)

  unfoldable pub handle_data : ℕ → ℕ → ℕ → Mux A → List (Effect A) × Mux A
  unfolding send_error
  handle_data uid iid payload m = elim (get iid m.queues) [
    | none ↦ (send_error uid iid not_running m ∷ [], m)
    | some q ↦ ([], record m { queues = put iid (q ++ message_data uid iid payload ∷ []) m.queues })
  ]

  -- `iid` is what `fresh_id` returns, if the message is an invocation.
  unfoldable pub handle_client_message : ℕ → ClientMessage → Mux A → W → List (Effect A) × Mux A × W
  unfolding handle_invoke handle_cancel handle_data
  handle_client_message iid (message_invoke v) m w = handle_invoke iid v m w
  handle_client_message iid (message_cancel uid old) m w =
      let (out, m') = handle_cancel uid old m in (out, m', w)
  handle_client_message iid (message_data uid old payload) m w =
      let (out, m') = handle_data uid old payload m in (out, m', w)
