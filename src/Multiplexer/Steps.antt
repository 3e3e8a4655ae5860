-- ===== src/Multiplexer/Steps.antt =====
-- `_run_invocation` of `src/server_session_manager/multiplexer.py`, as the stretches between its
-- awaits, and the reader's messages: one step of the event loop at a time, in any order.
use agentica_server.Base.{ℕ, none, some, List, [], ◌∷◌, ◌++◌, if◌then◌else◌, get, has, put, erase}
use agentica_server.Multiplexer.{
  Mux, Task, Phase, created, entering, running, exiting, ended, Server, Effect, send, ClientMessage,
  own_channel, error_message, invocation_event, enter, error, exit, internal_server_error,
  cancel_in_context, handle_client_message,
}

-- How `ctx.agent.run` ends: it returns, it raises `RequestTooLargeError`, or anything else.
pub data Outcome : Type 0 where
  returned too_large raised : Outcome

-- The reader handles a message, with the iid that a new invocation would get; or a task goes on: it
-- runs to its first await, from `on_enter` into the `try` block, from there into the `finally`
-- block, through that block; or it is cancelled where it is suspended, which `Agent.run` turns into
-- one of its outcomes.
pub data Step : Type 0 where
  receive : ℕ → ClientMessage → Step
  start begin leave : ℕ → Step
  finish cancel_task : ℕ → Outcome → Step

unfoldable pub set_phase : {A : Type 0} → ℕ → Task → Phase → Mux A → Mux A
set_phase iid t p m = record m { tasks = put iid (record { uid = t.uid; phase = p }) m.tasks }

module _ {A W : Type 0} (s : Server A W) where
  -- The `except BaseException` clause: `on_exception`, then `ctx.agent.cancel(iid)`.
  unfoldable pub on_exception : ℕ → Task → Mux A → List (Effect A)
  unfolding cancel_in_context
  on_exception iid t m =
      send own_channel (
        error_message (record {
          iid = iid;
          name = internal_server_error;
          uid = some t.uid;
          session_id = none;
          session_manager_id = none;
        }))
      ∷ send own_channel (invocation_event t.uid iid error)
      ∷ cancel_in_context s t.uid iid m

  unfoldable pub on_outcome : Outcome → ℕ → Task → Mux A → List (Effect A)
  unfolding on_exception
  on_outcome raised iid t m = on_exception iid t m
  on_outcome _ iid t m = []

  -- The clauses of `except`, on the way into `finally`.
  unfoldable pub to_finally : Outcome → ℕ → Task → Mux A → W → List (Effect A) × Mux A × W
  unfolding on_outcome set_phase
  to_finally o iid t m w = (on_outcome o iid t m, set_phase iid t exiting m, w)

  -- `self._iid_recv_queue[iid].get` raises where a cancellation has popped the queue.
  unfoldable pub enter_try : ℕ → Task → Mux A → W → List (Effect A) × Mux A × W
  unfolding to_finally set_phase
  enter_try iid t m w =
      if has iid m.queues then ([], set_phase iid t running m, w) else to_finally raised iid t m w

  -- `on_exit`, the queue, and `_destroy_invocation`.
  unfoldable pub do_finally : ℕ → Task → Mux A → W → List (Effect A) × Mux A × W
  unfolding set_phase
  do_finally iid t m w = (
    send own_channel (invocation_event t.uid iid exit) ∷ [],
    set_phase iid t ended (record m { queues = erase iid m.queues }),
    s.destroy_invocation w,
  )

  -- A step of one task, by the phase that it is in. A cancellation outside the `try` block ends the
  -- task at once: `finally` has not been entered, or does not get past its own await.
  unfoldable pub task_step : Step → ℕ → Task → Phase → Mux A → W → List (Effect A) × Mux A × W
  unfolding to_finally enter_try do_finally set_phase
  task_step (start _) iid t created m w =
      (send own_channel (invocation_event t.uid iid enter) ∷ [], set_phase iid t entering m, w)
  task_step (begin _) iid t entering m w = enter_try iid t m w
  task_step (finish _ o) iid t running m w = to_finally o iid t m w
  task_step (leave _) iid t exiting m w = do_finally iid t m w
  task_step (cancel_task _ o) iid t running m w = to_finally o iid t m w
  task_step (cancel_task _ _) iid t ended m w = ([], m, w)
  task_step (cancel_task _ _) iid t _ m w = ([], set_phase iid t ended m, w)
  task_step _ iid t _ m w = ([], m, w)

  unfoldable pub on_task : Step → ℕ → Mux A → W → List (Effect A) × Mux A × W
  unfolding task_step
  on_task st iid m w = elim (get iid m.tasks) [
    | none ↦ ([], m, w)
    | some t ↦ task_step st iid t t.phase m w
  ]

  unfoldable pub step : Step → Mux A → W → List (Effect A) × Mux A × W
  unfolding on_task
  step (receive iid msg) m w = handle_client_message s iid msg m w
  step (start iid) m w = on_task (start iid) iid m w
  step (begin iid) m w = on_task (begin iid) iid m w
  step (finish iid o) m w = on_task (finish iid o) iid m w
  step (leave iid) m w = on_task (leave iid) iid m w
  step (cancel_task iid o) m w = on_task (cancel_task iid o) iid m w

  unfoldable pub run_steps : List Step → Mux A → W → List (Effect A) × Mux A × W
  unfolding step
  run_steps [] m w = ([], m, w)
  run_steps (st ∷ sts) m w =
      let (out, m', w') = step st m w in
      let (more, m'', w'') = run_steps sts m' w' in (out ++ more, m'', w'')
