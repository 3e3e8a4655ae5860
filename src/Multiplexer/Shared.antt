-- ===== src/Multiplexer/Shared.antt =====
-- The session manager of `src/server_session_manager/server_session_manager.py` as the server that
-- a multiplexer of `src/server_session_manager/multiplexer.py` runs against.
use agentica_server.Base.{ℕ, ◌+◌, ◌≡◌, refl, sym, ◌∙◌, Option, List, arith}
use agentica_server.Base.Int.{pos, ◌+ℤ◌, +ℤ_zero}
use agentica_server.Sessions.{Manager, Config, create_invocation, destroy_invocation}
use agentica_server.Multiplexer.{Server, init}
use agentica_server.Multiplexer.Steps.{Step, run_steps}
use agentica_server.Multiplexer.Slots.{Limiter, AreFresh, lost_on, live, run_steps-slots}

-- `ids` reads an agent's session id and session manager id.
abbrev pub manager_server :
    {M L S A : Type 0} → Config → (A → Option ℕ × Option ℕ) → Server A (Manager M L S A)
manager_server c ids = record {
  agents = λ m. m.agents;
  create_invocation = create_invocation c;
  destroy_invocation = destroy_invocation;
  session_id = λ a. (ids a).0;
  session_manager_id = λ a. (ids a).1;
}

module _ {M L S A : Type 0} (c : Config) (ids : A → Option ℕ × Option ℕ) where
  manager-Limiter :
      Limiter (manager_server {M = M} {L = L} {S = S} c ids) (λ m. m.concurrent_invocations)
  unfolding create_invocation destroy_invocation
  manager-Limiter = record {
    granted = λ m e. ground arith;
    refused = λ m e. ground arith;
    given_back = λ m. refl;
  }

  -- Over one connection, from its start: the server's count of concurrent invocations grows by the
  -- tasks that are still alive and by the cancellations that struck a task outside its `try` block.
  pub connection_count :
      (sts : List Step) (m : Manager M L S A)
      → AreFresh (manager_server c ids) sts init m
      → (run_steps (manager_server c ids) sts init m).2.concurrent_invocations
        ≡ m.concurrent_invocations
          +ℤ pos (
              live (run_steps (manager_server c ids) sts init m).1.tasks
              + lost_on (manager_server c ids) sts init m)
  connection_count sts m f =
      sym (+ℤ_zero (run_steps (manager_server c ids) sts init m).2.concurrent_invocations)
      ∙ run_steps-slots (manager_server c ids) (λ m. m.concurrent_invocations) manager-Limiter sts
          init m f
