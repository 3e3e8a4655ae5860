-- ===== src/Multiplexer/Shutdown.antt =====
-- The end of `Multiplexer.run` of `src/server_session_manager/multiplexer.py`, after its reader has
-- stopped.
use agentica_server.Base.{
  ℕ, ◌≡◌, refl, true, List, [], ◌∷◌, ◌++◌, arith, ◌==◌, Dict, has, keys, Bool-cases, inl, inr,
  ==_iff,
}
use agentica_server.Multiplexer.{Mux, AgentContext, Server, Effect, cancel_agent}
use agentica_server.Multiplexer.Steps.{Outcome, Step, leave, cancel_task, on_task, step, run_steps}
use agentica_server.Multiplexer.Endings.{
  Ending, IsOver, cancel_ends, leave_ends, cancel_keeps, leave_keeps_Ending, leave_keeps_IsOver,
}

-- `Agent.cancel()` without an iid, for each context.
unfoldable pub cancel_agents : {A : Type 0} → Dict (AgentContext A) → List (Effect A)
cancel_agents [] = []
cancel_agents ((uid, ctx) ∷ rest) = cancel_agent ctx.agent 0 ∷ cancel_agents rest

-- `task.cancel()` for each tracked task.
unfoldable pub cancel_all : (ℕ → Outcome) → List ℕ → List Step
cancel_all ends [] = []
cancel_all ends (iid ∷ iids) = cancel_task iid (ends iid) ∷ cancel_all ends iids

-- `asyncio.gather`: each runs to its end.
unfoldable pub gather : List ℕ → List Step
gather [] = []
gather (iid ∷ iids) = leave iid ∷ gather iids

module _ {A W : Type 0} (s : Server A W) where
  -- `ends` says how `Agent.run` ends where it is cancelled.
  unfoldable pub shutdown : (ℕ → Outcome) → Mux A → W → List (Effect A) × Mux A × W
  unfolding cancel_agents cancel_all gather
  shutdown ends m w =
      let iids = keys m.invocation_tasks in
      let (out, m', w') = run_steps s (cancel_all ends iids) m w in
      let (more, m'', w'') = run_steps s (gather iids) m' w' in
      (
        cancel_agents m.contexts ++ out ++ more,
        record m'' { invocation_tasks = []; contexts = [] },
        w'',
      )

  cancel_all-keeps :
      (ends : ℕ → Outcome) (iids : List ℕ) (j : ℕ) (m : Mux A) (w : W)
      → Ending s j m
      → Ending s j (run_steps s (cancel_all ends iids) m w).1
  unfolding cancel_all run_steps step
  cancel_all-keeps ends [] j m w h = h
  cancel_all-keeps ends (iid ∷ iids) j m w h =
      cancel_all-keeps ends iids j (on_task s (cancel_task iid (ends iid)) iid m w).1
        (on_task s (cancel_task iid (ends iid)) iid m w).2 (cancel_keeps s iid j (ends iid) m w h)

  cancel_all-ends :
      (ends : ℕ → Outcome) (d : Dict ℕ) (j : ℕ) (m : Mux A) (w : W)
      → has j d ≡ true
      → Ending s j (run_steps s (cancel_all ends (keys d)) m w).1
  unfolding cancel_all run_steps step keys has
  cancel_all-ends ends [] j m w h = absurd (cc)
  cancel_all-ends ends ((iid, uid) ∷ d) j m w h =
      let m1 = (on_task s (cancel_task iid (ends iid)) iid m w).1 in
      let w1 = (on_task s (cancel_task iid (ends iid)) iid m w).2 in
      elim (Bool-cases (iid == j)) [
        | inl e ↦
            cancel_all-keeps ends (keys d) j m1 w1
              (rw (← (==_iff iid j).0 e) (cancel_ends s iid (ends iid) m w))
        | inr e ↦ cancel_all-ends ends d j m1 w1 (ground arith)
      ]

  gather-keeps :
      (iids : List ℕ) (j : ℕ) (m : Mux A) (w : W)
      → IsOver s j m
      → IsOver s j (run_steps s (gather iids) m w).1
  unfolding gather run_steps step
  gather-keeps [] j m w h = h
  gather-keeps (iid ∷ iids) j m w h =
      gather-keeps iids j (on_task s (leave iid) iid m w).1 (on_task s (leave iid) iid m w).2
        (leave_keeps_IsOver s iid j m w h)

  gather-ends :
      (d : Dict ℕ) (j : ℕ) (m : Mux A) (w : W)
      → has j d ≡ true
      → Ending s j m
      → IsOver s j (run_steps s (gather (keys d)) m w).1
  unfolding gather run_steps step keys has
  gather-ends [] j m w h q = absurd (cc)
  gather-ends ((iid, uid) ∷ d) j m w h q =
      let m1 = (on_task s (leave iid) iid m w).1 in
      let w1 = (on_task s (leave iid) iid m w).2 in
      elim (Bool-cases (iid == j)) [
        | inl e ↦
            let q' : Ending s iid m = rw ((==_iff iid j).0 e) q in
            gather-keeps (keys d) j m1 w1 (rw (← (==_iff iid j).0 e) (leave_ends s iid m w q'))
        | inr e ↦ gather-ends d j m1 w1 (ground arith) (leave_keeps_Ending s iid j m w q)
      ]

  -- When the connection ends, every task that is still tracked is over at the end of the shutdown,
  -- wherever it was suspended, and nothing is tracked any more. (A task that a cancel message has
  -- popped is not tracked.)
  pub shutdown_ends_tracked :
      (ends : ℕ → Outcome) (m : Mux A) (w : W)
      → ((j : ℕ) → has j m.invocation_tasks ≡ true → IsOver s j (shutdown ends m w).1)
        × ((shutdown ends m w).1.invocation_tasks ≡ [])
        × ((shutdown ends m w).1.contexts ≡ [])
  unfolding shutdown
  shutdown_ends_tracked ends m w = (
    (λ j h.
        gather-ends m.invocation_tasks j
          (run_steps s (cancel_all ends (keys m.invocation_tasks)) m w).1
          (run_steps s (cancel_all ends (keys m.invocation_tasks)) m w).2 h
          (cancel_all-ends ends m.invocation_tasks j m w h)),
    refl,
    refl,
  )
