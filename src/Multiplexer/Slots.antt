-- ===== src/Multiplexer/Slots.antt =====
-- The account of the shared invocation slots over every interleaving of the tasks of
-- `src/server_session_manager/multiplexer.py`.
use agentica_server.Base.{
  ℕ, ◌+◌, ◌≡◌, refl, true, false, Option, none, some, List, [], ◌∷◌, arith, Dict, get, has, put,
  erase, Bool-cases, Option-cases, inl, inr,
}
use agentica_server.Base.Int.{ℤ, pos, ◌+ℤ◌, ◌-ℤ◌, int_laws, account_trans, account_end}
use agentica_server.Multiplexer.{
  Mux, Task, Phase, created, entering, running, exiting, ended, Server, Effect, message_invoke,
  message_cancel, message_data, Invoke, get_or_init_context, create_agent_context, AgentContext,
  admit, invoke_in, handle_invoke, handle_cancel, handle_data, handle_client_message,
}
use agentica_server.Multiplexer.Steps.{
  Step, receive, start, begin, finish, leave, cancel_task, set_phase, to_finally, enter_try,
  do_finally, task_step, on_task, step, run_steps,
}

-- What the callbacks promise about the count behind them.
pub record Limiter {A W : Type 0} (s : Server A W) (held : W → ℤ) : Type 0 where
  pub granted :
      (w : W) → (s.create_invocation w).0 ≡ true → held (s.create_invocation w).1 ≡ held w +ℤ pos 1
  pub refused :
      (w : W) → (s.create_invocation w).0 ≡ false → held (s.create_invocation w).1 ≡ held w
  pub given_back : (w : W) → held (s.destroy_invocation w) ≡ held w -ℤ pos 1

abbrev pub weight : Phase → ℕ
weight ended = 0
weight _ = 1

abbrev pub weight_of : Option Task → ℕ
weight_of none = 0
weight_of (some t) = weight t.phase

-- The tasks that have not ended.
abbrev pub live : Dict Task → ℕ
live [] = 0
live ((k, t) ∷ d) = weight t.phase + live d

live-put :
    (k : ℕ) (t : Task) (d : Dict Task)
    → live (put k t d) + weight_of (get k d) ≡ live d + weight t.phase
unfolding put get
live-put k t [] = omega arith
live-put k t ((j, u) ∷ d) = ground (arith, live-put k t d)

live-set_phase :
    {A : Type 0} (iid : ℕ) (t : Task) (p : Phase) (m : Mux A)
    → get iid m.tasks ≡ some t
    → live (set_phase iid t p m).tasks + weight t.phase ≡ live m.tasks + weight p
unfolding set_phase
live-set_phase iid t p m e =
    ground (arith, live-put iid (record { uid = t.uid; phase = p }) m.tasks)

-- A cancellation outside the `try` block.
unfoldable pub lost_by : Step → Phase → ℕ
lost_by (cancel_task _ _) created = 1
lost_by (cancel_task _ _) entering = 1
lost_by (cancel_task _ _) exiting = 1
lost_by _ _ = 0

unfoldable pub lost_at : Step → Option Task → ℕ
unfolding lost_by
lost_at st none = 0
lost_at st (some t) = lost_by st t.phase

unfoldable pub lost : {A : Type 0} → Step → Mux A → ℕ
unfolding lost_at
lost (receive _ _) m = 0
lost (start iid) m = lost_at (start iid) (get iid m.tasks)
lost (begin iid) m = lost_at (begin iid) (get iid m.tasks)
lost (finish iid o) m = lost_at (finish iid o) (get iid m.tasks)
lost (leave iid) m = lost_at (leave iid) (get iid m.tasks)
lost (cancel_task iid o) m = lost_at (cancel_task iid o) (get iid m.tasks)

-- An iid that is issued is new to the event loop.
abbrev pub IsFresh : {A : Type 0} → Step → Mux A → Type 0
IsFresh (receive iid _) m = get iid m.tasks ≡ none
IsFresh _ m = Unit

module _ {A W : Type 0} (s : Server A W) where
  -- Every iid that is issued on the way is new.
  abbrev pub AreFresh : List Step → Mux A → W → Type 0
  AreFresh [] m w = Unit
  AreFresh (st ∷ sts) m w = IsFresh st m × AreFresh sts (step s st m w).1 (step s st m w).2

  -- The cancellations on the way that strike a task outside its `try` block.
  abbrev pub lost_on : List Step → Mux A → W → ℕ
  lost_on [] m w = 0
  lost_on (st ∷ sts) m w = lost st m + lost_on sts (step s st m w).1 (step s st m w).2

module _ {A W : Type 0} (s : Server A W) (held : W → ℤ) (law : Limiter s held) where
  -- The slots held and the tasks alive change by the same number, but for `n` lost slots.
  abbrev Accounted : ℕ → Mux A → W → List (Effect A) × Mux A × W → Type 0
  Accounted n m w (_, m', w') = held w' +ℤ pos (live m.tasks) ≡ held w +ℤ pos (live m'.tasks + n)

  task_step-Accounted :
      (st : Step) (iid : ℕ) (t : Task) (p : Phase) (m : Mux A) (w : W)
      → get iid m.tasks ≡ some t
      → t.phase ≡ p
      → Accounted (lost_by st p) m w (task_step s st iid t p m w)
  unfolding task_step to_finally enter_try do_finally lost_by
  task_step-Accounted (start _) iid t created m w e q =
      grind (int_laws, live-set_phase iid t entering m e, q)
  task_step-Accounted (begin _) iid t entering m w e q = elim (Bool-cases (has iid m.queues)) [
    | inl b ↦ rw b (grind (int_laws, live-set_phase iid t running m e, q))
    | inr b ↦ rw b (grind (int_laws, live-set_phase iid t exiting m e, q))
  ]
  task_step-Accounted (finish _ o) iid t running m w e q =
      grind (int_laws, live-set_phase iid t exiting m e, q)
  task_step-Accounted (leave _) iid t exiting m w e q = grind (
    int_laws,
    live-set_phase iid t ended (record m { queues = erase iid m.queues }) e,
    q,
    law.given_back w,
  )
  task_step-Accounted (cancel_task _ o) iid t running m w e q =
      grind (int_laws, live-set_phase iid t exiting m e, q)
  task_step-Accounted (cancel_task _ _) iid t ended m w e q = omega int_laws
  task_step-Accounted (cancel_task _ _) iid t _ m w e q =
      grind (int_laws, live-set_phase iid t ended m e, q)
  task_step-Accounted _ iid t _ m w e q = omega int_laws

  on_task-Accounted :
      (st : Step) (iid : ℕ) (m : Mux A) (w : W)
      → Accounted (lost_at st (get iid m.tasks)) m w (on_task s st iid m w)
  on_task-Accounted st iid m w = elim (Option-cases (get iid m.tasks)) [
    | inl e ↦ unfold lost_at on_task in rw (e, on_task, lost_at) (omega int_laws)
    | inr (t, e) ↦
        unfold lost_at on_task in
        rw (e, on_task, lost_at) (task_step-Accounted st iid t t.phase m w e refl)
  ]

  tasks-context : (uid : ℕ) (m : Mux A) (w : W) → (get_or_init_context s uid m w).1.tasks ≡ m.tasks
  unfolding get_or_init_context create_agent_context
  tasks-context uid m w = ground arith

  admit-Accounted :
      (iid : ℕ) (v : Invoke) (m : Mux A) (w : W)
      → get iid m.tasks ≡ none
      → Accounted 0 m w (admit s iid v m w)
  unfolding admit
  admit-Accounted iid v m w fresh = elim (Bool-cases (s.create_invocation w).0) [
    | inl b ↦ rw b (
        grind (
          int_laws,
          law.granted w b,
          live-put iid (record { uid = v.uid; phase = created }) m.tasks,
          fresh,
        ))
    | inr b ↦ rw b (grind (int_laws, law.refused w b))
  ]

  invoke_in-Accounted :
      (o : Option (AgentContext A)) (iid : ℕ) (v : Invoke) (m : Mux A) (w : W)
      → get iid m.tasks ≡ none
      → Accounted 0 m w (invoke_in s o iid v m w)
  unfolding invoke_in
  invoke_in-Accounted none iid v m w fresh = omega int_laws
  invoke_in-Accounted (some _) iid v m w fresh = admit-Accounted iid v m w fresh

  handle_invoke-Accounted :
      (iid : ℕ) (v : Invoke) (m : Mux A) (w : W)
      → get iid m.tasks ≡ none
      → Accounted 0 m w (handle_invoke s iid v m w)
  unfolding handle_invoke
  handle_invoke-Accounted iid v m w fresh =
      let (ctx, m') = get_or_init_context s v.uid m w in
      let same : m'.tasks ≡ m.tasks = tasks-context v.uid m w in
      rw same at (invoke_in-Accounted ctx iid v m' w (rw same fresh))

  tasks-handle_cancel : (uid iid : ℕ) (m : Mux A) → (handle_cancel s uid iid m).1.tasks ≡ m.tasks
  unfolding handle_cancel
  tasks-handle_cancel uid iid m = ground arith

  tasks-handle_data : (uid iid p : ℕ) (m : Mux A) → (handle_data s uid iid p m).1.tasks ≡ m.tasks
  unfolding handle_data
  tasks-handle_data uid iid p m = ground arith

  step-Accounted :
      (st : Step) (m : Mux A) (w : W) → IsFresh st m → Accounted (lost st m) m w (step s st m w)
  unfolding step lost handle_client_message
  step-Accounted (receive iid (message_invoke v)) m w f = handle_invoke-Accounted iid v m w f
  step-Accounted (receive iid (message_cancel uid old)) m w f =
      rw (tasks-handle_cancel uid old m) (omega int_laws)
  step-Accounted (receive iid (message_data uid old p)) m w f =
      rw (tasks-handle_data uid old p m) (omega int_laws)
  step-Accounted (start iid) m w f = on_task-Accounted (start iid) iid m w
  step-Accounted (begin iid) m w f = on_task-Accounted (begin iid) iid m w
  step-Accounted (finish iid o) m w f = on_task-Accounted (finish iid o) iid m w
  step-Accounted (leave iid) m w f = on_task-Accounted (leave iid) iid m w
  step-Accounted (cancel_task iid o) m w f = on_task-Accounted (cancel_task iid o) iid m w

  -- Along every interleaving of messages, tasks and cancellations the slots held follow the tasks
  -- that are alive, but for one slot for each cancellation that strikes a task before or after its
  -- `try` block: that slot is never given back.
  pub run_steps-slots :
      (sts : List Step) (m : Mux A) (w : W)
      → AreFresh s sts m w
      → held (run_steps s sts m w).2 +ℤ pos (live m.tasks)
        ≡ held w +ℤ pos (live (run_steps s sts m w).1.tasks + lost_on s sts m w)
  unfolding run_steps
  run_steps-slots [] m w f = omega int_laws
  run_steps-slots (st ∷ sts) m w f =
      let one : Accounted (lost st m) m w (step s st m w) = step-Accounted st m w f.0 in
      let rest : Accounted (lost_on s sts (step s st m w).1 (step s st m w).2) (step s st m w).1
          (step s st m w).2 (run_steps s sts (step s st m w).1 (step s st m w).2) =
        run_steps-slots sts (step s st m w).1 (step s st m w).2 f.1 in
      account_trans (held w) (held (step s st m w).2)
        (held (run_steps s sts (step s st m w).1 (step s st m w).2).2) (live m.tasks)
        (live (step s st m w).1.tasks)
        (live (run_steps s sts (step s st m w).1 (step s st m w).2).1.tasks) (lost st m)
        (lost_on s sts (step s st m w).1 (step s st m w).2) one rest

  -- When no task is alive before and after, and no cancellation strikes a task outside its `try`
  -- block, every slot that was taken has been given back.
  pub run_steps-returns :
      (sts : List Step) (m : Mux A) (w : W)
      → AreFresh s sts m w
      → live m.tasks ≡ 0
      → live (run_steps s sts m w).1.tasks ≡ 0
      → lost_on s sts m w ≡ 0
      → held (run_steps s sts m w).2 ≡ held w
  run_steps-returns sts m w f a b c =
      account_end (held w) (held (run_steps s sts m w).2) (live m.tasks)
        (live (run_steps s sts m w).1.tasks + lost_on s sts m w) (run_steps-slots sts m w f)
        (omega arith)
