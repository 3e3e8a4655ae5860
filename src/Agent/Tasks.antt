-- ===== src/Agent/Tasks.antt =====
-- The tasks of an agent of `src/agentic/agent.py`, over its runs.
use agentica_server.Base.{
  ℕ, ◌≡◌, refl, ◌⊎◌, inl, inr, Bool, true, false, Option, List, [], ◌∷◌, ◌++◌, if◌then◌else◌, arith,
  length, Bool-cases,
}
use agentica_server.Agent.{
  Agent, Effect, Message, Outcome, fill_inbox, cancel, handle_exception, done, setup_callbacks,
  install_callbacks, start, finish,
}

-- The calls that change the tasks of an agent, and the arrival of a message. A run that would start
-- while another holds the lock waits.
pub data Event : Type 0 where
  starts : ℕ → ℕ → ℕ → Event
  sets_up : ℕ → Bool → Event
  delivers : Message → Event
  cancels : (ℕ → Bool) → Option ℕ → Event
  fails : (ℕ → Bool) → ℕ → Event
  finishes : (ℕ → Bool) → (ℕ → Bool) → ℕ → ℕ → Outcome → Event

module _ {V J : Type 0} where
  unfoldable pub happen : Event → Agent V J → List Effect × Agent V J
  unfolding start setup_callbacks fill_inbox cancel handle_exception finish
  happen (starts iid inbox_task run_task) a =
      if a.locked then ([], a) else ([], start iid inbox_task run_task a)
  happen (sets_up iid streaming) a = ([], setup_callbacks iid streaming a)
  happen (delivers m) a = ([], fill_inbox m a)
  happen (cancels is_done iid) a = cancel is_done iid a
  happen (fails is_done e) a = handle_exception is_done e a
  happen (finishes d d' inbox_task run_task o) a = finish d d' inbox_task run_task o a

  unfoldable pub happen_all : List Event → Agent V J → List Effect × Agent V J
  unfolding happen
  happen_all [] a = ([], a)
  happen_all (v ∷ vs) a =
      let (out, a') = happen v a in let (out', a'') = happen_all vs a' in (out ++ out', a'')

  -- No task, or the two of a run that holds the lock.
  abbrev pub IsPaired : Agent V J → Type 0
  IsPaired a = (a.tasks ≡ []) ⊎ ((length a.tasks ≡ 2) × (a.locked ≡ true))

  tasks-fill_inbox :
      (m : Message) (a : Agent V J)
      → ((fill_inbox m a).tasks ≡ a.tasks) × ((fill_inbox m a).locked ≡ a.locked)
  unfolding fill_inbox
  tasks-fill_inbox m a = ground arith

  tasks-setup_callbacks :
      (iid : ℕ) (streaming : Bool) (a : Agent V J)
      → ((setup_callbacks iid streaming a).tasks ≡ a.tasks)
        × ((setup_callbacks iid streaming a).locked ≡ a.locked)
  unfolding setup_callbacks install_callbacks
  tasks-setup_callbacks iid streaming a = ground arith

  locked-IsPaired :
      (a : Agent V J) → a.locked ≡ true → IsPaired a → IsPaired (record a { locked = true })
  locked-IsPaired a e (inl h) = inl h
  locked-IsPaired a e (inr (h, _)) = inr (h, refl)

  happen-IsPaired : (v : Event) (a : Agent V J) → IsPaired a → IsPaired (happen v a).1
  unfolding happen start setup_callbacks cancel handle_exception finish
  happen-IsPaired (starts i t u) a h = elim (Bool-cases a.locked) [
    | inl e ↦ rw (e, happen) (locked-IsPaired a e h)
    | inr e ↦ rw (e, happen) (inr (refl, refl))
  ]
  happen-IsPaired (sets_up i s) a h =
      rw ((tasks-setup_callbacks i s a).0, (tasks-setup_callbacks i s a).1) h
  happen-IsPaired (delivers m) a h = rw ((tasks-fill_inbox m a).0, (tasks-fill_inbox m a).1) h
  happen-IsPaired (cancels d i) a h = inl refl
  happen-IsPaired (fails d e) a h = inl refl
  happen-IsPaired (finishes d d' t u o) a h = inl refl

  happen_all-IsPaired :
      (vs : List Event) (a : Agent V J) → IsPaired a → IsPaired (happen_all vs a).1
  unfolding happen_all
  happen_all-IsPaired [] a h = h
  happen_all-IsPaired (v ∷ vs) a h = happen_all-IsPaired vs (happen v a).1 (happen-IsPaired v a h)

  done-IsPaired : (a : Agent V J) → IsPaired a → done a ≡ false
  unfolding done
  done-IsPaired a (inl h) = rw h refl
  done-IsPaired a (inr (h, _)) = rw h refl

  -- However runs start, fail, are cancelled and finish, an agent that starts without tasks has no
  -- task, or the two of a run that holds the lock; so `done` never answers yes.
  pub done-happen_all :
      (vs : List Event) (a : Agent V J)
      → a.tasks ≡ []
      → IsPaired (happen_all vs a).1 × (done (happen_all vs a).1 ≡ false)
  done-happen_all vs a h =
      let p = happen_all-IsPaired vs a (inl h) in (p, done-IsPaired (happen_all vs a).1 p)
