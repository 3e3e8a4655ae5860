-- ===== src/Multiplexer/Endings.antt =====
-- How one task of `src/server_session_manager/multiplexer.py` ends when it is cancelled and then runs
-- through its `finally` block, and what the others keep.
use agentica_server.Base.{
  ℕ, ◌≡◌, refl, sym, ◌∙◌, false, none, some, [], arith, ◌==◌, ◌⊎◌, get, get-put, Bool-cases,
  Option-cases, inl, inr, ==_iff,
}
use agentica_server.Multiplexer.{Mux, Task, Phase, running, exiting, ended, Server}
use agentica_server.Multiplexer.Steps.{
  Outcome, Step, leave, cancel_task, set_phase, to_finally, do_finally, task_step, on_task,
}

module _ {A W : Type 0} (s : Server A W) where
  -- Past its end, or not there.
  abbrev pub IsOver : ℕ → Mux A → Type 0
  IsOver iid m = (t : Task) → get iid m.tasks ≡ some t → t.phase ≡ ended

  pub on_task-none :
      (st : Step) (iid : ℕ) (m : Mux A) (w : W)
      → get iid m.tasks ≡ none
      → on_task s st iid m w ≡ ([], m, w)
  unfolding on_task
  on_task-none st iid m w e = rw (e, on_task)

  on_task-some :
      (st : Step) (iid : ℕ) (t : Task) (m : Mux A) (w : W)
      → get iid m.tasks ≡ some t
      → on_task s st iid m w ≡ task_step s st iid t t.phase m w
  unfolding on_task
  on_task-some st iid t m w e = rw (e, on_task)

  -- A cancellation leaves its task in the `finally` block or over.
  abbrev pub Ending : ℕ → Mux A → Type 0
  Ending iid m = (t : Task) → get iid m.tasks ≡ some t → (t.phase ≡ ended) ⊎ (t.phase ≡ exiting)

  cancel_phase :
      (iid : ℕ) (o : Outcome) (t : Task) (p : Phase) (m : Mux A) (w : W)
      → get iid m.tasks ≡ some t
      → t.phase ≡ p
      → Ending iid (task_step s (cancel_task iid o) iid t p m w).1
  unfolding task_step to_finally set_phase
  cancel_phase iid o t running m w e q t' g =
      ground (arith, get-put iid iid (record { uid = t.uid; phase = exiting }) m.tasks)
  cancel_phase iid o t ended m w e q t' g = ground arith
  cancel_phase iid o t _ m w e q t' g =
      ground (arith, get-put iid iid (record { uid = t.uid; phase = ended }) m.tasks)

  pub cancel_ends :
      (iid : ℕ) (o : Outcome) (m : Mux A) (w : W)
      → Ending iid (on_task s (cancel_task iid o) iid m w).1
  cancel_ends iid o m w = elim (Option-cases (get iid m.tasks)) [
    | inl e ↦ rw (on_task-none (cancel_task iid o) iid m w e) (λ t g. ground arith)
    | inr (t, e) ↦
        rw (on_task-some (cancel_task iid o) iid t m w e) (cancel_phase iid o t t.phase m w e refl)
  ]

  leave_phase :
      (iid : ℕ) (t : Task) (p : Phase) (m : Mux A) (w : W)
      → get iid m.tasks ≡ some t
      → t.phase ≡ p
      → Ending iid m
      → IsOver iid (task_step s (leave iid) iid t p m w).1
  unfolding task_step do_finally set_phase
  leave_phase iid t exiting m w e q h t' g =
      ground (arith, get-put iid iid (record { uid = t.uid; phase = ended }) m.tasks)
  leave_phase iid t _ m w e q h t' g = ground (arith, h t e)

  pub leave_ends :
      (iid : ℕ) (m : Mux A) (w : W) → Ending iid m → IsOver iid (on_task s (leave iid) iid m w).1
  leave_ends iid m w h = elim (Option-cases (get iid m.tasks)) [
    | inl e ↦ rw (on_task-none (leave iid) iid m w e) (λ t g. ground arith)
    | inr (t, e) ↦
        rw (on_task-some (leave iid) iid t m w e) (leave_phase iid t t.phase m w e refl h)
  ]

  -- A step of one task leaves the others alone.
  other_cancel_phase :
      (iid j : ℕ) (o : Outcome) (t : Task) (p : Phase) (m : Mux A) (w : W)
      → (iid == j) ≡ false
      → get j (task_step s (cancel_task iid o) iid t p m w).1.tasks ≡ get j m.tasks
  unfolding task_step to_finally set_phase
  other_cancel_phase iid j o t running m w ne =
      ground (arith, get-put iid j (record { uid = t.uid; phase = exiting }) m.tasks)
  other_cancel_phase iid j o t ended m w ne = refl
  other_cancel_phase iid j o t _ m w ne =
      ground (arith, get-put iid j (record { uid = t.uid; phase = ended }) m.tasks)

  other_leave_phase :
      (iid j : ℕ) (t : Task) (p : Phase) (m : Mux A) (w : W)
      → (iid == j) ≡ false
      → get j (task_step s (leave iid) iid t p m w).1.tasks ≡ get j m.tasks
  unfolding task_step do_finally set_phase
  other_leave_phase iid j t exiting m w ne =
      ground (arith, get-put iid j (record { uid = t.uid; phase = ended }) m.tasks)
  other_leave_phase iid j t _ m w ne = refl

  other_on_task :
      (st : Step) (iid j : ℕ) (m : Mux A) (w : W)
      → ((t : Task) → get j (task_step s st iid t t.phase m w).1.tasks ≡ get j m.tasks)
      → get j (on_task s st iid m w).1.tasks ≡ get j m.tasks
  other_on_task st iid j m w k = elim (Option-cases (get iid m.tasks)) [
    | inl e ↦ rw (on_task-none st iid m w e) refl
    | inr (t, e) ↦ rw (on_task-some st iid t m w e) (k t)
  ]

  pub cancel_keeps :
      (iid j : ℕ) (o : Outcome) (m : Mux A) (w : W)
      → Ending j m
      → Ending j (on_task s (cancel_task iid o) iid m w).1
  cancel_keeps iid j o m w h = elim (Bool-cases (iid == j)) [
    | inl e ↦ rw (← (==_iff iid j).0 e) (cancel_ends iid o m w)
    | inr e ↦ λ t g. h t (
        sym (
          other_on_task (cancel_task iid o) iid j m w
            (λ u. other_cancel_phase iid j o u u.phase m w e))
        ∙ g)
  ]

  pub leave_keeps_Ending :
      (iid j : ℕ) (m : Mux A) (w : W) → Ending j m → Ending j (on_task s (leave iid) iid m w).1
  leave_keeps_Ending iid j m w h = elim (Bool-cases (iid == j)) [
    | inl e ↦
        let h' : Ending iid m = rw ((==_iff iid j).0 e) h in
        rw (← (==_iff iid j).0 e) (λ t g. inl (leave_ends iid m w h' t g))
    | inr e ↦ λ t g. h t (
        sym (other_on_task (leave iid) iid j m w (λ u. other_leave_phase iid j u u.phase m w e))
        ∙ g)
  ]

  pub leave_keeps_IsOver :
      (iid j : ℕ) (m : Mux A) (w : W) → IsOver j m → IsOver j (on_task s (leave iid) iid m w).1
  leave_keeps_IsOver iid j m w h = elim (Bool-cases (iid == j)) [
    | inl e ↦
        let h' : IsOver iid m = rw ((==_iff iid j).0 e) h in
        rw (← (==_iff iid j).0 e) (leave_ends iid m w (λ t g. inl (h' t g)))
    | inr e ↦ λ t g. h t (
        sym (other_on_task (leave iid) iid j m w (λ u. other_leave_phase iid j u u.phase m w e))
        ∙ g)
  ]
