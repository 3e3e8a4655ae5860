-- ===== src/PollLoop/Order.antt =====
-- The callbacks that a turn of `src/sandbox/guest/poll_loop.py` runs, and in which order.
use agentica_server.Base.{
  ℕ, ◌≡◌, refl, ◌∙◌, Bool, true, ◌||◌, List, [], ◌∷◌, ◌++◌, ◌==◌, arith, Bool-cases, inl, inr,
  ==_iff,
}
use agentica_server.PollLoop.{
  World, Op, soon, at, later, cancel, report, halt, finish, perform_op, perform_ops, call_soon,
  call_at, call_later, stop, call_exception_handler, timer_handle_cancelled, time,
}
use agentica_server.PollLoop.Heapq.{Heap}
use agentica_server.PollLoop.Turns.{contains, run_handle, run_handles, run_immediate}

pub contains-append :
    (h : ℕ) (xs ys : List ℕ) → contains h (xs ++ ys) ≡ (contains h xs || contains h ys)
contains-append h [] ys = refl
contains-append h (x ∷ xs) ys = ground (arith, contains-append h xs ys)

module _ {Q E : Type 0} where
  -- The callback ran, or it is cancelled.
  abbrev pub settled : ℕ → World Q E → Bool
  settled h w = contains h w.ran || contains h w.cancelled

module _ {Q E : Type 0} (heap : Heap Q) (clock : ℕ → ℕ) where
  perform_op-settled :
      (op : Op E) (h : ℕ) (w : World Q E)
      → settled h w ≡ true
      → settled h (perform_op heap clock op w) ≡ true
  unfolding perform_op call_soon call_at call_later stop call_exception_handler
      timer_handle_cancelled time
  perform_op-settled (cancel x) h w e = ground arith
  perform_op-settled (soon _) h w e = e
  perform_op-settled (at _ _) h w e = e
  perform_op-settled (later _ _) h w e = e
  perform_op-settled (report _) h w e = e
  perform_op-settled halt h w e = e
  perform_op-settled finish h w e = e

  perform_ops-settled :
      (ops : List (Op E)) (h : ℕ) (w : World Q E)
      → settled h w ≡ true
      → settled h (perform_ops heap clock ops w) ≡ true
  unfolding perform_ops
  perform_ops-settled [] h w e = e
  perform_ops-settled (op ∷ ops) h w e =
      perform_ops-settled ops h (perform_op heap clock op w) (perform_op-settled op h w e)

  perform_op_ran : (op : Op E) (w : World Q E) → (perform_op heap clock op w).ran ≡ w.ran
  unfolding perform_op call_soon call_at call_later stop call_exception_handler
      timer_handle_cancelled time
  perform_op_ran (cancel x) w = refl
  perform_op_ran (soon _) w = refl
  perform_op_ran (at _ _) w = refl
  perform_op_ran (later _ _) w = refl
  perform_op_ran (report _) w = refl
  perform_op_ran halt w = refl
  perform_op_ran finish w = refl

  perform_ops_ran : (ops : List (Op E)) (w : World Q E) → (perform_ops heap clock ops w).ran ≡ w.ran
  unfolding perform_ops
  perform_ops_ran [] w = refl
  perform_ops_ran (op ∷ ops) w =
      perform_ops_ran ops (perform_op heap clock op w) ∙ perform_op_ran op w

module _ {Q E : Type 0} (heap : Heap Q) (clock : ℕ → ℕ) (acts : ℕ → List (Op E)) where
  pub run_handle_keeps :
      (x h : ℕ) (w : World Q E)
      → settled h w ≡ true
      → settled h (run_handle heap clock acts x w) ≡ true
  unfolding run_handle
  run_handle_keeps x h w e = elim (Bool-cases (contains x w.cancelled)) [
    | inl c ↦ rw (c, run_handle) e
    | inr c ↦
        rw (c, run_handle)
          (perform_ops-settled heap clock (acts x) h (record w { ran = w.ran ++ x ∷ [] })
            (ground (arith, contains-append h w.ran (x ∷ []))))
  ]

  pub run_handle_settles :
      (h : ℕ) (w : World Q E) → settled h (run_handle heap clock acts h w) ≡ true
  unfolding run_handle
  run_handle_settles h w = elim (Bool-cases (contains h w.cancelled)) [
    | inl c ↦ rw (c, run_handle) (ground (arith, c))
    | inr c ↦
        rw (c, run_handle)
          (perform_ops-settled heap clock (acts h) h (record w { ran = w.ran ++ h ∷ [] })
            (ground (arith, contains-append h w.ran (h ∷ []))))
  ]

  run_handles_keeps :
      (hs : List ℕ) (h : ℕ) (w : World Q E)
      → settled h w ≡ true
      → settled h (run_handles heap clock acts hs w) ≡ true
  unfolding run_handles
  run_handles_keeps [] h w e = e
  run_handles_keeps (x ∷ hs) h w e =
      run_handles_keeps hs h (run_handle heap clock acts x w) (run_handle_keeps x h w e)

  run_handles_settles :
      (hs : List ℕ) (h : ℕ) (w : World Q E)
      → contains h hs ≡ true
      → settled h (run_handles heap clock acts hs w) ≡ true
  unfolding run_handles
  run_handles_settles [] h w e = absurd (ground arith)
  run_handles_settles (x ∷ hs) h w e = elim (Bool-cases (x == h)) [
    | inl q ↦
        run_handles_keeps hs h (run_handle heap clock acts x w)
          (rw (← (==_iff x h).0 q) (run_handle_settles x w))
    | inr q ↦ run_handles_settles hs h (run_handle heap clock acts x w) (ground arith)
  ]

  -- Every callback that is queued when a turn starts runs in that turn, unless it is cancelled by
  -- its end; no callback waits for a later turn.
  pub run_immediate_settles :
      (h : ℕ) (w : World Q E)
      → contains h w.loop.handles ≡ true
      → settled h (run_immediate heap clock acts w) ≡ true
  unfolding run_immediate
  run_immediate_settles h w e =
      run_handles_settles w.loop.handles h (record w { loop = record w.loop { handles = [] } }) e
