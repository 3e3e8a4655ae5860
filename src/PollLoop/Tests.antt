-- ===== src/PollLoop/Tests.antt =====
-- `src/sandbox/guest/poll_loop.py` on small loops: tests, and the theorems at work.
use agentica_server.Base.{
  ℕ, zero, suc, ◌+◌, ◌≤◌, ◌≡◌, refl, true, false, Option, none, some, List, [], ◌∷◌, arith,
}
use agentica_server.PollLoop.{
  World, Op, soon, at, finish, init, perform_op, perform_ops, call_soon, call_at, time,
}
use agentica_server.PollLoop.Heapq.{Entry, list_heap}
use agentica_server.PollLoop.Turns.{
  run_immediate, run_handles, run_handle, run_due, run_until_complete, result, raised,
}
use agentica_server.PollLoop.Order.{settled, run_immediate_settles}
use agentica_server.PollLoop.Fifo.{NoCancel, run_immediate_order}
use agentica_server.PollLoop.Timers.{IsAfter, IsDrained, run_due_ends}
use agentica_server.PollLoop.Endings.{IsCalm, raises_again, run_until_complete_returns}

-- Handle 1 queues 2 and 3; 2 finishes the future; 3 sets a timer; the others do nothing.
abbrev acts : ℕ → List (Op ℕ)
acts (suc zero) = soon 2 ∷ soon 3 ∷ []
acts (suc (suc zero)) = finish ∷ []
acts (suc (suc (suc zero))) = at 500 4 ∷ []
acts _ = []

abbrev clock : ℕ → ℕ
clock n = 100 + n

abbrev world : Option ℕ → List ℕ → List Entry → World (List Entry) ℕ
world e hs q = record {
  loop = record {
    running = false;
    handles = hs;
    scheduled = q;
    exception = e;
    debug = false;
    task_factory = none;
    exception_handler = none;
  };
  cancelled = 7 ∷ [];
  done = false;
  reads = 0;
  ran = [];
  handled = [];
}

calm : (h : ℕ) → IsCalm (acts h)
calm zero = tt
calm (suc zero) = tt
calm (suc (suc zero)) = tt
calm (suc (suc (suc zero))) = tt
calm (suc (suc (suc (suc n)))) = tt

no_cancel : (h : ℕ) → NoCancel (acts h)
no_cancel zero = tt
no_cancel (suc zero) = tt
no_cancel (suc (suc zero)) = tt
no_cancel (suc (suc (suc zero))) = tt
no_cancel (suc (suc (suc (suc n)))) = tt

after : (now : ℕ) → now ≤ 400 → (h : ℕ) → IsAfter now (acts h)
after now l zero = tt
after now l (suc zero) = tt
after now l (suc (suc zero)) = tt
after now l (suc (suc (suc zero))) = (omega arith, tt)
after now l (suc (suc (suc (suc n)))) = tt

run_immediate_settles_test :
    settled 7 (run_immediate list_heap clock acts (world none (1 ∷ 7 ∷ []) [])) ≡ true
run_immediate_settles_test =
    run_immediate_settles list_heap clock acts 7 (world none (1 ∷ 7 ∷ []) []) refl

run_immediate_order_example :
    ((run_immediate list_heap clock acts (world none (1 ∷ 7 ∷ 3 ∷ []) [])).ran ≡ 1 ∷ 3 ∷ [])
    × ((run_immediate list_heap clock acts (world none (1 ∷ 7 ∷ 3 ∷ []) [])).loop.handles
        ≡ 2 ∷ 3 ∷ [])
run_immediate_order_example =
    run_immediate_order list_heap clock acts no_cancel (world none (1 ∷ 7 ∷ 3 ∷ []) [])

run_due_ends_example :
    (v : World (List Entry) ℕ) × (run_due list_heap clock acts 5 100
        (world none [] ((90, 1) ∷ (300, 2) ∷ (80, 3) ∷ []))
      ≡ some v)
    × IsDrained list_heap clock acts 100 (world none [] ((90, 1) ∷ (300, 2) ∷ (80, 3) ∷ [])) v
unfolding list_heap
run_due_ends_example =
    run_due_ends list_heap clock acts 5 100 (world none [] ((90, 1) ∷ (300, 2) ∷ (80, 3) ∷ []))
      (after 100 (omega arith)) (λ n l. omega arith) (omega arith)

raises_again_example :
    (k : ℕ) × (v : World (List Entry) ℕ) × (run_until_complete list_heap clock acts 1 k true
        (world (some 13) (2 ∷ []) [])
      ≡ some (raised 13, v))
    × (v.loop.exception ≡ some 13)
    × (v.loop.running ≡ false)
unfolding list_heap init run_immediate run_handles run_handle perform_ops perform_op call_soon
    call_at time
raises_again_example =
    raises_again list_heap clock acts calm 0 13 (world (some 13) (2 ∷ []) []) refl refl
      (after 100 (omega arith), λ n l. omega arith)

run_until_complete_returns_example :
    (k : ℕ) × (v : World (List Entry) ℕ) × (run_until_complete list_heap clock acts 2 k true
        (world none (1 ∷ 2 ∷ []) [])
      ≡ some (result, v))
    × (v.loop.running ≡ false)
unfolding list_heap init run_immediate run_handles run_handle perform_ops perform_op call_soon
    call_at time
run_until_complete_returns_example =
    run_until_complete_returns list_heap clock acts calm 0 2 (world none (1 ∷ 2 ∷ []) []) no_cancel
      refl refl refl refl refl (after 100 (omega arith), λ n l. omega arith)
