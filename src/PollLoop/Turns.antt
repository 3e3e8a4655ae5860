-- ===== src/PollLoop/Turns.antt =====
-- The turns of `PollLoop.run_until_complete` of `src/sandbox/guest/poll_loop.py`.
use agentica_server.Base.{
  ℕ, zero, suc, Bool, true, false, ◌&&◌, not, Option, none, some, List, [], ◌∷◌, ◌++◌, ◌==◌, leb,
  if◌then◌else◌,
}
use agentica_server.PollLoop.{World, Op, time, stop, perform_ops}
use agentica_server.PollLoop.Heapq.{Heap}

abbrev pub contains : ℕ → List ℕ → Bool
contains h [] = false
contains h (x ∷ xs) = let rest = contains h xs in if x == h then true else rest

-- How `run_until_complete` ends: the result of the future, the stored exception, the error of a
-- future that is not done, or that of an argument that cannot be awaited.
pub data Ending (E : Type 0) : Type 0 where
  result : Ending E
  raised : E → Ending E
  invalid_state type_error : Ending E

module _ {Q E : Type 0} (heap : Heap Q) (clock : ℕ → ℕ) (acts : ℕ → List (Op E)) where
  -- if not handle._cancelled: handle._run()
  unfoldable pub run_handle : ℕ → World Q E → World Q E
  run_handle h w =
      if contains h w.cancelled
      then w
      else perform_ops heap clock (acts h) (record w { ran = w.ran ++ h ∷ [] })

  unfoldable pub run_handles : List ℕ → World Q E → World Q E
  run_handles [] w = w
  run_handles (h ∷ hs) w = run_handles hs (run_handle h w)

  unfoldable pub run_immediate : World Q E → World Q E
  run_immediate w = run_handles w.loop.handles (record w { loop = record w.loop { handles = [] } })

  -- The entry that `heappop` returns stands at the head of the heap.
  unfoldable pub run_due : ℕ → ℕ → World Q E → Option (World Q E)
  run_due zero now w = none
  run_due (suc k) now w = elim (heap.heappop w.loop.scheduled) [
    | none ↦ some w
    | some ((when, h), q) ↦ elim (leb when now) [
      | true ↦ run_due k now (run_handle h (record w { loop = record w.loop { scheduled = q } }))
      | false ↦ some w
    ]
  ]

  -- One turn of the loop: the exception that is stored at its end is raised.
  unfoldable pub turn : ℕ → World Q E → Option (Option E × World Q E)
  turn k w =
      let (now, w') = time clock (run_immediate w) in
      elim (run_due k now w') [ none ↦ none | some v ↦ some (v.loop.exception, v) ]

  -- while self.running and not future.done(): ... ; return future.result()
  unfoldable pub run_turns : ℕ → ℕ → World Q E → Option (Ending E × World Q E)
  run_turns zero k w = none
  run_turns (suc n) k w = elim (w.loop.running && not w.done) [
    | false ↦ some ((if w.done then result else invalid_state), w)
    | true ↦ elim (turn k w) [
      | none ↦ none
      | some (some e, v) ↦ some (raised e, v)
      | some (none, v) ↦ run_turns n k v
    ]
  ]

  -- The `finally` clause stops the loop, however the body ended.
  unfoldable pub run_until_complete : ℕ → ℕ → Bool → World Q E → Option (Ending E × World Q E)
  run_until_complete n k is_awaitable w =
      let started = record w { loop = record w.loop { running = true } } in
      elim is_awaitable [
        | false ↦ some (type_error, stop started)
        | true ↦ elim (run_turns n k started) [ none ↦ none | some (r, v) ↦ some (r, stop v) ]
      ]
