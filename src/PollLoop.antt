-- ===== src/PollLoop.antt =====
-- The event loop of the sandbox guest, `src/sandbox/guest/poll_loop.py`: `PollLoop` and its policy.
-- Handles are numbers, and so are the functions that the loop only keeps; what a callback does is a
-- parameter, a list of calls of the loop. Times are numbers of ticks and the n-th reading of the
-- clock is a parameter. Sleeping changes no state.
pub mod Heapq
pub mod Turns
pub mod Order
pub mod Fifo
pub mod Timers
pub mod Endings
pub mod Policy
mod Tests
use agentica_server.Base.{
  ℕ, zero, suc, ◌+◌, Bool, true, false, Option, none, some, List, [], ◌∷◌, ◌++◌,
}
use Heapq.{Heap}

-- `Q` is the type of the heap, `E` that of exceptions.
pub record PollLoop (Q E : Type 0) : Type 0 where
  pub running : Bool
  pub handles : List ℕ
  pub scheduled : Q
  pub exception : Option E
  pub debug : Bool
  pub task_factory : Option ℕ
  pub exception_handler : Option ℕ

-- The loop with what is around it: the handles whose cancelled flag is set, whether the awaited
-- future is done, the readings of the clock, the callbacks that ran and the calls of the handler of
-- exceptions, `none` for the default one.
pub record World (Q E : Type 0) : Type 0 where
  pub loop : PollLoop Q E
  pub cancelled : List ℕ
  pub done : Bool
  pub reads : ℕ
  pub ran : List ℕ
  pub handled : List (Option ℕ × Option E)

-- What a callback can do.
pub data Op (E : Type 0) : Type 0 where
  soon : ℕ → Op E
  at : ℕ → ℕ → Op E
  later : ℕ → ℕ → Op E
  cancel : ℕ → Op E
  report : Option E → Op E
  halt : Op E
  finish : Op E

module _ {Q E : Type 0} where
  unfoldable pub stop : World Q E → World Q E
  stop w = record w { loop = record w.loop { running = false } }

  unfoldable pub call_exception_handler : Option E → World Q E → World Q E
  call_exception_handler context w = record w {
    loop = record w.loop { exception = context };
    handled = w.handled ++ (w.loop.exception_handler, context) ∷ [];
  }

  unfoldable pub call_soon : ℕ → World Q E → World Q E
  call_soon handle w = record w { loop = record w.loop { handles = w.loop.handles ++ handle ∷ [] } }

  -- Only the flag is set; the entry stays in the heap.
  unfoldable pub timer_handle_cancelled : ℕ → World Q E → World Q E
  timer_handle_cancelled handle w = record w { cancelled = handle ∷ w.cancelled }

  unfoldable pub set_debug : Bool → World Q E → World Q E
  set_debug enabled w = record w { loop = record w.loop { debug = enabled } }

  unfoldable pub set_task_factory : Option ℕ → World Q E → World Q E
  set_task_factory factory w = record w { loop = record w.loop { task_factory = factory } }

  unfoldable pub set_exception_handler : Option ℕ → World Q E → World Q E
  set_exception_handler handler w = record w {
    loop = record w.loop { exception_handler = handler };
  }

  unfoldable pub time : (ℕ → ℕ) → World Q E → ℕ × World Q E
  time clock w = (clock w.reads, record w { reads = suc w.reads })

module _ {Q E : Type 0} (heap : Heap Q) where
  unfoldable pub init : PollLoop Q E
  init = record {
    running = false;
    handles = [];
    scheduled = heap.empty;
    exception = none;
    debug = false;
    task_factory = none;
    exception_handler = none;
  }

  unfoldable pub call_at : ℕ → ℕ → World Q E → World Q E
  call_at when handle w = record w {
    loop = record w.loop { scheduled = heap.heappush (when, handle) w.loop.scheduled };
  }

module _ {Q E : Type 0} (heap : Heap Q) (clock : ℕ → ℕ) where
  unfoldable pub call_later : ℕ → ℕ → World Q E → World Q E
  call_later delay handle w = let (now, w') = time clock w in call_at heap (now + delay) handle w'

  unfoldable pub perform_op : Op E → World Q E → World Q E
  perform_op (soon handle) w = call_soon handle w
  perform_op (at when handle) w = call_at heap when handle w
  perform_op (later delay handle) w = call_later delay handle w
  perform_op (cancel handle) w = timer_handle_cancelled handle w
  perform_op (report context) w = call_exception_handler context w
  perform_op halt w = stop w
  perform_op finish w = record w { done = true }

  unfoldable pub perform_ops : List (Op E) → World Q E → World Q E
  perform_ops [] w = w
  perform_ops (op ∷ ops) w = perform_ops ops (perform_op op w)
