-- ===== src/Agent.antt =====
-- `class Agent` of `src/agentic/agent.py`: the runs of an agent, what its inbox keeps, its errors and
-- its end. `run` is its stretches between awaits; its effects are lists. Tasks, payloads and
-- exceptions are numbers, and an iid of `none` is the initial 'NOTRUNYET'.
pub mod Running
pub mod Tasks
pub mod Inbox
pub mod Prompts
pub mod System
pub mod Closing
mod Tests
use agentica_server.Base.{
  ℕ, zero, suc, ◌⊎◌, inl, inr, Bool, true, false, ◌&&◌, ◌||◌, not, Option, none, some, List, [],
  ◌∷◌, ◌++◌, if◌then◌else◌, ◌==◌, length,
}
use agentica_server.Inference.Deltas.{Json}
use agentica_server.Inference.Model.{GenModel, finish_invocation}
use agentica_server.Inference.Rounds.{Endpoint}
use agentica_server.Monads.{Context, HistoryMonad, Raised, run, then_monad}

-- `none` and `false` stand for attributes that do not exist, or no longer.
pub record Agent (V J : Type 0) : Type 0 where
  pub uid : ℕ
  pub iid : Option ℕ
  pub locked : Bool
  pub tasks : List ℕ
  pub pending : Option (List ℕ)
  pub context : Option (Context V J)
  pub sending_system_message : Bool
  pub always_streaming : Bool
  pub has_sandbox : Bool
  pub send_gen_err : Option ℕ
  pub has_send_message : Bool
  pub has_recv_message : Bool
  pub has_interactions : Bool
  pub was_closed : Bool

-- What the methods do to the rest: the callback of errors, made for an iid; a data message; a
-- request to cancel a task.
pub data Effect : Type 0 where
  error_sent : ℕ → ℕ → Effect
  send_data : Option ℕ → ℕ → Effect
  cancel_task : ℕ → Effect

-- The messages that `_recv_message` returns: data of an iid, or another.
pub data Message : Type 0 where
  data_message : ℕ → ℕ → Message
  other_message : Message

pub data AttributeError : Type 0 where
  attribute_error : AttributeError

-- How `await run_task` ends.
pub data Outcome : Type 0 where
  returned cancelled : Outcome
  raised : ℕ → Outcome

unfoldable pub is_iid : ℕ → Option ℕ → Bool
is_iid i none = false
is_iid i (some k) = i == k

-- if not task.done(): task.cancel(), for each of the tasks
unfoldable pub cancel_unless_done : (ℕ → Bool) → List ℕ → List Effect
cancel_unless_done is_done [] = []
cancel_unless_done is_done (t ∷ ts) =
    let rest = cancel_unless_done is_done ts in if is_done t then rest else cancel_task t ∷ rest

module _ {V J : Type 0} where
  unfoldable pub init : ℕ → Bool → Context V J → Agent V J
  init uid always_streaming context = record {
    uid = uid;
    iid = none;
    locked = false;
    tasks = [];
    pending = some [];
    context = some context;
    sending_system_message = false;
    always_streaming = always_streaming;
    has_sandbox = true;
    send_gen_err = none;
    has_send_message = false;
    has_recv_message = false;
    has_interactions = true;
    was_closed = false;
  }

  -- One turn of the loop of `fill_inbox`.
  unfoldable pub fill_inbox : Message → Agent V J → Agent V J
  unfolding is_iid
  fill_inbox other_message a = a
  fill_inbox (data_message iid payload) a = elim a.pending [
    | none ↦ a
    | some q ↦ if is_iid iid a.iid then record a { pending = some (q ++ payload ∷ []) } else a
  ]

  -- `none` where it waits, or the queue is gone.
  unfoldable pub warp_recv_bytes : Agent V J → Option ℕ × Agent V J
  warp_recv_bytes a = elim a.pending [
    | some (p ∷ q) ↦ (some p, record a { pending = some q })
    | _ ↦ (none, a)
  ]

  unfoldable pub warp_send_bytes : ℕ → Agent V J → AttributeError ⊎ List Effect
  warp_send_bytes payload a =
      if a.has_send_message then inr (send_data a.iid payload ∷ []) else inl attribute_error

  -- Without a callback the error is only logged.
  unfoldable pub send_gen_error : ℕ → Agent V J → List Effect
  send_gen_error err a = elim a.send_gen_err [ none ↦ [] | some iid ↦ error_sent iid err ∷ [] ]

  -- `cancel`, which does not look at the iid it is given.
  unfoldable pub cancel : (ℕ → Bool) → Option ℕ → Agent V J → List Effect × Agent V J
  unfolding cancel_unless_done
  cancel is_done iid a = (cancel_unless_done is_done a.tasks, record a { tasks = [] })

  unfoldable pub handle_exception : (ℕ → Bool) → ℕ → Agent V J → List Effect × Agent V J
  unfolding cancel send_gen_error
  handle_exception is_done err a =
      let (out, a') = cancel is_done a.iid a in (out ++ send_gen_error err a', a')

  unfoldable pub done : Agent V J → Bool
  done a = length a.tasks == 1

  unfoldable pub install_callbacks : ℕ → Bool → Context V J → Agent V J → Agent V J
  install_callbacks iid streaming c a = record a {
    context = some (record c {
      gen = record c.gen { streaming = a.always_streaming || streaming };
      has_invocation = true;
    });
    send_gen_err = some iid;
  }

  -- Without a context it raises before it changes anything.
  unfoldable pub setup_callbacks : ℕ → Bool → Agent V J → Agent V J
  unfolding install_callbacks
  setup_callbacks iid streaming a = elim a.context [
    | none ↦ a
    | some c ↦ install_callbacks iid streaming c a
  ]

  -- `run` from the lock on to its first await: the tasks are made, none has begun.
  unfoldable pub start : ℕ → ℕ → ℕ → Agent V J → Agent V J
  start iid inbox_task run_task a = record a {
    iid = some iid;
    locked = true;
    tasks = inbox_task ∷ run_task ∷ [];
    has_send_message = true;
    has_recv_message = true;
  }

  -- `run` from the end of `run_task` on. Between the `except` clause and the `finally` clause the
  -- error is sent, so that what is done by then is given separately.
  unfoldable pub except : (ℕ → Bool) → Outcome → Agent V J → List Effect × Agent V J
  unfolding handle_exception
  except is_done (raised e) a = handle_exception is_done e a
  except is_done _ a = ([], a)

  unfoldable pub finish :
      (ℕ → Bool) → (ℕ → Bool) → ℕ → ℕ → Outcome → Agent V J → List Effect × Agent V J
  unfolding cancel_unless_done except
  finish is_done is_done' inbox_task run_task outcome a =
      let (out, a') = except is_done outcome a in
      (
        out ++ cancel_unless_done is_done' (inbox_task ∷ run_task ∷ []),
        record a' { tasks = []; locked = false },
      )
