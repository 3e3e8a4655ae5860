-- ===== src/Multiplexer/Tests.antt =====
-- The multiplexer of `src/server_session_manager/multiplexer.py` against the session manager:
-- tests, and the theorems at work.
use agentica_server.Base.{
  ℕ, zero, suc, ◌+◌, ◌≡◌, ◌≢◌, refl, ◌≤◌, ◌<◌, ◌↔◌, Bool, true, false, Option, none, some, List, [],
  ◌∷◌, ◌++◌, arith, ◌==◌, if◌then◌else◌, Dict, get, has,
}
use agentica_server.Base.Int.{ℤ, pos, ◌+ℤ◌, ◌-ℤ◌}
use agentica_server.Messages.Holder
use agentica_server.Sessions.{Manager, Config}
use agentica_server.Multiplexer.{
  Mux, AgentContext, Task, Phase, created, running, ended, Server, Effect, send, Invoke,
  ClientMessage, message_invoke, message_cancel, message_data, ErrorName, malformed_invoke,
  not_running, error_message, server_channel, init, handle_invoke, handle_cancel, handle_data,
  cancel_in_context, send_error,
}
use agentica_server.Multiplexer.Steps.{
  returned, Step, receive, start, begin, finish, leave, cancel_task, run_steps,
}
use agentica_server.Multiplexer.Slots.{Limiter, AreFresh, live, lost_on, run_steps-slots}
use agentica_server.Multiplexer.Shared.{manager_server, connection_count}
use agentica_server.Multiplexer.Requests.{
  AnswersOnce, handle_invoke-answers, refused_invoke_leaves_queue, admitted_invoke,
  handle_data_exact, handle_cancel_closes,
}
use agentica_server.Multiplexer.Endings.{IsOver}
use agentica_server.Multiplexer.Shutdown.{shutdown, shutdown_ends_tracked}

-- A server with the one agent 7 under the uid 20, whose world is the number of slots that are free
-- and the number that are taken.
abbrev World : Type 0
World = ℕ × ℤ

abbrev small : Server ℕ World
small = record {
  agents = λ w. (20, 7) ∷ [];
  create_invocation = λ w. elim w.0 [ zero ↦ (false, w) | suc n ↦ (true, (n, w.1 +ℤ pos 1)) ];
  destroy_invocation = λ w. (suc w.0, w.1 -ℤ pos 1);
  session_id = λ a. some 5;
  session_manager_id = λ a. none;
}

abbrev a_request : Invoke
a_request = record {
  match_id = 90;
  uid = 20;
  warp_locals_payload = 1;
  prompt = none;
  streaming = false;
  parent_uid = none;
  parent_iid = none;
}

abbrev known : Mux ℕ
known = record {
  contexts = (20, record { uid = 20; agent = 7 }) ∷ [];
  queues = (31, []) ∷ [];
  invocation_tasks = (31, 20) ∷ [];
  tasks = (31, record { uid = 20; phase = running }) ∷ [];
}

handle_invoke-answers_example :
    AnswersOnce small 90 (handle_invoke small 32 a_request known (1, pos 1)).0
handle_invoke-answers_example = handle_invoke-answers small 32 a_request known (1, pos 1)

abbrev unknown : Invoke
unknown = record a_request { uid = 21 }

abbrev refused : List (Effect ℕ) × Mux ℕ × World
refused = handle_invoke small 32 a_request known (0, pos 2)

refused_invoke_leaves_queue_example :
    (refused.1.tasks ≡ known.tasks)
    × (get 32 refused.1.queues ≡ some [])
    × ((handle_data small 20 32 8 refused.1).0 ≡ [])
refused_invoke_leaves_queue_example =
    refused_invoke_leaves_queue small 32 20 8 a_request known (0, pos 2)
      (record { uid = 20; agent = 7 }) (unfold get in refl) refl

abbrev admitted : List (Effect ℕ) × Mux ℕ × World
admitted = handle_invoke small 32 a_request known (1, pos 1)

admitted_invoke_test :
    (get 32 admitted.1.queues ≡ some [])
    × (get 32 admitted.1.tasks ≡ some (record { uid = 20; phase = created }))
    × (has 32 admitted.1.invocation_tasks ≡ true)
admitted_invoke_test =
    admitted_invoke small 32 a_request known (1, pos 1) (record { uid = 20; agent = 7 })
      (unfold get in refl) refl 32

handle_data_exact_test :
    ((q : List ClientMessage)
      → get 31 known.queues ≡ some q
      → ((handle_data small 20 31 8 known).0 ≡ [])
        × ((j : ℕ)
            → get j (handle_data small 20 31 8 known).1.queues
              ≡ (if 31 == j then some (q ++ message_data 20 31 8 ∷ []) else get j known.queues)))
    × (get 31 known.queues ≡ none
        → AnswersOnce small 31 (handle_data small 20 31 8 known).0
          × ((handle_data small 20 31 8 known).1 ≡ known))
handle_data_exact_test = handle_data_exact small 20 31 8 known

-- The queue of a cancelled invocation is gone, and its task still runs.
handle_cancel_closes_example :
    let (out, m) = handle_cancel small 20 31 known in
    (out ≡ cancel_in_context small 20 31 known)
    × (m.tasks ≡ known.tasks)
    × (has 31 m.invocation_tasks ≡ false)
    × (handle_data small 22 31 8 m ≡ (send_error small 22 31 not_running m ∷ [], m))
    × (handle_cancel small 22 31 m ≡ (send_error small 22 31 not_running m ∷ [], m))
handle_cancel_closes_example = handle_cancel_closes small 20 31 22 8 known (unfold has in refl)

small-Limiter : Limiter small (λ w. w.1)
small-Limiter = record {
  granted = λ w e. ground arith;
  refused = λ w e. ground arith;
  given_back = λ w. refl;
}

-- One invocation, from its request to its end.
abbrev whole : List Step
whole =
    receive 40 (message_invoke a_request) ∷ start 40 ∷ begin 40 ∷ finish 40 returned ∷ leave 40 ∷ []

abbrev one_free : World
one_free = (1, pos 0)

fresh_whole : AreFresh small whole init one_free
unfolding get
fresh_whole = (refl, (tt, (tt, (tt, (tt, tt)))))

run_steps-slots_example :
    (run_steps small whole init one_free).2.1 +ℤ pos 0
    ≡ pos 0
      +ℤ pos
          (live (run_steps small whole init one_free).1.tasks + lost_on small whole init one_free)
run_steps-slots_example =
    run_steps-slots small (λ w. w.1) small-Limiter whole init one_free fresh_whole

-- A task that is cancelled before it starts never gives its slot back.
abbrev struck : List Step
struck = receive 40 (message_invoke a_request) ∷ cancel_task 40 returned ∷ []

lost_test : (run_steps small struck init one_free).2.1 ≡ pos 1
unfolding run_steps get agentica_server.Multiplexer.handle_client_message agentica_server.Base.put
    ◌+ℤ◌
lost_test = refl

abbrev manager : Manager ℕ ℕ ℕ ℕ
manager = record {
  agents = (20, 7) ∷ [];
  logs = Holder.init;
  concurrent_invocations = pos 0;
  sessions = [];
  uid_to_cid = [];
  iid_spans = [];
}

abbrev limit : Config
limit = record { max_concurrent_invocations = 1; sandbox_log_path = none }

abbrev no_ids : ℕ → Option ℕ × Option ℕ
no_ids a = (none, none)

fresh_struck : AreFresh (manager_server limit no_ids) struck init manager
unfolding get
fresh_struck = (refl, (tt, tt))

connection_count_example :
    let server = manager_server limit no_ids in
    (run_steps server struck init manager).2.concurrent_invocations
    ≡ pos 0
      +ℤ pos
          (live (run_steps server struck init manager).1.tasks + lost_on server struck init manager)
connection_count_example = connection_count limit no_ids struck manager fresh_struck

shutdown_ends_tracked_example :
    let m = (shutdown small (λ i. returned) known one_free).1 in
    ((j : ℕ) → has j known.invocation_tasks ≡ true → IsOver small j m)
    × (m.invocation_tasks ≡ [])
    × (m.contexts ≡ [])
shutdown_ends_tracked_example = shutdown_ends_tracked small (λ i. returned) known one_free
