-- ===== src/Sessions/Tests.antt =====
-- The session manager of `src/server_session_manager/server_session_manager.py` on a server with two
-- sessions: tests, and the theorems at work.
use agentica_server.Base.{
  ℕ, suc, ◌+◌, ◌≡◌, ◌≢◌, refl, ◌≤◌, ◌<◌, ◌↔◌, Bool, true, false, Option, none, some, List, [], ◌∷◌,
  arith, ◌==◌, if◌then◌else◌, Dict, get, has, erase,
}
use agentica_server.Base.Int.{pos}
use agentica_server.Messages.Holder.{init}
use agentica_server.Sessions.{
  Manager, Config, Attempt, AgentView, close, err, attribute_error, value_error, create_invocation,
  register_session, create_agent, release, untrack, discard, cleanup_agent, deregister_session,
  destroy_agent,
}
use agentica_server.Sessions.Slots.{start, granted, Holding-exact}
use agentica_server.Sessions.Ownership.{
  lists, IsOwned, register_session-IsOwned, create_agent-IsOwned,
}
use agentica_server.Sessions.Deregister.{deregister_session_exact, destroy_agent_exact}
use agentica_server.Sessions.Interleaving.{
  World, Steps, deregisters, begins, registers, resumes, stop, IsTidy, Steps-IsTidy,
}
use agentica_server.Sessions.Socket.{
  Network, failed, attempt, loop_on_socket, loop_on_socket_cleans,
}

abbrev fresh : Manager ℕ ℕ ℕ ℕ
fresh = record {
  agents = [];
  logs = init;
  concurrent_invocations = pos 0;
  sessions = [];
  uid_to_cid = [];
  iid_spans = [];
}

abbrev two_slots : Config
two_slots = record { max_concurrent_invocations = 2; sandbox_log_path = none }

abbrev logging : Config
logging = record { max_concurrent_invocations = 2; sandbox_log_path = some 9 }

abbrev attempt_7 : Attempt ℕ ℕ
attempt_7 = record {
  model_parses = true;
  authenticates = true;
  model_exists = true;
  agent = some 7;
  create_message = 1;
}

-- An agent is its number; the even ones run an invocation under that number.
abbrev view : AgentView ℕ
view = record { iid = λ a. if a == 7 then 0 else a; is_alive = λ a. true }

fresh-IsOwned : IsOwned [] fresh
unfolding lists get has
fresh-IsOwned = record {
  tracked = λ u c l. absurd (ground arith);
  owned = λ u c a. absurd (ground arith);
  mapped = λ u a. absurd (ground arith);
  named = refl;
}

abbrev opened : Manager ℕ ℕ ℕ ℕ
opened = register_session 3 fresh

three_named : 0 + 3 ≢ 0
three_named e = omega arith

abbrev with_agent : Manager ℕ ℕ ℕ ℕ
with_agent = (create_agent two_slots attempt_7 20 3 opened).1

no_agent : has 20 opened.agents ≡ false
unfolding register_session has
no_agent = refl

no_owner : get 20 opened.uid_to_cid ≡ none
unfolding register_session get has
no_owner = refl

create_agent-IsOwned_example : IsOwned [] with_agent
create_agent-IsOwned_example =
    create_agent-IsOwned two_slots attempt_7 20 3 opened three_named no_agent no_owner
      (register_session-IsOwned 3 fresh three_named fresh-IsOwned)

-- With a path for sandbox logs no agent can be created.
log_path_test : (create_agent logging attempt_7 20 3 opened).0 ≡ err attribute_error
unfolding create_agent register_session has
log_path_test = refl

owned : IsOwned [] with_agent
owned =
    create_agent-IsOwned two_slots attempt_7 20 3 opened three_named no_agent no_owner
      (register_session-IsOwned 3 fresh three_named fresh-IsOwned)

deregister_session_exact_example :
    let m = (deregister_session view 3 with_agent).1 in
    IsOwned [] m
    × ((c : ℕ) → get c m.sessions ≡ (if 3 == c then none else get c with_agent.sessions))
    × ((u c : ℕ)
        → get u with_agent.uid_to_cid ≡ some c
        → get u m.agents ≡ (if 3 == c then none else get u with_agent.agents))
deregister_session_exact_example = deregister_session_exact view 3 with_agent owned

destroy_agent_exact_example :
    let m = (destroy_agent view 20 with_agent).1 in
    (has 20 with_agent.agents ≡ false
      → destroy_agent view 20 with_agent ≡ (err value_error, with_agent))
    × (has 20 with_agent.agents ≡ true
        → IsOwned [] m
          × ((u : ℕ) → get u m.agents ≡ (if 20 == u then none else get u with_agent.agents))
          × ((c : ℕ) → lists 20 c m.sessions ≡ false))
destroy_agent_exact_example = destroy_agent_exact view 20 with_agent owned

-- The live agent 7 runs no invocation, so it is closed and not cancelled.
cleanup_test : (cleanup_agent view 20 with_agent).0 ≡ close 7 ∷ []
unfolding cleanup_agent get create_agent agentica_server.Base.put register_session has
cleanup_test = refl

one_granted : (create_invocation two_slots fresh).0 ≡ true
unfolding create_invocation
one_granted = refl

abbrev holding_one : Manager ℕ ℕ ℕ ℕ
holding_one = (create_invocation two_slots fresh).1

Holding-exact_example :
    (holding_one.concurrent_invocations ≡ pos 1)
    × (1 ≤ 2)
    × (((create_invocation two_slots holding_one).0 ≡ true) ↔ (1 < 2))
Holding-exact_example = Holding-exact (granted (start fresh refl) one_granted)

abbrev broken : Network ℕ ℕ ℕ ℕ
broken = record { accepts = true; starts = true; run = λ m. (failed, m) }

known : has 3 with_agent.sessions ≡ true
unfolding create_agent has agentica_server.Base.put register_session
known = refl

loop_on_socket_cleans_example :
    let m = (loop_on_socket view broken 3 with_agent).1 in
    IsOwned [] m
    × ((c : ℕ)
        → get c m.sessions
          ≡ (if 3 == c then none else get c (attempt broken with_agent).1.sessions))
    × ((u c : ℕ)
        → get u (attempt broken with_agent).1.uid_to_cid ≡ some c
        → get u m.agents ≡ (if 3 == c then none else get u (attempt broken with_agent).1.agents))
loop_on_socket_cleans_example =
    loop_on_socket_cleans view broken 3 with_agent known refl (unfold attempt in owned)

-- While session 3 waits for the cleanup of its agent, a client opens session 4.
abbrev after : World ℕ ℕ ℕ ℕ
after = record {
  manager = untrack 20 (
      register_session 4
        (release view 20 7 (record with_agent { sessions = erase 3 with_agent.sessions })).1);
  draining = discard 20 (20 ∷ []);
  waiting = discard 20 (20 ∷ []);
}

overlapping : Steps view (record { manager = with_agent; draining = []; waiting = [] }) after
unfolding create_agent register_session get has agentica_server.Base.put erase release discard
    agentica_server.Sessions.member agentica_server.Sessions.add_agent
    agentica_server.Sessions.session_or_new
overlapping =
    deregisters 3 (record { cid = 3; uids = 20 ∷ [] }) refl
      (begins 20 7 refl (registers 4 (λ e. omega arith) (resumes 20 refl (stop after))))

Steps-IsTidy_example : IsTidy view after
unfolding agentica_server.Sessions.member
Steps-IsTidy_example = Steps-IsTidy view overlapping (owned, λ u k. absurd (ground arith))
