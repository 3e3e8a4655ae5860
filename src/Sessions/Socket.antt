-- ===== src/Sessions/Socket.antt =====
-- `loop_on_socket` of `src/server_session_manager/server_session_manager.py`. What the network and
-- the multiplexer do is an argument: whether the handshake is accepted and the transport starts,
-- and how `multiplexer.run()` changes the manager and ends.
use agentica_server.Base.{
  ℕ, ◌≡◌, Bool, true, false, none, some, List, [], ◌∷◌, ◌++◌, ◌==◌, if◌then◌else◌, get, has,
}
use agentica_server.Sessions.{
  Manager, AgentView, Call, Result, ok, err, value_error, not_accepted, deregister_session,
}
use agentica_server.Sessions.Ownership.{IsOwned}
use agentica_server.Sessions.Deregister.{deregister_session_exact}

-- How the `try` block ends: it returns, it raises `WebSocketDisconnect` or another `Exception`, or
-- the task is cancelled, which no `except` clause catches.
pub data Outcome : Type 0 where
  finished disconnected failed cancelled : Outcome

-- The calls on the socket and on the transport.
pub data SocketCall : Type 0 where
  accept start_transport stop_transport : SocketCall
  close_socket : ℕ → SocketCall

-- WS_1011_INTERNAL_ERROR
abbrev pub internal_error : ℕ
internal_error = 1011

pub record Network (M L S A : Type 0) : Type 0 where
  pub accepts : Bool
  pub starts : Bool
  pub run : Manager M L S A → Outcome × Manager M L S A

-- What was called, and how the `try` block ended: `cancelled` goes on to the caller.
pub record Served (A : Type 0) : Type 0 where
  pub outcome : Outcome
  pub socket_calls : List SocketCall
  pub agent_calls : List (Call A)

-- The `except` clauses.
unfoldable pub on_outcome : Outcome → List SocketCall
on_outcome failed = close_socket internal_error ∷ []
on_outcome _ = []

-- Until the `finally` block, and the calls of that block.
unfoldable pub socket_calls : Outcome → List SocketCall
unfolding on_outcome
socket_calls o =
    accept ∷ start_transport ∷ (on_outcome o ++ close_socket internal_error ∷ stop_transport ∷ [])

module _ {M L S A : Type 0} where
  -- The `try` block.
  unfoldable pub attempt : Network M L S A → Manager M L S A → Outcome × Manager M L S A
  attempt n m = if n.starts then n.run m else (failed, m)

  unfoldable pub loop_on_socket :
      AgentView A → Network M L S A → ℕ → Manager M L S A → Result (Served A) × Manager M L S A
  unfolding attempt socket_calls
  loop_on_socket v n cid m =
      if has cid m.sessions
      then if n.accepts
        then (
          ok (record {
            outcome = (attempt n m).0;
            socket_calls = socket_calls (attempt n m).0;
            agent_calls = (deregister_session v cid (attempt n m).1).0;
          }),
          (deregister_session v cid (attempt n m).1).1,
        )
        else (err not_accepted, m)
      else (err value_error, m)

  -- On a socket that is accepted, for a registered session: however the connection ends, and
  -- whatever the multiplexer did to the manager short of breaking the ownership invariant, the
  -- session is gone afterwards with all its agents, and no other session was touched since.
  pub loop_on_socket_cleans :
      (v : AgentView A) (n : Network M L S A) (cid : ℕ) (m : Manager M L S A)
      → has cid m.sessions ≡ true
      → n.accepts ≡ true
      → IsOwned [] (attempt n m).1
      → IsOwned [] (loop_on_socket v n cid m).1
        × ((c : ℕ)
            → get c (loop_on_socket v n cid m).1.sessions
              ≡ (if cid == c then none else get c (attempt n m).1.sessions))
        × ((u c : ℕ)
            → get u (attempt n m).1.uid_to_cid ≡ some c
            → get u (loop_on_socket v n cid m).1.agents
              ≡ (if cid == c then none else get u (attempt n m).1.agents))
  unfolding loop_on_socket
  loop_on_socket_cleans v n cid m known acc h =
      rw (known, acc) (deregister_session_exact v cid (attempt n m).1 h)

  -- A session that is not registered is refused before anything is called; a refused handshake
  -- leaves the session registered.
  pub loop_on_socket_refuses :
      (v : AgentView A) (n : Network M L S A) (cid : ℕ) (m : Manager M L S A)
      → (has cid m.sessions ≡ false → loop_on_socket v n cid m ≡ (err value_error, m))
        × (has cid m.sessions ≡ true
            → n.accepts ≡ false
            → loop_on_socket v n cid m ≡ (err not_accepted, m))
  unfolding loop_on_socket
  loop_on_socket_refuses v n cid m = ((λ e. rw e), (λ e a. rw (e, a)))
