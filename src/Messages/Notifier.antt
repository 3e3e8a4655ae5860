-- ===== src/Messages/Notifier.antt =====
-- `class Notifier` of `src/messages/notifier.py`: what an agent's calls add to its log and send to the
-- client. Texts, ids and bodies of requests are numbers; `L` is the type of the log's listeners.
use agentica_server.Base.{ℕ, Bool, Option, none, some, List, [], ◌∷◌, ◌++◌, map, if◌then◌else◌}
use agentica_server.Multiplexer.Protocol.{
  enter, error, exit, ServerMessage, error_message, invocation_event, internal_server_error,
}
use agentica_server.Messages.Holder.{Holder, add}

-- The server's log messages, with the uid first and then, where they have one, the iid.
pub data LogMessage : Type 0 where
  inference_request : ℕ → ℕ → ℕ → ℕ → Option ℕ → LogMessage
  inference_response : ℕ → ℕ → ℕ → ℕ → LogMessage
  inference_error : ℕ → ℕ → ℕ → ℕ → ℕ → LogMessage
  invocation_enter invocation_exit : ℕ → ℕ → LogMessage
  invocation_error : ℕ → ℕ → ℕ → Option ℕ → LogMessage
  invocation_interaction : ℕ → ℕ → ℕ → LogMessage
  agent_created : ℕ → ℕ → LogMessage
  agent_destroyed : ℕ → LogMessage
  monad_message : ℕ → ℕ → ℕ → LogMessage
  inference_usage : ℕ → ℕ → ℕ → LogMessage

-- What a call does to the rest, in order: the post of a log message, the call of a listener, and a
-- message to the client.
pub data Effect (L : Type 0) : Type 0 where
  posted : LogMessage → Effect L
  listener_called : L → LogMessage → Effect L
  client_message : ServerMessage → Effect L

pub record Notifier (L : Type 0) : Type 0 where
  pub uid : ℕ
  pub logs : Holder LogMessage L

-- `str` is the type name of an `err`, which the code passes as a text.
module _ {L : Type 0} (broadcast : Bool) (str : ℕ) where
  unfoldable pub append_to_log : LogMessage → Notifier L → List (Effect L) × Notifier L
  unfolding add
  append_to_log message n =
      let (called, logs) = add n.uid message n.logs in
      (
        (if broadcast then posted message ∷ [] else [])
            ++ map (λ (c : L × LogMessage). listener_called c.0 c.1) called,
        record n { logs = logs },
      )

  -- A log message, and then messages to the client.
  unfoldable pub append_and_send :
      LogMessage → List ServerMessage → Notifier L → List (Effect L) × Notifier L
  unfolding append_to_log
  append_and_send message sent n =
      let (out, n') = append_to_log message n in
      (out ++ map (λ (s : ServerMessage). client_message s) sent, n')

  unfoldable pub on_inference_request :
      ℕ → ℕ → ℕ → Option ℕ → Notifier L → List (Effect L) × Notifier L
  unfolding append_to_log
  on_inference_request id iid request timeout n =
      append_to_log (inference_request n.uid iid id request timeout) n

  unfoldable pub on_inference_response : ℕ → ℕ → ℕ → Notifier L → List (Effect L) × Notifier L
  unfolding append_to_log
  on_inference_response id iid response n =
      append_to_log (inference_response n.uid iid id response) n

  unfoldable pub on_inference_error : ℕ → ℕ → ℕ → ℕ → Notifier L → List (Effect L) × Notifier L
  unfolding append_to_log
  on_inference_error id iid error_type message n =
      append_to_log (inference_error n.uid iid id error_type message) n

  unfoldable pub on_enter : ℕ → Notifier L → List (Effect L) × Notifier L
  unfolding append_and_send
  on_enter iid n =
      append_and_send (invocation_enter n.uid iid) (invocation_event n.uid iid enter ∷ []) n

  -- The message of the error, and the event for older clients.
  unfoldable pub on_exception : ℕ → ℕ → Notifier L → List (Effect L) × Notifier L
  unfolding append_and_send
  on_exception iid err n =
      append_and_send (invocation_error n.uid iid str (some err))
        (error_message (record {
          iid = iid;
          name = internal_server_error;
          uid = some n.uid;
          session_id = none;
          session_manager_id = none;
        })
          ∷ invocation_event n.uid iid error
          ∷ [])
        n

  unfoldable pub on_exit : ℕ → Notifier L → List (Effect L) × Notifier L
  unfolding append_and_send
  on_exit iid n =
      append_and_send (invocation_exit n.uid iid) (invocation_event n.uid iid exit ∷ []) n

  unfoldable pub log_interaction : ℕ → ℕ → Notifier L → List (Effect L) × Notifier L
  unfolding append_to_log
  log_interaction iid event n = append_to_log (invocation_interaction n.uid iid event) n

  unfoldable pub on_create_agent : ℕ → Notifier L → List (Effect L) × Notifier L
  unfolding append_to_log
  on_create_agent body n = append_to_log (agent_created n.uid body) n

  unfoldable pub on_destroy_agent : Notifier L → List (Effect L) × Notifier L
  unfolding append_to_log
  on_destroy_agent n = append_to_log (agent_destroyed n.uid) n
