-- ===== src/Messages/Hybrid/Calls.antt =====
-- The calls of the notifiers of `src/messages`, one after the other, and what each of them is to leave.
use agentica_server.Base.{ℕ, Bool, Option, none, some, List, [], ◌∷◌, ◌++◌, map}
use agentica_server.Multiplexer.Protocol.{
  enter, error, exit, ServerMessage, error_message, invocation_event, internal_server_error,
}
use agentica_server.Messages.Otel.Once.{on_events, on_events-IsOnce}
use agentica_server.Messages.Otel.Once as Once
use agentica_server.Messages.Notifier.{
  Effect, posted, listener_called, client_message, LogMessage, Notifier, append_to_log,
  append_and_send,
}
use agentica_server.Messages.Notifier as Log
use agentica_server.Messages.Hybrid.{
  HybridNotifier, Interaction, code_block, execute_result, tell, on_interaction_event,
}
use agentica_server.Messages.Hybrid as Hybrid

-- The calls of a notifier, with those of `InvocationNotifier` that write to the log; `logs_message`
-- has the message, and the others the text that is logged.
pub data Call : Type 0 where
  inference_request : ℕ → ℕ → ℕ → Option ℕ → Call
  inference_response : ℕ → ℕ → ℕ → Call
  inference_error : ℕ → ℕ → ℕ → ℕ → Call
  enters : ℕ → Option ℕ → Call
  raises : ℕ → ℕ → Call
  exits : ℕ → Call
  interacts : ℕ → ℕ → Interaction → Call
  creates_agent : ℕ → Call
  destroys_agent : Call
  genai_chat genai_tool : ℕ → ℕ → Bool → ℕ → Call
  genai_delta : ℕ → ℕ → Call
  logs_message : LogMessage → Call
  logs_monad logs_usage : ℕ → ℕ → Call
  logs_invocation_error : ℕ → ℕ → Option ℕ → Call

module _ {L : Type 0} (broadcast : Bool) (str : ℕ) where
  unfoldable pub notify : Call → HybridNotifier L → List (Effect L) × HybridNotifier L
  notify (inference_request id iid t o) h = Hybrid.on_inference_request broadcast str id iid t o h
  notify (inference_response id iid t) h = Hybrid.on_inference_response broadcast str id iid t h
  notify (inference_error id iid e t) h = Hybrid.on_inference_error broadcast str id iid e t h
  notify (enters iid p) h = Hybrid.on_enter broadcast str iid p h
  notify (raises iid e) h = Hybrid.on_exception broadcast str iid e h
  notify (exits iid) h = Hybrid.on_exit broadcast str iid h
  notify (interacts iid t e) h = Hybrid.log_interaction broadcast str iid t e h
  notify (creates_agent b) h = Hybrid.on_create_agent broadcast str b h
  notify destroys_agent h = Hybrid.on_destroy_agent broadcast str h
  notify (genai_chat id iid c t) h = Hybrid.log_genai_chat broadcast str id iid c t h
  notify (genai_tool id iid c t) h = Hybrid.log_genai_tool broadcast str id iid c t h
  notify (genai_delta iid t) h = Hybrid.log_genai_delta broadcast str iid t h
  notify (logs_message m) h = Hybrid.append_to_log broadcast str m h
  notify (logs_monad iid t) h = Hybrid.log_monad broadcast str iid t h
  notify (logs_usage iid t) h = Hybrid.log_usage broadcast str iid t h
  notify (logs_invocation_error iid e t) h = Hybrid.log_invocation_error broadcast str iid e t h

  unfoldable pub notify_all : List Call → HybridNotifier L → List (Effect L) × HybridNotifier L
  unfolding notify
  notify_all [] h = ([], h)
  notify_all (c ∷ cs) h =
      let (out, h') = notify c h in let (out', h'') = notify_all cs h' in (out ++ out', h'')

-- The one entry of the log that a call makes.
abbrev pub entry : ℕ → ℕ → Call → LogMessage
entry str u (inference_request id iid t o) = Log.inference_request u iid id t o
entry str u (inference_response id iid t) = Log.inference_response u iid id t
entry str u (inference_error id iid e t) = Log.inference_error u iid id e t
entry str u (enters iid p) = Log.invocation_enter u iid
entry str u (raises iid e) = Log.invocation_error u iid str (some e)
entry str u (exits iid) = Log.invocation_exit u iid
entry str u (interacts iid t e) = Log.invocation_interaction u iid t
entry str u (creates_agent b) = Log.agent_created u b
entry str u destroys_agent = Log.agent_destroyed u
entry str u (genai_chat id iid c t) = Log.monad_message u iid t
entry str u (genai_tool id iid c t) = Log.monad_message u iid t
entry str u (genai_delta iid t) = Log.monad_message u iid t
entry str u (logs_message m) = m
entry str u (logs_monad iid t) = Log.monad_message u iid t
entry str u (logs_usage iid t) = Log.inference_usage u iid t
entry str u (logs_invocation_error iid e t) = Log.invocation_error u iid e t

-- What the client is sent of it.
abbrev pub sent : ℕ → Call → List ServerMessage
sent u (enters iid p) = invocation_event u iid enter ∷ []
sent u (exits iid) = invocation_event u iid exit ∷ []
sent u (raises iid e) =
    error_message (record {
      iid = iid;
      name = internal_server_error;
      uid = some u;
      session_id = none;
      session_manager_id = none;
    })
    ∷ invocation_event u iid error
    ∷ []
sent u _ = []

-- What OpenTelemetry hears of it.
abbrev pub heard : Call → List Once.Event
heard (inference_error id iid e t) = Once.inference_error id ∷ []
heard (enters iid p) = Once.enter iid p ∷ []
heard (raises iid e) = Once.exception iid ∷ []
heard (exits iid) = Once.exit iid ∷ []
heard (interacts iid t (code_block id)) = Once.code_block iid id ∷ []
heard (interacts iid t (execute_result id)) = Once.execute_result iid id ∷ []
heard (genai_chat id iid c t) = Once.genai_chat id iid c ∷ []
heard (genai_tool id iid c t) = Once.genai_tool id iid c ∷ []
heard _ = []

abbrev pub all_of {ℓ} : {A : Type ℓ} → (Call → List A) → List Call → List A
all_of f [] = []
all_of f (c ∷ cs) = f c ++ all_of f cs

abbrev pub client_messages : {L : Type 0} → List (Effect L) → List ServerMessage
client_messages [] = []
client_messages (client_message s ∷ out) = s ∷ client_messages out
client_messages (_ ∷ out) = client_messages out

abbrev pub entries : ℕ → ℕ → List Call → List (ℕ × LogMessage)
entries str u cs = map (λ (c : Call). (u, entry str u c)) cs
