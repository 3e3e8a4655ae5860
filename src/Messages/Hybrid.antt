-- ===== src/Messages/Hybrid.antt =====
-- `class HybridNotifier` of `src/messages/hybrid_notifier.py`, which tells the log and the client first
-- and then OpenTelemetry, if it is there; and what `InvocationNotifier` passes on to it.
pub mod Calls
pub mod Journal
pub mod Reading
mod Tests
use agentica_server.Base.{ℕ, Bool, true, false, Option, none, some, List, [], ◌∷◌, ◌++◌}
use agentica_server.Messages.Otel.{OTelNotifier}
use agentica_server.Messages.Otel as Otel
use agentica_server.Messages.Notifier.{Effect, Notifier, LogMessage, monad_message}
use agentica_server.Messages.Notifier as Notifier

pub record HybridNotifier (L : Type 0) : Type 0 where
  pub legacy : Notifier L
  pub otel : Option OTelNotifier

-- The events of a REPL, with the id of the execution.
pub data Interaction : Type 0 where
  code_block execute_result : ℕ → Interaction

-- if self.otel: await self.otel.f(...)
unfoldable pub tell : (OTelNotifier → OTelNotifier) → Option OTelNotifier → Option OTelNotifier
tell f none = none
tell f (some o) = some (f o)

unfoldable pub on_interaction_event : ℕ → Interaction → OTelNotifier → OTelNotifier
unfolding Otel.on_code_block Otel.on_execute_result
on_interaction_event iid (code_block id) o = Otel.on_code_block iid id o
on_interaction_event iid (execute_result id) o = Otel.on_execute_result iid id o

module _ {L : Type 0} (broadcast : Bool) (str : ℕ) where
  unfoldable pub both :
      List (Effect L) × Notifier L
      → (OTelNotifier → OTelNotifier)
      → HybridNotifier L
      → List (Effect L) × HybridNotifier L
  unfolding tell
  both (out, n) f h = (out, record { legacy = n; otel = tell f h.otel })

  unfoldable pub legacy_only :
      List (Effect L) × Notifier L → HybridNotifier L → List (Effect L) × HybridNotifier L
  legacy_only (out, n) h = (out, record h { legacy = n })

  -- `_log_structured`, with the text of the payload.
  unfoldable pub log_structured : ℕ → ℕ → Notifier L → List (Effect L) × Notifier L
  unfolding Notifier.append_to_log
  log_structured iid body n =
      Notifier.append_to_log broadcast str (Notifier.monad_message n.uid iid body) n

  unfoldable pub append_to_log : LogMessage → HybridNotifier L → List (Effect L) × HybridNotifier L
  unfolding legacy_only Notifier.append_to_log
  append_to_log message h = legacy_only (Notifier.append_to_log broadcast str message h.legacy) h

  -- `InvocationNotifier.log_monad`
  unfoldable pub log_monad : ℕ → ℕ → HybridNotifier L → List (Effect L) × HybridNotifier L
  unfolding append_to_log
  log_monad iid body h = append_to_log (Notifier.monad_message h.legacy.uid iid body) h

  -- `InvocationNotifier.log_usage`, with what `usage.to_dict()` gives.
  unfoldable pub log_usage : ℕ → ℕ → HybridNotifier L → List (Effect L) × HybridNotifier L
  unfolding append_to_log
  log_usage iid usage h = append_to_log (Notifier.inference_usage h.legacy.uid iid usage) h

  -- `InvocationNotifier.log_invocation_error`
  unfoldable pub log_invocation_error :
      ℕ → ℕ → Option ℕ → HybridNotifier L → List (Effect L) × HybridNotifier L
  unfolding append_to_log
  log_invocation_error iid error_type error_message h =
      append_to_log (Notifier.invocation_error h.legacy.uid iid error_type error_message) h

  unfoldable pub on_inference_request :
      ℕ → ℕ → ℕ → Option ℕ → HybridNotifier L → List (Effect L) × HybridNotifier L
  unfolding legacy_only Notifier.on_inference_request
  on_inference_request id iid request timeout h =
      legacy_only (Notifier.on_inference_request broadcast str id iid request timeout h.legacy) h

  unfoldable pub on_inference_response :
      ℕ → ℕ → ℕ → HybridNotifier L → List (Effect L) × HybridNotifier L
  unfolding legacy_only Notifier.on_inference_response
  on_inference_response id iid response h =
      legacy_only (Notifier.on_inference_response broadcast str id iid response h.legacy) h

  unfoldable pub on_inference_error :
      ℕ → ℕ → ℕ → ℕ → HybridNotifier L → List (Effect L) × HybridNotifier L
  unfolding both Notifier.on_inference_error Otel.on_inference_error
  on_inference_error id iid error_type message h =
      both (Notifier.on_inference_error broadcast str id iid error_type message h.legacy)
        (Otel.on_inference_error id) h

  -- `parent` is the span that OpenTelemetry finds for the parent invocation.
  unfoldable pub on_enter : ℕ → Option ℕ → HybridNotifier L → List (Effect L) × HybridNotifier L
  unfolding both Notifier.on_enter Otel.on_enter
  on_enter iid parent h =
      both (Notifier.on_enter broadcast str iid h.legacy) (Otel.on_enter iid parent) h

  unfoldable pub on_exception : ℕ → ℕ → HybridNotifier L → List (Effect L) × HybridNotifier L
  unfolding both Notifier.on_exception Otel.on_exception
  on_exception iid err h =
      both (Notifier.on_exception broadcast str iid err h.legacy) (Otel.on_exception iid) h

  unfoldable pub on_exit : ℕ → HybridNotifier L → List (Effect L) × HybridNotifier L
  unfolding both Notifier.on_exit Otel.on_exit
  on_exit iid h = both (Notifier.on_exit broadcast str iid h.legacy) (Otel.on_exit iid) h

  -- What OpenTelemetry keeps of the request are attributes.
  unfoldable pub on_create_agent : ℕ → HybridNotifier L → List (Effect L) × HybridNotifier L
  unfolding both Notifier.on_create_agent
  on_create_agent body h = both (Notifier.on_create_agent broadcast str body h.legacy) (λ o. o) h

  unfoldable pub on_destroy_agent : HybridNotifier L → List (Effect L) × HybridNotifier L
  unfolding legacy_only Notifier.on_destroy_agent
  on_destroy_agent h = legacy_only (Notifier.on_destroy_agent broadcast str h.legacy) h

  unfoldable pub log_interaction :
      ℕ → ℕ → Interaction → HybridNotifier L → List (Effect L) × HybridNotifier L
  unfolding both Notifier.log_interaction on_interaction_event
  log_interaction iid body event h =
      both (Notifier.log_interaction broadcast str iid body h.legacy)
        (on_interaction_event iid event) h

  unfoldable pub log_genai_chat :
      ℕ → ℕ → Bool → ℕ → HybridNotifier L → List (Effect L) × HybridNotifier L
  unfolding both log_structured Otel.on_genai_chat
  log_genai_chat id iid is_complete payload h =
      both (log_structured iid payload h.legacy) (Otel.on_genai_chat id iid is_complete) h

  unfoldable pub log_genai_tool :
      ℕ → ℕ → Bool → ℕ → HybridNotifier L → List (Effect L) × HybridNotifier L
  unfolding both log_structured Otel.on_genai_tool
  log_genai_tool id iid is_error payload h =
      both (log_structured iid payload h.legacy) (Otel.on_genai_tool id iid is_error) h

  -- A chunk of text is an event of its span, and ends no span.
  unfoldable pub log_genai_delta : ℕ → ℕ → HybridNotifier L → List (Effect L) × HybridNotifier L
  unfolding both log_structured
  log_genai_delta iid payload h = both (log_structured iid payload h.legacy) (λ o. o) h
