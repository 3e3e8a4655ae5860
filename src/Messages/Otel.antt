-- ===== src/Messages/Otel.antt =====
-- `src/messages/otel_notifier.py`: the spans of one agent. A span is a number; `spans` is what the
-- tracer knows of them. Attributes and events of spans, and the calls that register a span for
-- other agents, are left out.
pub mod Spans
pub mod Once
pub mod Tests
use agentica_server.Base.{
  ℕ, ◌+◌, Bool, true, false, Option, none, some, List, [], ◌∷◌, ◌==◌, if◌then◌else◌, Dict, get, put,
  erase,
}

-- What a span is for: the session, an iid, an inference id or a tool id.
pub data Role : Type 0 where
  session : Role
  invocation llm tool : ℕ → Role

-- The last status that was set, as the tracer keeps it when an error is followed by a success.
pub data Status : Type 0 where
  unset success failure : Status

-- `ends` counts the calls of `end`.
pub record Span : Type 0 where
  pub role : Role
  pub parent : Option ℕ
  pub status : Status
  pub ends : ℕ

pub record OTelNotifier : Type 0 where
  pub session_span : Option ℕ
  pub invocation_spans : Dict ℕ
  pub llm_spans : Dict ℕ
  pub tool_spans : Dict ℕ
  pub spans : Dict Span
  pub next : ℕ

-- tracer.start_span
unfoldable pub start_span : Role → Option ℕ → OTelNotifier → OTelNotifier
start_span role parent n = record n {
  spans = put n.next (record { role = role; parent = parent; status = unset; ends = 0 }) n.spans;
  next = n.next + 1;
}

unfoldable pub modify : ℕ → (Span → Span) → Dict Span → Dict Span
modify k f [] = []
modify k f ((i, s) ∷ d) = if i == k then (i, f s) ∷ d else (i, s) ∷ modify k f d

-- span.set_status
unfoldable pub set_status : Status → ℕ → OTelNotifier → OTelNotifier
unfolding modify
set_status status s n = record n { spans = modify s (λ sp. record sp { status = status }) n.spans }

-- span.end
unfoldable pub end_span : ℕ → OTelNotifier → OTelNotifier
unfolding modify
end_span s n = record n { spans = modify s (λ sp. record sp { ends = sp.ends + 1 }) n.spans }

-- The span that the notifier holds for a role.
unfoldable pub tracked : Role → OTelNotifier → Option ℕ
tracked session n = n.session_span
tracked (invocation iid) n = get iid n.invocation_spans
tracked (llm id) n = get id n.llm_spans
tracked (tool id) n = get id n.tool_spans

unfoldable pub track : Role → ℕ → OTelNotifier → OTelNotifier
track session s n = record n { session_span = some s }
track (invocation iid) s n = record n { invocation_spans = put iid s n.invocation_spans }
track (llm id) s n = record n { llm_spans = put id s n.llm_spans }
track (tool id) s n = record n { tool_spans = put id s n.tool_spans }

unfoldable pub untrack : Role → OTelNotifier → OTelNotifier
untrack session n = record n { session_span = none }
untrack (invocation iid) n = record n { invocation_spans = erase iid n.invocation_spans }
untrack (llm id) n = record n { llm_spans = erase id n.llm_spans }
untrack (tool id) n = record n { tool_spans = erase id n.tool_spans }

-- A new span, held under its role.
unfoldable pub open_span : Role → Option ℕ → OTelNotifier → OTelNotifier
unfolding start_span track
open_span role parent n = track role n.next (start_span role parent n)

-- pop, set_status and end, where there is a span
unfoldable pub close_span : Role → Status → OTelNotifier → OTelNotifier
unfolding untrack set_status end_span tracked
close_span role status n = elim (tracked role n) [
  | none ↦ n
  | some s ↦ end_span s (set_status status s (untrack role n))
]

-- `parent` is the span that `get_invocation_span` finds for the parent's invocation.
unfoldable pub ensure_session : Option ℕ → OTelNotifier → OTelNotifier
unfolding open_span
ensure_session parent n = elim n.session_span [ none ↦ open_span session parent n | some s ↦ n ]

unfoldable pub on_enter : ℕ → Option ℕ → OTelNotifier → OTelNotifier
unfolding ensure_session open_span
on_enter iid parent n =
    open_span (invocation iid) (ensure_session parent n).session_span (ensure_session parent n)

unfoldable pub on_exit : ℕ → OTelNotifier → OTelNotifier
unfolding close_span
on_exit iid n = close_span (invocation iid) success n

unfoldable pub on_exception : ℕ → OTelNotifier → OTelNotifier
unfolding set_status
on_exception iid n = elim (get iid n.invocation_spans) [
  | none ↦ n
  | some s ↦ set_status failure s n
]

unfoldable pub end_session_span : OTelNotifier → OTelNotifier
unfolding close_span
end_session_span n = close_span session success n

unfoldable pub on_inference_error : ℕ → OTelNotifier → OTelNotifier
unfolding close_span
on_inference_error id n = close_span (llm id) failure n

-- An `InteractionCodeBlock`: without a span for the invocation nothing happens.
unfoldable pub on_code_block : ℕ → ℕ → OTelNotifier → OTelNotifier
unfolding open_span
on_code_block iid exec_id n = elim (get iid n.invocation_spans) [
  | none ↦ n
  | some parent ↦ open_span (tool exec_id) (some parent) n
]

-- An `InteractionExecuteResult`.
unfoldable pub on_execute_result : ℕ → ℕ → OTelNotifier → OTelNotifier
unfolding close_span
on_execute_result iid exec_id n = elim (get iid n.invocation_spans) [
  | none ↦ n
  | some parent ↦ close_span (tool exec_id) success n
]

-- self._invocation_spans.get(iid) if iid else self._session_span
unfoldable pub parent_of : ℕ → OTelNotifier → Option ℕ
parent_of iid n = if iid == 0 then n.session_span else get iid n.invocation_spans

-- `_ensure_llm_span` and `_ensure_tool_span`.
unfoldable pub ensure_span : Role → ℕ → OTelNotifier → OTelNotifier
unfolding open_span parent_of tracked
ensure_span role iid n = elim (tracked role n) [
  | some s ↦ n
  | none ↦ open_span role (parent_of iid n) n
]

-- `is_complete` is whether the event has output messages.
unfoldable pub on_genai_chat : ℕ → ℕ → Bool → OTelNotifier → OTelNotifier
unfolding ensure_span close_span
on_genai_chat id iid is_complete n =
    let n' = ensure_span (llm id) iid n in
    if is_complete then close_span (llm id) success n' else n'

-- `is_error` is whether the event has an error type or message.
unfoldable pub on_genai_tool : ℕ → ℕ → Bool → OTelNotifier → OTelNotifier
unfolding ensure_span close_span
on_genai_tool id iid is_error n =
    if id == 0
    then n
    else close_span (tool id) (if is_error then failure else success) (ensure_span (tool id) iid n)
