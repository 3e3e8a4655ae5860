-- ===== src/Messages/Otel/Once.antt =====
-- Every span of `src/messages/otel_notifier.py` is ended at most once.
use agentica_server.Base.{
  ℕ, ◌≡◌, refl, Bool, true, false, Option, none, some, List, [], ◌∷◌, arith, ◌==◌, if◌then◌else◌,
  get, Option-cases, Bool-cases, inl, inr,
}
use agentica_server.Messages.Otel.{
  Role, session, invocation, llm, tool, Status, success, failure, Span, OTelNotifier, set_status,
  tracked, close_span, ensure_session, on_enter, on_exit, on_exception, end_session_span,
  on_inference_error, on_code_block, on_execute_result, parent_of, ensure_span, on_genai_chat,
  on_genai_tool,
}
use agentica_server.Messages.Otel.Spans.{
  ends_in, same_refl, get-modify, tracked-spans, IsOnce, open_span-IsOnce, ended, tracked-ended,
  spans-ended, ended-IsOnce,
}

close_span-IsOnce :
    (r : Role) (st : Status) (n : OTelNotifier) → IsOnce n → IsOnce (close_span r st n)
unfolding close_span
close_span-IsOnce r st n h = elim (Option-cases (tracked r n)) [
  | inl e ↦ rw (e, close_span) h
  | inr (s, e) ↦ rw (e, close_span) (ended-IsOnce r st s n h e)
]

set_status-IsOnce : (st : Status) (s : ℕ) (n : OTelNotifier) → IsOnce n → IsOnce (set_status st s n)
unfolding set_status
set_status-IsOnce st s n h =
    let law = get-modify s in
    let same_tracked = λ (r : Role). tracked-spans r n (set_status st s n).spans n.next in
    record {
      known = λ r x g.
          ground
            (arith, same_tracked r, law x (λ sp. record sp { status = st }) n.spans, h.known r x);
      live = λ r x g.
          ground
            (arith, same_tracked r, law x (λ sp. record sp { status = st }) n.spans, h.live r x);
      once = λ x. ground (arith, law x (λ sp. record sp { status = st }) n.spans, h.once x);
      fresh = λ x l. ground (arith, law x (λ sp. record sp { status = st }) n.spans, h.fresh x);
    }

ensure_session-IsOnce : (p : Option ℕ) (n : OTelNotifier) → IsOnce n → IsOnce (ensure_session p n)
unfolding ensure_session
ensure_session-IsOnce p n h = elim (Option-cases n.session_span) [
  | inl e ↦ rw (e, ensure_session) (open_span-IsOnce session p n h)
  | inr (s, e) ↦ rw (e, ensure_session) h
]

ensure_span-IsOnce :
    (r : Role) (iid : ℕ) (n : OTelNotifier) → IsOnce n → IsOnce (ensure_span r iid n)
unfolding ensure_span
ensure_span-IsOnce r iid n h = elim (Option-cases (tracked r n)) [
  | inl e ↦ rw (e, ensure_span) (open_span-IsOnce r (parent_of iid n) n h)
  | inr (s, e) ↦ rw (e, ensure_span) h
]

-- The calls that a notifier gets.
pub data Event : Type 0 where
  enter : ℕ → Option ℕ → Event
  exit exception inference_error : ℕ → Event
  end_session : Event
  code_block execute_result : ℕ → ℕ → Event
  genai_chat genai_tool : ℕ → ℕ → Bool → Event

abbrev pub on_event : Event → OTelNotifier → OTelNotifier
on_event (enter iid parent) n = on_enter iid parent n
on_event (exit iid) n = on_exit iid n
on_event (exception iid) n = on_exception iid n
on_event (inference_error id) n = on_inference_error id n
on_event end_session n = end_session_span n
on_event (code_block iid id) n = on_code_block iid id n
on_event (execute_result iid id) n = on_execute_result iid id n
on_event (genai_chat id iid c) n = on_genai_chat id iid c n
on_event (genai_tool id iid c) n = on_genai_tool id iid c n

abbrev pub on_events : List Event → OTelNotifier → OTelNotifier
on_events [] n = n
on_events (e ∷ es) n = on_events es (on_event e n)

on_event-IsOnce : (e : Event) (n : OTelNotifier) → IsOnce n → IsOnce (on_event e n)
unfolding on_enter on_exit end_session_span on_inference_error on_exception on_code_block
    on_execute_result on_genai_chat on_genai_tool
on_event-IsOnce (enter iid p) n h =
    open_span-IsOnce (invocation iid) (ensure_session p n).session_span (ensure_session p n)
      (ensure_session-IsOnce p n h)
on_event-IsOnce (exit iid) n h = close_span-IsOnce (invocation iid) success n h
on_event-IsOnce (exception iid) n h = elim (Option-cases (get iid n.invocation_spans)) [
  | inl e ↦ rw (e, on_exception) h
  | inr (s, e) ↦ rw (e, on_exception) (set_status-IsOnce failure s n h)
]
on_event-IsOnce (inference_error id) n h = close_span-IsOnce (llm id) failure n h
on_event-IsOnce end_session n h = close_span-IsOnce session success n h
on_event-IsOnce (code_block iid id) n h = elim (Option-cases (get iid n.invocation_spans)) [
  | inl e ↦ rw (e, on_code_block) h
  | inr (s, e) ↦ rw (e, on_code_block) (open_span-IsOnce (tool id) (some s) n h)
]
on_event-IsOnce (execute_result iid id) n h = elim (Option-cases (get iid n.invocation_spans)) [
  | inl e ↦ rw (e, on_execute_result) h
  | inr (s, e) ↦ rw (e, on_execute_result) (close_span-IsOnce (tool id) success n h)
]
on_event-IsOnce (genai_chat id iid true) n h =
    close_span-IsOnce (llm id) success (ensure_span (llm id) iid n)
      (ensure_span-IsOnce (llm id) iid n h)
on_event-IsOnce (genai_chat id iid false) n h = ensure_span-IsOnce (llm id) iid n h
on_event-IsOnce (genai_tool id iid c) n h = elim (Bool-cases (id == 0)) [
  | inl e ↦ rw e h
  | inr e ↦ rw e (
      close_span-IsOnce (tool id) (if c then failure else success) (ensure_span (tool id) iid n)
        (ensure_span-IsOnce (tool id) iid n h))
]

abbrev pub new_notifier : OTelNotifier
new_notifier = record {
  session_span = none;
  invocation_spans = [];
  llm_spans = [];
  tool_spans = [];
  spans = [];
  next = 0;
}

none_tracked : (r : Role) → tracked r new_notifier ≡ none
unfolding tracked get
none_tracked session = refl
none_tracked (invocation i) = refl
none_tracked (llm i) = refl
none_tracked (tool i) = refl

new_notifier-IsOnce : IsOnce new_notifier
unfolding tracked get
new_notifier-IsOnce = record {
  known = λ r s e. absurd (ground (arith, none_tracked r));
  live = λ r s e. omega arith;
  once = λ s. omega arith;
  fresh = λ s l. refl;
}

pub events_keep : (es : List Event) (n : OTelNotifier) → IsOnce n → IsOnce (on_events es n)
events_keep [] n h = h
events_keep (e ∷ es) n h = events_keep es (on_event e n) (on_event-IsOnce e n h)

-- Along every sequence of calls from a new notifier no span is ended twice, in whatever order the
-- calls come, and every span that the notifier still holds is not ended and stands under its role.
pub on_events-IsOnce : (es : List Event) → IsOnce (on_events es new_notifier)
on_events-IsOnce es = events_keep es new_notifier new_notifier-IsOnce

abbrev pub status_in : Option Span → Option Status
status_in none = none
status_in (some sp) = some sp.status

close_span_lem :
    (r : Role) (st : Status) (s : ℕ) (n : OTelNotifier)
    → IsOnce n
    → tracked r n ≡ some s
    → (status_in (get s (close_span r st n).spans) ≡ some st)
      × (ends_in (get s (close_span r st n).spans) ≡ 1)
      × (tracked r (close_span r st n) ≡ none)
close_span_lem r st s n h e =
    let q : close_span r st n ≡ ended r st s n h = unfold close_span in rw (e, close_span) refl in
    rw q (
      ground (arith, spans-ended r st s n h s, h.known r s e),
      ground (arith, spans-ended r st s n h s, h.known r s e, h.live r s e),
      ground (arith, tracked-ended r st s n h r, same_refl r),
    )

-- An invocation that has raised ends as a success: after `on_exception` and then `on_exit`, as the
-- multiplexer calls them, the last status of its span is the one of a success, the span is ended
-- once, and the notifier no longer holds it.
pub on_exit-on_exception :
    (iid s : ℕ) (n : OTelNotifier)
    → IsOnce n
    → get iid n.invocation_spans ≡ some s
    → let n' = on_exit iid (on_exception iid n) in
      (status_in (get s n'.spans) ≡ some success)
      × (ends_in (get s n'.spans) ≡ 1)
      × (get iid n'.invocation_spans ≡ none)
on_exit-on_exception iid s n h e =
    let q : on_exception iid n ≡ set_status failure s n =
      unfold on_exception in rw (e, on_exception) refl in
    rw q (
      unfold on_exit tracked in
      (close_span_lem (invocation iid) success s (set_status failure s n)
        (set_status-IsOnce failure s n h) (unfold set_status in e)))
