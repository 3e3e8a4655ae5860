-- ===== src/Messages/Otel/Tests.antt =====
-- The spans of `src/messages/otel_notifier.py` in a short run: tests, and the theorems at work.
use agentica_server.Base.{
  ℕ, ◌≡◌, refl, Bool, true, false, Option, none, some, List, [], ◌∷◌, map, get,
}
use agentica_server.Messages.Otel.{
  Role, Status, success, failure, Span, OTelNotifier, on_exit, on_exception, modify,
}
use agentica_server.Messages.Otel.Spans.{ends_in, IsOnce}
use agentica_server.Messages.Otel.Once.{
  enter, exit, code_block, execute_result, genai_chat, inference_error, end_session, Event,
  on_events, new_notifier, on_events-IsOnce, status_in, on_exit-on_exception,
}

abbrev a_run : List Event
a_run =
    enter 4 none
    ∷ genai_chat 50 4 false
    ∷ code_block 4 60
    ∷ execute_result 4 60
    ∷ genai_chat 50 4 true
    ∷ inference_error 50
    ∷ exit 4
    ∷ exit 4
    ∷ end_session
    ∷ []

on_events-IsOnce_example : IsOnce (on_events a_run new_notifier)
on_events-IsOnce_example = on_events-IsOnce a_run

abbrev opened : OTelNotifier
opened = on_events (enter 4 none ∷ []) new_notifier

-- The invocation's span nests under that of the session, which is opened with it.
nested_test :
    (get 1 opened.spans)
    ≡ some (record { role = Role.invocation 4; parent = some 0; status = Status.unset; ends = 0 })
unfolding get agentica_server.Messages.Otel.on_enter agentica_server.Base.put
nested_test = refl

held : get 4 opened.invocation_spans ≡ some 1
unfolding get agentica_server.Messages.Otel.on_enter agentica_server.Base.put
held = refl

on_exit-on_exception_example :
    let n = on_exit 4 (on_exception 4 opened) in
    (status_in (get 1 n.spans) ≡ some success)
    × (ends_in (get 1 n.spans) ≡ 1)
    × (get 4 n.invocation_spans ≡ none)
on_exit-on_exception_example =
    on_exit-on_exception 4 1 opened (on_events-IsOnce (enter 4 none ∷ [])) held
