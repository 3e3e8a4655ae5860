-- ===== src/Messages/Hybrid/Tests.antt =====
-- The notifiers of `src/messages` over one short invocation: tests, and the theorem at work.
use agentica_server.Base.{ℕ, ◌≡◌, true, none, List, [], ◌∷◌, map}
use agentica_server.Messages.Holder.{get_by_key, max_messages}
use agentica_server.Messages.Holder.Bounded.{last_n}
use agentica_server.Messages.Hybrid.Calls.{
  Call, enters, raises, exits, logs_usage, inference_request, notify_all, entry, sent, all_of,
  client_messages,
}
use agentica_server.Messages.Hybrid.Reading.{new_hybrid, IsTraced, notify_all-read}

abbrev calls : List Call
calls =
    enters 40 none
    ∷ inference_request 6 40 77 none
    ∷ logs_usage 40 12
    ∷ raises 40 13
    ∷ exits 40
    ∷ []

notify_all-read_example :
    let (out, h) = notify_all true 3 calls (new_hybrid {L = ℕ} 20 true) in
    ((get_by_key 20 none h.legacy.logs).0 ≡ last_n max_messages (map (entry 3 20) calls))
    × (client_messages out ≡ all_of (sent 20) calls)
    × IsTraced calls true h.otel
notify_all-read_example = notify_all-read ℕ true 3 20 true calls
