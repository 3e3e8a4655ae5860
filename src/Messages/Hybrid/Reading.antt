-- ===== src/Messages/Hybrid/Reading.antt =====
-- What readers find after a sequence of calls of the notifiers of `src/messages`, from a fresh log on.
use agentica_server.Base.{
  ℕ, ◌≤◌, ◌≡◌, refl, sym, ap, ◌∙◌, Bool, true, false, Option, none, some, List, [], ◌∷◌, ◌++◌, map,
  arith, append_assoc, append-nil, get, put, length,
}
use agentica_server.Messages.Holder.{init, get_by_key, max_messages}
use agentica_server.Messages.Holder.Bounded.{last_n}
use agentica_server.Messages.Holder.History.{or_empty, remember, remember_all, get_by_key-add_all}
use agentica_server.Messages.Otel.{OTelNotifier}
use agentica_server.Messages.Otel.Spans.{IsOnce}
use agentica_server.Messages.Otel.Once.{new_notifier, on_events, on_events-IsOnce}
use agentica_server.Messages.Notifier.{LogMessage}
use agentica_server.Messages.Hybrid.{HybridNotifier, tell}
use agentica_server.Messages.Hybrid.Calls.{
  Call, notify_all, entry, entries, sent, heard, all_of, client_messages,
}
use agentica_server.Messages.Hybrid.Journal.{notify_all-LeavesAll}

remember_one :
    (u : ℕ) (m : LogMessage) (ms : List LogMessage)
    → remember u m ((u, ms) ∷ []) ≡ (u, ms ++ m ∷ []) ∷ []
unfolding remember get put
remember_one u m ms = ground arith

remember_all-entries :
    (str u : ℕ) (cs : List Call) (ms : List LogMessage)
    → remember_all (entries str u cs) ((u, ms) ∷ []) ≡ (u, ms ++ map (entry str u) cs) ∷ []
unfolding remember_all
remember_all-entries str u [] ms = ap (λ r. (u, r) ∷ []) (sym (append-nil ms))
remember_all-entries str u (c ∷ cs) ms =
    ap (remember_all (entries str u cs)) (remember_one u (entry str u c) ms)
    ∙ remember_all-entries str u cs (ms ++ entry str u c ∷ [])
    ∙ ap (λ r. (u, r) ∷ []) (append_assoc ms (entry str u c ∷ []) (map (entry str u) cs))

remembered :
    (str u : ℕ) (cs : List Call)
    → (or_empty (get u (remember_all (entries str u cs) [])) ≡ map (entry str u) cs)
      × (length (remember_all (entries str u cs) []) ≤ 1)
unfolding remember_all remember get put
remembered str u [] = (refl, omega arith)
remembered str u (c ∷ cs) =
    let e = remember_all-entries str u cs (entry str u c ∷ []) in
    (rw e (ground arith), rw e (omega arith))

-- A notifier with a fresh log, and a new one for OpenTelemetry where that is configured.
abbrev pub traced_by : Bool → Option OTelNotifier
traced_by true = some new_notifier
traced_by false = none

abbrev pub new_hybrid : {L : Type 0} → ℕ → Bool → HybridNotifier L
new_hybrid u traced = record { legacy = record { uid = u; logs = init }; otel = traced_by traced }

-- The spans after the calls that OpenTelemetry hears of, none of them ended twice.
abbrev pub IsTraced : List Call → Bool → Option OTelNotifier → Type 0
IsTraced cs true o =
    (o ≡ some (on_events (all_of heard cs) new_notifier))
    × IsOnce (on_events (all_of heard cs) new_notifier)
IsTraced cs false o = o ≡ none

traced_lem :
    (cs : List Call) (traced : Bool) (o : Option OTelNotifier)
    → o ≡ tell (on_events (all_of heard cs)) (traced_by traced)
    → IsTraced cs traced o
unfolding tell
traced_lem cs true o e = (e, on_events-IsOnce (all_of heard cs))
traced_lem cs false o e = e

module _ (L : Type 0) (broadcast : Bool) (str u : ℕ) (traced : Bool) where
  -- Whatever an agent's calls are: from a fresh log on, a reader of the agent's key finds the last
  -- 1024 of the entries of all calls, one for each call, in order; the client was sent the messages
  -- of all calls, in order; and a new notifier of OpenTelemetry, where there is one, heard of the calls
  -- that it is told of, in order, and no span was ended twice.
  pub notify_all-read :
      (cs : List Call)
      → let (out, h) = notify_all broadcast str cs (new_hybrid {L = L} u traced) in
        ((get_by_key u none h.legacy.logs).0 ≡ last_n max_messages (map (entry str u) cs))
        × (client_messages out ≡ all_of (sent u) cs)
        × IsTraced cs traced h.otel
  notify_all-read cs =
      let (a, b, c) = notify_all-LeavesAll broadcast str u cs (new_hybrid {L = L} u traced) refl in
      let (r, l) = remembered str u cs in
      (
        ap (λ h. (get_by_key u none h).0) a
            ∙ get_by_key-add_all L (entries str u cs) u (omega (arith, l))
            ∙ ap (last_n max_messages) r,
        c,
        traced_lem cs traced _ b,
      )
