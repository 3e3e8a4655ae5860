-- ===== src/Messages/Hybrid/Journal.antt =====
-- What a sequence of calls of the notifiers of `src/messages` leaves: the agent's log, the messages to
-- the client and the spans.
use agentica_server.Base.{
  ℕ, ◌≡◌, refl, ap, ◌∙◌, Bool, Option, none, some, List, [], ◌∷◌, ◌++◌, map, subst, fun_ext,
  Bool-cases, inl, inr,
}
use agentica_server.Multiplexer.Protocol.{ServerMessage}
use agentica_server.Messages.Holder.{add}
use agentica_server.Messages.Holder.History.{add_all}
use agentica_server.Messages.Otel.{OTelNotifier}
use agentica_server.Messages.Otel.Once.{on_events, on_events-IsOnce}
use agentica_server.Messages.Otel.Once as Once
use agentica_server.Messages.Notifier.{
  Effect, posted, listener_called, client_message, LogMessage, Notifier, append_to_log,
  append_and_send,
}
use agentica_server.Messages.Notifier as Log
use agentica_server.Messages.Hybrid.{
  HybridNotifier, Interaction, code_block, execute_result, tell, on_interaction_event,
}
use agentica_server.Messages.Hybrid as Hybrid
use agentica_server.Messages.Hybrid.Calls.{
  Call, inference_request, inference_response, inference_error, enters, raises, exits, interacts,
  creates_agent, destroys_agent, genai_chat, genai_tool, genai_delta, logs_message, logs_monad,
  logs_usage, logs_invocation_error, notify, notify_all, entry, sent, heard, all_of,
  client_messages, entries,
}

client_messages-append :
    {L : Type 0} (xs ys : List (Effect L))
    → client_messages (xs ++ ys) ≡ client_messages xs ++ client_messages ys
client_messages-append [] ys = refl
client_messages-append (client_message s ∷ xs) ys = ap (λ r. s ∷ r) (client_messages-append xs ys)
client_messages-append (posted m ∷ xs) ys = client_messages-append xs ys
client_messages-append (listener_called l m ∷ xs) ys = client_messages-append xs ys

called_none :
    {L : Type 0} (xs : List (L × LogMessage))
    → client_messages (map (λ (c : L × LogMessage). listener_called c.0 c.1) xs) ≡ []
called_none [] = refl
called_none (x ∷ xs) = called_none xs

sent_all :
    (L : Type 0) (xs : List ServerMessage)
    → client_messages {L = L} (map (λ (s : ServerMessage). client_message s) xs) ≡ xs
sent_all L [] = refl
sent_all L (x ∷ xs) = ap (λ r. x ∷ r) (sent_all L xs)

tell_id : (o : Option OTelNotifier) → o ≡ tell (λ x. x) o
unfolding tell
tell_id none = refl
tell_id (some o) = refl

tell-tell :
    (f g : OTelNotifier → OTelNotifier) (o : Option OTelNotifier)
    → tell g (tell f o) ≡ tell (λ x. g (f x)) o
unfolding tell
tell-tell f g none = refl
tell-tell f g (some o) = refl

on_events-append :
    (xs ys : List Once.Event) (o : OTelNotifier)
    → on_events ys (on_events xs o) ≡ on_events (xs ++ ys) o
on_events-append [] ys o = refl
on_events-append (x ∷ xs) ys o = on_events-append xs ys (Once.on_event x o)

tell-on_events :
    (xs ys : List Once.Event) (o : Option OTelNotifier)
    → tell (on_events ys) (tell (on_events xs) o) ≡ tell (on_events (xs ++ ys)) o
tell-on_events xs ys o =
    tell-tell (on_events xs) (on_events ys) o
    ∙ ap (λ f. tell f o) (fun_ext (λ x. on_events-append xs ys x))

module _ {L : Type 0} (broadcast : Bool) (str : ℕ) where
  append_sends_nothing :
      (m : LogMessage) (n : Notifier L) → client_messages (append_to_log broadcast str m n).0 ≡ []
  unfolding append_to_log
  append_sends_nothing m n = elim (Bool-cases broadcast) [
    | inl e ↦ rw e (called_none (add n.uid m n.logs).0)
    | inr e ↦ rw e (called_none (add n.uid m n.logs).0)
  ]

  -- One entry under `u`, `xs` to the client, and `f` to OpenTelemetry.
  abbrev Leaves :
      ℕ
      → LogMessage
      → List ServerMessage
      → (OTelNotifier → OTelNotifier)
      → HybridNotifier L
      → List (Effect L) × HybridNotifier L
      → Type 0
  Leaves u m xs f h (out, h') =
      (h'.legacy.logs ≡ (add u m h.legacy.logs).1)
      × (h'.legacy.uid ≡ u)
      × (h'.otel ≡ tell f h.otel)
      × (client_messages out ≡ xs)

  append-Leaves :
      (m : LogMessage) (f : OTelNotifier → OTelNotifier) (h : HybridNotifier L)
      → Leaves h.legacy.uid m [] f h
          (Hybrid.both broadcast str (append_to_log broadcast str m h.legacy) f h)
  unfolding Hybrid.both append_to_log
  append-Leaves m f h = (refl, refl, refl, append_sends_nothing m h.legacy)

  append_only-Leaves :
      (m : LogMessage) (h : HybridNotifier L)
      → Leaves h.legacy.uid m []
          (λ o. o)
          h
          (Hybrid.legacy_only broadcast str (append_to_log broadcast str m h.legacy) h)
  unfolding Hybrid.legacy_only append_to_log
  append_only-Leaves m h = (refl, refl, tell_id h.otel, append_sends_nothing m h.legacy)

  send-Leaves :
      (m : LogMessage) (xs : List ServerMessage) (f : OTelNotifier → OTelNotifier)
      → (h : HybridNotifier L)
      → Leaves h.legacy.uid m xs f h
          (Hybrid.both broadcast str (append_and_send broadcast str m xs h.legacy) f h)
  unfolding Hybrid.both append_and_send append_to_log
  send-Leaves m xs f h = (
    refl,
    refl,
    refl,
    client_messages-append (append_to_log broadcast str m h.legacy).0 _
        ∙ ap (λ r. r ++ client_messages {L = L} (map (λ (s : ServerMessage). client_message s) xs))
            (append_sends_nothing m h.legacy)
        ∙ sent_all L xs,
  )

  notify-Leaves :
      (c : Call) (h : HybridNotifier L)
      → Leaves h.legacy.uid
          (entry str h.legacy.uid c)
          (sent h.legacy.uid c)
          (on_events (heard c))
          h
          (notify broadcast str c h)
  unfolding notify Hybrid.on_inference_request Hybrid.on_inference_response
      Hybrid.on_inference_error Hybrid.on_enter Hybrid.on_exception Hybrid.on_exit
      Hybrid.log_interaction Hybrid.on_create_agent Hybrid.on_destroy_agent Hybrid.log_genai_chat
      Hybrid.log_genai_tool Hybrid.log_genai_delta Hybrid.log_structured Hybrid.append_to_log
      Hybrid.log_monad Hybrid.log_usage Hybrid.log_invocation_error Log.on_inference_request
      Log.on_inference_response Log.on_inference_error Log.on_enter Log.on_exception Log.on_exit
      Log.log_interaction Log.on_create_agent Log.on_destroy_agent on_interaction_event
  notify-Leaves (inference_request id iid t o) h = append_only-Leaves _ h
  notify-Leaves (inference_response id iid t) h = append_only-Leaves _ h
  notify-Leaves (inference_error id iid e t) h = append-Leaves _ _ h
  notify-Leaves (enters iid p) h = send-Leaves _ _ _ h
  notify-Leaves (raises iid e) h = send-Leaves _ _ _ h
  notify-Leaves (exits iid) h = send-Leaves _ _ _ h
  notify-Leaves (interacts iid t (code_block id)) h = append-Leaves _ _ h
  notify-Leaves (interacts iid t (execute_result id)) h = append-Leaves _ _ h
  notify-Leaves (creates_agent b) h = append-Leaves _ _ h
  notify-Leaves destroys_agent h = append_only-Leaves _ h
  notify-Leaves (genai_chat id iid c t) h = append-Leaves _ _ h
  notify-Leaves (genai_tool id iid c t) h = append-Leaves _ _ h
  notify-Leaves (genai_delta iid t) h = append-Leaves _ _ h
  notify-Leaves (logs_message m) h = append_only-Leaves _ h
  notify-Leaves (logs_monad iid t) h = append_only-Leaves _ h
  notify-Leaves (logs_usage iid t) h = append_only-Leaves _ h
  notify-Leaves (logs_invocation_error iid e t) h = append_only-Leaves _ h

  notify-Leaves_at :
      (u : ℕ) (c : Call) (h : HybridNotifier L)
      → h.legacy.uid ≡ u
      → Leaves u (entry str u c) (sent u c) (on_events (heard c)) h (notify broadcast str c h)
  notify-Leaves_at u c h e =
      subst
        (λ v.
          Leaves v (entry str v c) (sent v c) (on_events (heard c)) h (notify broadcast str c h))
        e (notify-Leaves c h)

  -- What a sequence of calls leaves.
  abbrev pub LeavesAll :
      ℕ → List Call → HybridNotifier L → List (Effect L) × HybridNotifier L → Type 0
  LeavesAll u cs h (out, h') =
      (h'.legacy.logs ≡ add_all (entries str u cs) h.legacy.logs)
      × (h'.otel ≡ tell (on_events (all_of heard cs)) h.otel)
      × (client_messages out ≡ all_of (sent u) cs)

  pub notify_all-LeavesAll :
      (u : ℕ) (cs : List Call) (h : HybridNotifier L)
      → h.legacy.uid ≡ u
      → LeavesAll u cs h (notify_all broadcast str cs h)
  unfolding notify_all
  notify_all-LeavesAll u [] h e = (refl, tell_id h.otel, refl)
  notify_all-LeavesAll u (c ∷ cs) h e =
      let (out, h') = notify broadcast str c h in
      let (a, b, o, x) = notify-Leaves_at u c h e in
      let (a', o', x') = notify_all-LeavesAll u cs h' b in
      (
        a' ∙ ap (add_all (entries str u cs)) a,
        o'
            ∙ ap (tell (on_events (all_of heard cs))) o
            ∙ tell-on_events (heard c) (all_of heard cs) h.otel,
        client_messages-append out (notify_all broadcast str cs h').0
            ∙ ap (λ r. r ++ client_messages (notify_all broadcast str cs h').0) x
            ∙ ap (λ r. sent u c ++ r) x',
      )
