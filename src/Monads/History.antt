-- ===== src/Monads/History.antt =====
-- The chat that `Context.run` of `src/com/context.py` keeps: what any computation does to it.
use agentica_server.Base.{
  ◌≡◌, refl, sym, ap, ◌∙◌, ◌⊎◌, inl, inr, List, [], ◌∷◌, ◌++◌, append-nil, append_assoc, Bool-cases,
}
use agentica_server.Inference.Deltas.{Json, Generated}
use agentica_server.Inference.Model.{push_delta}
use agentica_server.Inference.Rounds.{Endpoint}
use agentica_server.Inference.Limits.{deltas-perform}
use agentica_server.Monads.{
  Action, noop, sdk_is_python, get_session_info, insert, capture_value, retrieve_value,
  send_log_message, log_code, log_result, model_inference, insert_delta, HistoryMonad, pure,
  do_action, throw, LogEntry, Context, Raised, push, write_log, perform_action, continue_with, run,
}

module _ {V J : Type 0} where
  -- The second context has the deltas of the first, and further ones after them.
  abbrev pub Extends : Context V J → Context V J → Type 0
  Extends c c' = (ds : List (Generated J)) × (c'.gen.deltas ≡ c.gen.deltas ++ ds)

  pub same-Extends : (c c' : Context V J) → c'.gen.deltas ≡ c.gen.deltas → Extends c c'
  same-Extends c c' h = ([], h ∙ sym (append-nil c.gen.deltas))

  pub trans-Extends : (a b c : Context V J) → Extends a b → Extends b c → Extends a c
  trans-Extends a b c (ds, p) (es, q) =
      (ds ++ es, q ∙ ap (λ (l : List (Generated J)). l ++ es) p ∙ append_assoc a.gen.deltas ds es)

  write_log-Extends : (l : LogEntry) (c : Context V J) → Extends c (write_log l c)
  unfolding write_log
  write_log-Extends l c = elim (Bool-cases c.has_invocation) [
    | inl h ↦ rw h (same-Extends c (record c { log = c.log ++ l ∷ [] }) refl)
    | inr h ↦ rw h (same-Extends c c refl)
  ]

module _ {V J : Type 0} (j : Json J) (e : Context V J → Endpoint J) where
  action-Extends : (a : Action V J) (c : Context V J) → Extends c (perform_action j e a c).1
  unfolding perform_action push push_delta
  action-Extends noop c = same-Extends c c refl
  action-Extends sdk_is_python c = same-Extends c c refl
  action-Extends get_session_info c = same-Extends c c refl
  action-Extends (insert id content role) c = (_ ∷ [], refl)
  action-Extends (capture_value name x) c =
      same-Extends c (perform_action j e (capture_value name x) c).1 refl
  action-Extends (retrieve_value name) c = same-Extends c c refl
  action-Extends (send_log_message m) c = write_log-Extends _ c
  action-Extends (log_code id code) c = write_log-Extends _ c
  action-Extends (log_result r id) c = write_log-Extends _ c
  action-Extends (model_inference x) c =
      same-Extends c (perform_action j e (model_inference x) c).1 (deltas-perform j (e c) x c.gen)
  action-Extends (insert_delta d) c = (d ∷ [], refl)

  continue-Extends :
      {B A : Type 0} (c : Context V J) (r : (Raised ⊎ B) × Context V J)
      → (k : B → Context V J → (Raised ⊎ A) × Context V J) → Extends c r.1
      → ((b : B) (c' : Context V J) → Extends c' (k b c').1)
      → Extends c (continue_with j e r k).1
  unfolding continue_with
  continue-Extends c (inl f, c') k h g = h
  continue-Extends c (inr b, c') k h g = trans-Extends c c' (k b c').1 h (g b c')

  -- Whatever a computation does, rounds of inference and exceptions included, the chat only grows:
  -- all earlier deltas stay, in their places, before the new ones.
  pub run-Extends :
      {A : Type 0} (m : HistoryMonad V J A) (c : Context V J) → Extends c (run j e m c).1
  unfolding run
  run-Extends (pure x) c = same-Extends c c refl
  run-Extends (throw err) c = same-Extends c c refl
  run-Extends (do_action a k) c =
      continue-Extends c (perform_action j e a c) (λ b c'. run j e (k b) c') (action-Extends a c)
        (λ b c'. run-Extends (k b) c')
