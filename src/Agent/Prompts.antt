-- ===== src/Agent/Prompts.antt =====
-- A task of an agent of `src/agentic/agent.py`, up to the `finally` clause of `call`.
use agentica_server.Base.{
  ℕ, suc, ◌<◌, ◌≡◌, ◌≢◌, refl, subst, ◌∙◌, ◌⊎◌, inl, inr, Option, some, arith,
}
use agentica_server.Inference.Deltas.{Json}
use agentica_server.Inference.Model.{
  smaller, max_tokens, spend_tokens, finish_invocation, push_delta,
}
use agentica_server.Inference.Rounds.{Endpoint}
use agentica_server.Inference.Limits.{perform-IsWithin}
use agentica_server.Inference.Kept.{perform_keeps}
use agentica_server.Monads.{
  Action, noop, sdk_is_python, get_session_info, insert, capture_value, retrieve_value,
  send_log_message, log_code, log_result, model_inference, insert_delta, HistoryMonad, pure,
  do_action, throw, LogEntry, Context, Raised, push, write_log, perform_action, continue_with, run,
}
use agentica_server.Interaction.{Surroundings, Turn, again, raised, interaction_monad}
use agentica_server.Interaction.Rounds.{IsWithinRounds, interaction_monad_ends}
use agentica_server.Monads.History.{Extends, same-Extends, trans-Extends, run-Extends}
use agentica_server.Interaction.Kept.{Reaches, interaction_monad-Reaches}
use agentica_server.Agent.Running.{finished, after_user, call}

module _ {V J : Type 0} (j : Json J) (e : Context V J → Endpoint J) where
  log-IsWithinRounds :
      (n : ℕ) (l : LogEntry) (c : Context V J)
      → IsWithinRounds n c
      → IsWithinRounds n (write_log l c)
  unfolding write_log
  log-IsWithinRounds n l c w = ground arith

  action-IsWithinRounds :
      (n : ℕ) (a : Action V J) (c : Context V J)
      → IsWithinRounds n c
      → IsWithinRounds n (perform_action j e a c).1
  unfolding perform_action push push_delta
  action-IsWithinRounds n noop c w = w
  action-IsWithinRounds n sdk_is_python c w = w
  action-IsWithinRounds n get_session_info c w = w
  action-IsWithinRounds n (insert id content role) c w = w
  action-IsWithinRounds n (capture_value name x) c w = w
  action-IsWithinRounds n (retrieve_value name) c w = w
  action-IsWithinRounds n (send_log_message x) c w = log-IsWithinRounds n _ c w
  action-IsWithinRounds n (log_code id code) c w = log-IsWithinRounds n _ c w
  action-IsWithinRounds n (log_result r id) c w = log-IsWithinRounds n _ c w
  action-IsWithinRounds n (model_inference x) c w = (perform-IsWithin j (e c) n x c.gen w).0
  action-IsWithinRounds n (insert_delta d) c w = w

  continue-IsWithinRounds :
      {B A : Type 0} (n : ℕ) (r : (Raised ⊎ B) × Context V J)
      → (k : B → Context V J → (Raised ⊎ A) × Context V J) → IsWithinRounds n r.1
      → ((b : B) (c : Context V J) → IsWithinRounds n c → IsWithinRounds n (k b c).1)
      → IsWithinRounds n (continue_with j e r k).1
  unfolding continue_with
  continue-IsWithinRounds n (inl f, c) k w g = w
  continue-IsWithinRounds n (inr b, c) k w g = g b c w

  run-IsWithinRounds :
      {A : Type 0} (n : ℕ) (m : HistoryMonad V J A) (c : Context V J)
      → IsWithinRounds n c
      → IsWithinRounds n (run j e m c).1
  unfolding run
  run-IsWithinRounds n (pure x) c w = w
  run-IsWithinRounds n (throw err) c w = w
  run-IsWithinRounds n (do_action a k) c w =
      continue-IsWithinRounds n (perform_action j e a c) (λ b c'. run j e (k b) c')
        (action-IsWithinRounds n a c w) (λ b c' w'. run-IsWithinRounds n (k b) c' w')

module _ {V J : Type 0} where
  -- The limits of tokens that an agent is made with.
  abbrev SameTokenLimits : Context V J → Context V J → Type 0
  SameTokenLimits c c' =
      (c'.gen.max_invocation_tokens ≡ c.gen.max_invocation_tokens)
      × (c'.gen.max_inference_tokens ≡ c.gen.max_inference_tokens)

  -- Those limits, and the chat as it was before further deltas.
  abbrev Keeps : Context V J → Context V J → Type 0
  Keeps c c' = SameTokenLimits c c' × Extends c c'

  Keeps-same : (c : Context V J) → Keeps c c
  Keeps-same c = ((refl, refl), same-Extends c c refl)

  Keeps-trans : (a b c : Context V J) → Keeps a b → Keeps b c → Keeps a c
  Keeps-trans a b c ((p, q), x) ((p', q'), y) = ((p' ∙ p, q' ∙ q), trans-Extends a b c x y)

module _ {V J : Type 0} (j : Json J) (e : Context V J → Endpoint J) where
  log-SameTokenLimits : (l : LogEntry) (c : Context V J) → SameTokenLimits c (write_log l c)
  unfolding write_log
  log-SameTokenLimits l c = ground arith

  action-SameTokenLimits :
      (a : Action V J) (c : Context V J) → SameTokenLimits c (perform_action j e a c).1
  unfolding perform_action push push_delta
  action-SameTokenLimits noop c = (refl, refl)
  action-SameTokenLimits sdk_is_python c = (refl, refl)
  action-SameTokenLimits get_session_info c = (refl, refl)
  action-SameTokenLimits (insert id content role) c = (refl, refl)
  action-SameTokenLimits (capture_value name x) c = (refl, refl)
  action-SameTokenLimits (retrieve_value name) c = (refl, refl)
  action-SameTokenLimits (send_log_message x) c = log-SameTokenLimits _ c
  action-SameTokenLimits (log_code id code) c = log-SameTokenLimits _ c
  action-SameTokenLimits (log_result r id) c = log-SameTokenLimits _ c
  action-SameTokenLimits (model_inference x) c = (
    unfold spend_tokens in
        perform_keeps j (e c) (λ g. g.max_invocation_tokens) (λ t g. refl) (λ n g. refl) x c.gen,
    unfold spend_tokens in
        perform_keeps j (e c) (λ g. g.max_inference_tokens) (λ t g. refl) (λ n g. refl) x c.gen,
  )
  action-SameTokenLimits (insert_delta d) c = (refl, refl)

  continue-SameTokenLimits :
      {B A : Type 0} (c : Context V J) (r : (Raised ⊎ B) × Context V J)
      → (k : B → Context V J → (Raised ⊎ A) × Context V J) → SameTokenLimits c r.1
      → ((b : B) (c' : Context V J) → SameTokenLimits c' (k b c').1)
      → SameTokenLimits c (continue_with j e r k).1
  unfolding continue_with
  continue-SameTokenLimits c (inl f, c') k h g = h
  continue-SameTokenLimits c (inr b, c') k (p, q) g = let (p', q') = g b c' in (p' ∙ p, q' ∙ q)

  run-SameTokenLimits :
      {A : Type 0} (u : HistoryMonad V J A) (c : Context V J) → SameTokenLimits c (run j e u c).1
  unfolding run
  run-SameTokenLimits (pure x) c = (refl, refl)
  run-SameTokenLimits (throw err) c = (refl, refl)
  run-SameTokenLimits (do_action a k) c =
      continue-SameTokenLimits c (perform_action j e a c) (λ b c'. run j e (k b) c')
        (action-SameTokenLimits a c) (λ b c'. run-SameTokenLimits (k b) c')

  run-Keeps : (A : Type 0) (u : HistoryMonad V J A) (c : Context V J) → Keeps c (run j e u c).1
  run-Keeps A u c = (run-SameTokenLimits u c, run-Extends j e u c)

module _ {V J S : Type 0} (m : Surroundings V J S) where
  -- A task that is over: no round is counted any more, the limit of rounds is as it was, that of
  -- tokens is again the one of a whole invocation, and the chat has only grown.
  abbrev pub IsOver : ℕ → Context V J → Option (Turn × Context V J × S) → Type 0
  IsOver n c o =
      (t : Turn) × (c' : Context V J) × (s' : S) × (o ≡ some (t, c', s'))
      × (t ≢ again)
      × (c'.gen.max_rounds ≡ some (suc n))
      × (c'.gen.inference_rounds_count ≡ 0)
      × (max_tokens c'.gen ≡ smaller c.gen.max_inference_tokens c.gen.max_invocation_tokens)
      × Extends c c'

  finished-IsOver :
      (n : ℕ) (c : Context V J) (t : Turn) (c' : Context V J) (s : S)
      → t ≢ again
      → IsWithinRounds n c'
      → Keeps c c'
      → IsOver n c (some (finished m (t, c', s)))
  unfolding finished finish_invocation max_tokens
  finished-IsOver n c t c' s ne w ((p, q), x) =
      (t, record c' { gen = finish_invocation c'.gen }, s, refl, ne, w.0, refl, rw (p, q) refl, x)

  looped-IsOver :
      (k n : ℕ) (c : Context V J) (t : Turn) (c' : Context V J) (s : S) (c'' : Context V J)
      (s'' : S)
      → interaction_monad m k c'' s'' ≡ some (t, c', s)
      → t ≢ again
      → IsWithinRounds n c'
      → Keeps c c''
      → IsOver n c (some (finished m (t, c', s)))
  looped-IsOver k n c t c' s c'' s'' q ne w h = finished-IsOver n c t c' s ne w (
      Keeps-trans c c'' c' h (
        subst (Reaches m Keeps Keeps-same Keeps-trans (run-Keeps m.json m.endpoint) c'') q (
          interaction_monad-Reaches m Keeps Keeps-same Keeps-trans (run-Keeps m.json m.endpoint) k
            c'' s'')))

  after_user-IsOver :
      (k n : ℕ) (c : Context V J) (r : (Raised ⊎ Unit {0}) × Context V J) (s : S)
      → IsWithinRounds n r.1
      → Keeps c r.1
      → suc n < k
      → IsOver n c (after_user m k r s)
  unfolding after_user
  after_user-IsOver k n c (inl r, c') s w h l =
      finished-IsOver n c (raised r) c' s (λ q. ground arith) w h
  after_user-IsOver k n c (inr x, c') s w h l =
      let (t, c'', s', q, ne, w') = interaction_monad_ends m k n c' s w (omega arith) in
      rw (q, after_user) (looped-IsOver k n c t c'' s' c' s q ne w' h)

  -- With a limit of rounds that is not zero, and fuel for one round more: a task ends, whatever its
  -- first part is and whether or not it raises, and however the loop ends. Then no round is counted
  -- any more, the limit of rounds is as it was, the limit of tokens for the next round is that of a
  -- new invocation again, whatever was spent, and the chat is the old one with deltas after it.
  pub call_ends :
      (k n : ℕ) (u : HistoryMonad V J (Unit {0})) (c : Context V J) (s : S)
      → IsWithinRounds n c
      → suc n < k
      → IsOver n c (call m k u c s)
  unfolding call
  call_ends k n u c s w l =
      after_user-IsOver k n c (run m.json m.endpoint u c) s
        (run-IsWithinRounds m.json m.endpoint n u c w) (run-Keeps m.json m.endpoint Unit u c) l
