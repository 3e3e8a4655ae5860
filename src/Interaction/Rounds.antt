-- ===== src/Interaction/Rounds.antt =====
-- The loop of `src/agentic/monads/repl_tool/multi_turn/openai.py` under a limit of rounds.
use agentica_server.Base.{
  ℕ, zero, suc, ◌+◌, ◌-◌, ◌≤◌, ◌<◌, ◌≡◌, ◌≢◌, refl, ◌∙◌, ◌⊎◌, inl, inr, Option, none, some, List,
  [], ◌∷◌, Bool-cases, arith,
}
use agentica_server.Tags.{Text}
use agentica_server.Inference.Deltas.{Generated}
use agentica_server.Inference.Model.{push_delta}
use agentica_server.Inference.Rounds.{perform, Failure}
use agentica_server.Inference.Limits.{rounds_of, perform-IsWithin}
use agentica_server.Monads.{
  Context, LogEntry, model_inference, inference_failed, code_block, execute_result, insert_string,
  run, perform_action, continue_with, push, write_log,
}
use agentica_server.Interaction.{
  Surroundings, missing_code, empty_response, Turn, again, returned, raised, sandbox_raised,
  EvaluationInfo, user_execution, say_all, after_run, run_block, on_blocks, on_content, on_inferred,
  turn, go_on, interaction_monad, guidance, code_blocks, plain_inference,
}

module _ {V J : Type 0} where
  abbrev SameLimits : Context V J → Context V J → Type 0
  SameLimits c c' =
      (c'.gen.inference_rounds_count ≡ c.gen.inference_rounds_count)
      × (c'.gen.max_rounds ≡ c.gen.max_rounds)

  -- A limit of rounds that is not zero, and a count within it.
  abbrev pub IsWithinRounds : ℕ → Context V J → Type 0
  IsWithinRounds n c = (c.gen.max_rounds ≡ some (suc n)) × (c.gen.inference_rounds_count ≤ suc n)

  SameLimits-trans : (a b c : Context V J) → SameLimits a b → SameLimits b c → SameLimits a c
  SameLimits-trans a b c (p, q) (p', q') = (p' ∙ p, q' ∙ q)

  write_log-SameLimits : (l : LogEntry) (c : Context V J) → SameLimits c (write_log l c)
  unfolding write_log
  write_log-SameLimits l c = ground arith

module _ {V J S : Type 0} (m : Surroundings V J S) where
  user_execution-SameLimits : (t : Text) (c : Context V J) → SameLimits c (user_execution m t c)
  unfolding user_execution run insert_string perform_action continue_with push push_delta
  user_execution-SameLimits t c = (refl, refl)

  say_all-SameLimits : (ts : List Text) (c : Context V J) → SameLimits c (say_all m ts c)
  unfolding say_all
  say_all-SameLimits [] c = (refl, refl)
  say_all-SameLimits (t ∷ ts) c =
      SameLimits-trans c (user_execution m t c) (say_all m ts (user_execution m t c))
        (user_execution-SameLimits t c) (say_all-SameLimits ts (user_execution m t c))

  after_run-SameLimits :
      (id : ℕ) (extra : List Text) (o : Option EvaluationInfo) (c : Context V J) (s : S)
      → SameLimits c (after_run m id extra o c s).1
  unfolding after_run run perform_action continue_with
  after_run-SameLimits id extra none c s = (refl, refl)
  after_run-SameLimits id extra (some info) c s = elim (Bool-cases info.has_result) [
    | inl e ↦ rw (e, after_run) (write_log-SameLimits _ c)
    | inr e ↦
        rw (e, after_run)
          (let c' = write_log (execute_result info.output id) c in
            SameLimits-trans c c' (say_all m (guidance m info extra) c')
              (write_log-SameLimits (execute_result info.output id) c)
              (say_all-SameLimits (guidance m info extra) c'))
  ]

  on_blocks-SameLimits :
      (bs : List Text) (c : Context V J) (s : S) → SameLimits c (on_blocks m bs c s).1
  unfolding on_blocks run_block run perform_action continue_with
  on_blocks-SameLimits [] c s = user_execution-SameLimits (m.explain missing_code) c
  on_blocks-SameLimits (b ∷ extra) c s =
      let c' = write_log (code_block (m.fresh c) b) c in
      let (info, s') = m.repl_run_code b s in
      SameLimits-trans c c' (after_run m (m.fresh c) extra info c' s').1
        (write_log-SameLimits (code_block (m.fresh c) b) c)
        (after_run-SameLimits (m.fresh c) extra info c' s')

  on_content-SameLimits :
      (o : Option Text) (c : Context V J) (s : S) → SameLimits c (on_content m o c s).1
  unfolding on_content
  on_content-SameLimits none c s = user_execution-SameLimits (m.explain empty_response) c
  on_content-SameLimits (some []) c s = user_execution-SameLimits (m.explain empty_response) c
  on_content-SameLimits (some (x ∷ xs)) c s = on_blocks-SameLimits (code_blocks m (x ∷ xs)) c s

  -- A turn that is not the last counts one round, and every turn stays within the limit.
  abbrev Progress : ℕ → Context V J → Turn × Context V J × S → Type 0
  Progress n c (again, c', s) =
      IsWithinRounds n c' × (c'.gen.inference_rounds_count ≡ suc c.gen.inference_rounds_count)
  Progress n c (t, c', s) = IsWithinRounds n c'

  Progress-turn :
      (n : ℕ) (c : Context V J) (t : Turn) (c' : Context V J) (s : S)
      → IsWithinRounds n c'
      → c'.gen.inference_rounds_count ≡ suc c.gen.inference_rounds_count
      → Progress n c (t, c', s)
  Progress-turn n c again c' s w e = (w, e)
  Progress-turn n c returned c' s w e = w
  Progress-turn n c (raised r) c' s w e = w
  Progress-turn n c sandbox_raised c' s w e = w

  response-Progress :
      (n : ℕ) (c c' : Context V J) (d : Generated J) (s : S)
      → IsWithinRounds n c'
      → c'.gen.inference_rounds_count ≡ suc c.gen.inference_rounds_count
      → Progress n c (on_content m d.content c' s)
  response-Progress n c c' d s (a, b) e =
      let (t, x, s') = on_content m d.content c' s in
      let (p, q) = on_content-SameLimits d.content c' s in
      Progress-turn n c t x s' (q ∙ a, omega (arith, p, b)) (p ∙ e)

  performed-Progress :
      (n : ℕ) (c c' : Context V J) (r : Failure ⊎ Generated J) (s : S)
      → IsWithinRounds n c'
      → c'.gen.inference_rounds_count
        ≡ c.gen.inference_rounds_count + rounds_of m.json (m.endpoint c) r
      → Progress n c (
          on_inferred m
            (continue_with m.json m.endpoint
              (elim r [ inl f ↦ inl (inference_failed f) | inr d ↦ inr d ], c')
              (λ d x. (inr d, push d x)))
            s)
  unfolding continue_with on_inferred push push_delta
  performed-Progress n c c' (inl f) s w e = w
  performed-Progress n c c' (inr d) s w e =
      response-Progress n c (push d c') d s w (e ∙ omega arith)

  turn-Progress : (n : ℕ) (c : Context V J) (s : S) → IsWithinRounds n c → Progress n c (turn m c s)
  unfolding turn run perform_action continue_with push push_delta
  turn-Progress n c s w =
      let (a, b, _) = perform-IsWithin m.json (m.endpoint c) n plain_inference c.gen w in
      let c' = (perform_action m.json m.endpoint (model_inference plain_inference) c).1 in
      performed-Progress n c c' (perform m.json (m.endpoint c) plain_inference c.gen).1 s a b

  -- A result of the loop that is no further turn, within the limit.
  abbrev pub IsEnd : ℕ → Option (Turn × Context V J × S) → Type 0
  IsEnd n o =
      (t : Turn) × (c' : Context V J) × (s' : S) × (o ≡ some (t, c', s'))
      × (t ≢ again)
      × IsWithinRounds n c'

  go_on-IsEnd :
      (k n : ℕ) (c : Context V J) (r : Turn × Context V J × S)
      → Progress n c r
      → suc n - c.gen.inference_rounds_count < suc k
      → ((c' : Context V J) (s' : S)
          → IsWithinRounds n c'
          → suc n - c'.gen.inference_rounds_count < k
          → IsEnd n (interaction_monad m k c' s'))
      → IsEnd n (go_on m r (λ c' s'. interaction_monad m k c' s'))
  unfolding go_on
  go_on-IsEnd k n c (again, c', s') (w, e) l ih = ih c' s' w (omega (arith, e, w.1))
  go_on-IsEnd k n c (returned, c', s') w l ih = (returned, c', s', refl, (λ q. ground arith), w)
  go_on-IsEnd k n c (raised r, c', s') w l ih = (raised r, c', s', refl, (λ q. ground arith), w)
  go_on-IsEnd k n c (sandbox_raised, c', s') w l ih =
      (sandbox_raised, c', s', refl, (λ q. ground arith), w)

  -- With a limit of rounds that is not zero, and fuel for each round that is left and one more, the
  -- loop ends: it returns or raises, still within the limit.
  pub interaction_monad_ends :
      (k n : ℕ) (c : Context V J) (s : S)
      → IsWithinRounds n c
      → suc n - c.gen.inference_rounds_count < k
      → IsEnd n (interaction_monad m k c s)
  unfolding interaction_monad
  interaction_monad_ends zero n c s w l = absurd (omega arith)
  interaction_monad_ends (suc k) n c s w l =
      go_on-IsEnd k n c (turn m c s) (turn-Progress n c s w) l
        (λ c' s' w' l'. interaction_monad_ends k n c' s' w' l')
