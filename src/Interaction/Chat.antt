-- ===== src/Interaction/Chat.antt =====
-- What a turn of `src/agentic/monads/repl_tool/multi_turn/openai.py` adds to the chat.
use agentica_server.Base.{
  ℕ, suc, ◌+◌, ◌≤◌, ◌≡◌, refl, sym, ap, ◌∙◌, ◌⊎◌, inl, inr, Option, none, some, List, [], ◌∷◌, ◌++◌,
  Bool-cases, arith, length, length-append, append-nil, append_assoc,
}
use agentica_server.Tags.{Text}
use agentica_server.Inference.Deltas.{Generated}
use agentica_server.Inference.Model.{push_delta}
use agentica_server.Inference.Rounds.{perform, Failure}
use agentica_server.Inference.Limits.{deltas-perform}
use agentica_server.Monads.{
  Context, LogEntry, model_inference, inference_failed, code_block, execute_result, insert_string,
  run, perform_action, continue_with, push, write_log,
}
use agentica_server.Interaction.{
  Surroundings, Turn, again, returned, raised, sandbox_raised, EvaluationInfo, missing_code,
  empty_response, user_execution, say_all, after_run, run_block, on_blocks, on_content, on_inferred,
  turn, guidance, code_blocks, plain_inference,
}

module _ {V J : Type 0} where
  -- The chat has the same deltas as before, and `n` further ones after them.
  abbrev pub GrowsBy : ℕ → Context V J → Context V J → Type 0
  GrowsBy n c c' =
      (ds : List (Generated J)) × (c'.gen.deltas ≡ c.gen.deltas ++ ds) × (length ds ≡ n)

  same-GrowsBy : (c c' : Context V J) → c'.gen.deltas ≡ c.gen.deltas → GrowsBy 0 c c'
  same-GrowsBy c c' e = ([], e ∙ sym (append-nil c.gen.deltas), refl)

  GrowsBy-trans :
      (n k t : ℕ) (a b c : Context V J) → n + k ≡ t → GrowsBy n a b → GrowsBy k b c → GrowsBy t a c
  GrowsBy-trans n k t a b c h (ds, p, l) (es, q, r) = (
    ds ++ es,
    q ∙ ap (λ x. x ++ es) p ∙ append_assoc a.gen.deltas ds es,
    omega (arith, length-append ds es, l, r, h),
  )

  write_log-GrowsBy : (l : LogEntry) (c : Context V J) → GrowsBy 0 c (write_log l c)
  unfolding write_log
  write_log-GrowsBy l c = same-GrowsBy c (write_log l c) (ground arith)

-- The deltas of a turn by how it ends, the response included.
abbrev pub IsExpected : Turn → ℕ → Type 0
IsExpected again n = (2 ≤ n) × (n ≤ 4)
IsExpected returned n = n ≡ 1
IsExpected (raised r) n = n ≡ 0
IsExpected sandbox_raised n = n ≡ 1

module _ {V J S : Type 0} (m : Surroundings V J S) where
  user_execution-GrowsBy : (t : Text) (c : Context V J) → GrowsBy 1 c (user_execution m t c)
  unfolding user_execution run insert_string perform_action continue_with push push_delta
  user_execution-GrowsBy t c = (_ ∷ [], refl, refl)

  say_all-GrowsBy : (ts : List Text) (c : Context V J) → GrowsBy (length ts) c (say_all m ts c)
  unfolding say_all
  say_all-GrowsBy [] c = same-GrowsBy c c refl
  say_all-GrowsBy (t ∷ ts) c =
      GrowsBy-trans 1 (length ts) (suc (length ts)) c (user_execution m t c)
        (say_all m ts (user_execution m t c)) (omega arith) (user_execution-GrowsBy t c)
        (say_all-GrowsBy ts (user_execution m t c))

  length-guidance :
      (info : EvaluationInfo) (extra : List Text)
      → (1 ≤ length (guidance m info extra)) × (length (guidance m info extra) ≤ 3)
  unfolding guidance
  length-guidance info extra = ground arith

  -- The part of a turn after its response, which the chat `b` ends with.
  abbrev Follows : Context V J → Turn × Context V J × S → Type 0
  Follows b (t, c, s) = (n : ℕ) × GrowsBy n b c × IsExpected t (suc n)

  after_run-Follows :
      (id : ℕ) (extra : List Text) (o : Option EvaluationInfo) (b c : Context V J) (s : S)
      → GrowsBy 0 b c
      → Follows b (after_run m id extra o c s)
  unfolding after_run run perform_action continue_with
  after_run-Follows id extra none b c s g = (0, g, refl)
  after_run-Follows id extra (some info) b c s g =
      let c' = write_log (execute_result info.output id) c in
      let g' =
        GrowsBy-trans 0 0 0 b c c' refl g (write_log-GrowsBy (execute_result info.output id) c) in
      elim (Bool-cases info.has_result) [
        | inl e ↦ rw (e, after_run) (0, g', refl)
        | inr e ↦
            rw (e, after_run)
              (let ts = guidance m info extra in
                (
                  length ts,
                  GrowsBy-trans 0 (length ts) (length ts) b c' (say_all m ts c') (omega arith) g'
                      (say_all-GrowsBy ts c'),
                  (
                    omega (arith, length-guidance info extra),
                    omega (arith, length-guidance info extra),
                  ),
                ))
      ]

  on_blocks-Follows : (bs : List Text) (c : Context V J) (s : S) → Follows c (on_blocks m bs c s)
  unfolding on_blocks run_block run perform_action continue_with
  on_blocks-Follows [] c s =
      (1, user_execution-GrowsBy (m.explain missing_code) c, (omega arith, omega arith))
  on_blocks-Follows (b ∷ extra) c s =
      let (info, s') = m.repl_run_code b s in
      after_run-Follows (m.fresh c) extra info c (write_log (code_block (m.fresh c) b) c) s'
        (write_log-GrowsBy (code_block (m.fresh c) b) c)

  on_content-Follows : (o : Option Text) (c : Context V J) (s : S) → Follows c (on_content m o c s)
  unfolding on_content
  on_content-Follows none c s =
      (1, user_execution-GrowsBy (m.explain empty_response) c, (omega arith, omega arith))
  on_content-Follows (some []) c s =
      (1, user_execution-GrowsBy (m.explain empty_response) c, (omega arith, omega arith))
  on_content-Follows (some (x ∷ xs)) c s = on_blocks-Follows (code_blocks m (x ∷ xs)) c s

  -- A turn's part in the chat.
  abbrev pub Adds : Context V J → Turn × Context V J × S → Type 0
  Adds b (t, c, s) = (n : ℕ) × GrowsBy n b c × IsExpected t n

  Follows-Adds :
      (a b : Context V J) (r : Turn × Context V J × S) → GrowsBy 1 a b → Follows b r → Adds a r
  Follows-Adds a b (t, c, s) g (n, h, e) =
      (suc n, GrowsBy-trans 1 n (suc n) a b c (omega arith) g h, e)

  performed-Adds :
      (c c' : Context V J) (r : Failure ⊎ Generated J) (s : S)
      → c'.gen.deltas ≡ c.gen.deltas
      → Adds c (
          on_inferred m
            (continue_with m.json m.endpoint
              (elim r [ inl f ↦ inl (inference_failed f) | inr d ↦ inr d ], c')
              (λ d x. (inr d, push d x)))
            s)
  unfolding continue_with on_inferred push push_delta
  performed-Adds c c' (inl f) s e = (0, same-GrowsBy c c' e, refl)
  performed-Adds c c' (inr d) s e =
      Follows-Adds c (push d c') (on_content m d.content (push d c') s)
        (d ∷ [], ap (λ x. x ++ d ∷ []) e, refl) (on_content-Follows d.content (push d c') s)

  -- A turn only adds to the end of the chat: nothing where the inference raises; the response alone
  -- where the run brings a result or the sandbox raises; and where the loop goes on, the response
  -- with at least one message to the model and at most three.
  pub turn-Adds : (c : Context V J) (s : S) → Adds c (turn m c s)
  unfolding turn run perform_action continue_with push push_delta
  turn-Adds c s =
      performed-Adds c (perform_action m.json m.endpoint (model_inference plain_inference) c).1
        (perform m.json (m.endpoint c) plain_inference c.gen).1 s
        (deltas-perform m.json (m.endpoint c) plain_inference c.gen)
