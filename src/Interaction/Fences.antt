-- ===== src/Interaction/Fences.antt =====
-- Which code a turn of `src/agentic/monads/repl_tool/multi_turn/openai.py` runs.
use agentica_server.Base.{
  ℕ, suc, ◌≡◌, refl, subst, inr, false, Option, none, some, List, [], ◌∷◌, ◌++◌, arith, length,
}
use agentica_server.Tags.{Text}
use agentica_server.Tags.Weaving.{weave, weave_lem}
use agentica_server.Inference.Deltas.{Generated}
use agentica_server.Monads.{Context, run}
use agentica_server.Interaction.{
  Surroundings, EvaluationInfo, fence, python_fence, between, not_between, or_clean, code_blocks,
  after_run, run_block, on_blocks, on_content, on_inferred, turn, infer_and_insert,
}

module _ {V J S : Type 0} (m : Surroundings V J S) where
  fences_weave :
      (t : Text)
      → weave python_fence fence
          (not_between m python_fence fence t)
          (between m python_fence fence t)
        ≡ t
  unfolding between not_between
  fences_weave t =
      (weave_lem python_fence fence (omega arith) (omega arith) (suc (length t)) t (omega arith)).0

  -- The text with its first fenced block in place.
  abbrev pub FirstBlock : Text → Text → List Text → Type 0
  FirstBlock t b extra =
      (o : Text) × (os : List Text) × (o
          ++ (python_fence ++ (b ++ (fence ++ weave python_fence fence os extra)))
        ≡ t)

  first_block :
      (x : ℕ) (xs b : Text) (extra outs : List Text)
      → weave python_fence fence outs (b ∷ extra) ≡ x ∷ xs
      → FirstBlock (x ∷ xs) b extra
  first_block x xs b extra [] e = absurd (ground arith)
  first_block x xs b extra (o ∷ os) e = (o, os, e)

  state-after_run :
      (id : ℕ) (extra : List Text) (o : Option EvaluationInfo) (c : Context V J) (s : S)
      → (after_run m id extra o c s).2 ≡ s
  unfolding after_run
  state-after_run id extra none c s = refl
  state-after_run id extra (some info) c s = ground arith

  state-run_block :
      (b : Text) (extra : List Text) (c : Context V J) (s : S)
      → (run_block m b extra c s).2 ≡ (m.repl_run_code b s).1
  unfolding run_block
  state-run_block b extra c s =
      let (info, s') = m.repl_run_code b s in state-after_run _ extra info _ s'

  -- What a turn whose response has a content does to the sandbox.
  abbrev pub RunsFirst : Text → S → S → Type 0
  RunsFirst t s s' =
      ((b : Text) (extra : List Text)
        → between m python_fence fence t ≡ b ∷ extra
        → (s' ≡ (m.repl_run_code b s).1) × FirstBlock t b extra)
      × (between m python_fence fence t ≡ [] → m.session.is_returning_text ≡ false → s' ≡ s)

  -- A turn whose response has a fenced block of Python runs the first such block in the sandbox,
  -- exactly as it stands between its fences in the response, and no other; where no block is fenced
  -- and the task does not return a text, the turn runs nothing.
  pub turn-RunsFirst :
      (c c' : Context V J) (s : S) (d : Generated J) (x : ℕ) (xs : Text)
      → run m.json m.endpoint infer_and_insert c ≡ (inr d, c')
      → d.content ≡ some (x ∷ xs)
      → RunsFirst (x ∷ xs) s (turn m c s).2
  unfolding turn on_inferred on_content on_blocks run_block code_blocks or_clean
  turn-RunsFirst c c' s d x xs e f = (
    (λ b extra g. (
      rw (e, f, g, turn, on_inferred, on_content, code_blocks) (state-run_block b extra c' s),
      first_block x xs b extra (not_between m python_fence fence (x ∷ xs)) (
          subst
            (λ bs. weave python_fence fence (not_between m python_fence fence (x ∷ xs)) bs ≡ x ∷ xs)
            g (fences_weave (x ∷ xs))),
    )),
    (λ g r. rw (e, f, g, r, turn, on_inferred, on_content, code_blocks) refl),
  )
