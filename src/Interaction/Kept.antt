-- ===== src/Interaction/Kept.antt =====
-- What the loop of `src/agentic/monads/repl_tool/multi_turn/openai.py` does to the context is what its
-- actions do: a relation that every computation respects holds across the whole loop.
use agentica_server.Base.{
  ℕ, zero, suc, ◌⊎◌, inl, inr, Option, none, some, List, [], ◌∷◌, Bool-cases,
}
use agentica_server.Tags.{Text}
use agentica_server.Inference.Deltas.{Generated, user, role_object}
use agentica_server.Monads.{
  HistoryMonad, pure, do_action, log_code, log_result, insert_string, Context, Raised, run,
}
use agentica_server.Interaction.{
  Surroundings, missing_code, empty_response, Turn, again, returned, raised, sandbox_raised,
  EvaluationInfo, execution, user_execution, say_all, after_run, run_block, on_blocks, on_content,
  on_inferred, turn, go_on, interaction_monad, guidance, code_blocks, infer_and_insert,
}

module _ {V J S : Type 0} (m : Surroundings V J S) (R : Context V J → Context V J → Type 0)
    (same : (c : Context V J) → R c c) (trans : (a b c : Context V J) → R a b → R b c → R a c)
    (runs : (A : Type 0) (u : HistoryMonad V J A) (c : Context V J)
      → R c (run m.json m.endpoint u c).1) where
  user_execution-kept : (t : Text) (c : Context V J) → R c (user_execution m t c)
  unfolding user_execution
  user_execution-kept t c =
      runs Unit (insert_string (m.fresh c) t (role_object (user (some execution)))) c

  say_all-kept : (ts : List Text) (c : Context V J) → R c (say_all m ts c)
  unfolding say_all
  say_all-kept [] c = same c
  say_all-kept (t ∷ ts) c =
      trans c (user_execution m t c) (say_all m ts (user_execution m t c)) (user_execution-kept t c)
        (say_all-kept ts (user_execution m t c))

  after_run-kept :
      (id : ℕ) (extra : List Text) (o : Option EvaluationInfo) (c : Context V J) (s : S)
      → R c (after_run m id extra o c s).1
  unfolding after_run
  after_run-kept id extra none c s = same c
  after_run-kept id extra (some info) c s =
      let logs : HistoryMonad V J (Unit {0}) = do_action (log_result info.output id) pure in
      let c' = (run m.json m.endpoint logs c).1 in
      elim (Bool-cases info.has_result) [
        | inl e ↦ rw (e, after_run) (runs Unit logs c)
        | inr e ↦
            rw (e, after_run)
              (trans c c' (say_all m (guidance m info extra) c') (runs Unit logs c)
                (say_all-kept (guidance m info extra) c'))
      ]

  on_blocks-kept : (bs : List Text) (c : Context V J) (s : S) → R c (on_blocks m bs c s).1
  unfolding on_blocks run_block
  on_blocks-kept [] c s = user_execution-kept (m.explain missing_code) c
  on_blocks-kept (b ∷ extra) c s =
      let logs : HistoryMonad V J ℕ = do_action (log_code (m.fresh c) b) pure in
      let c' = (run m.json m.endpoint logs c).1 in
      let (info, s') = m.repl_run_code b s in
      trans c c' (after_run m (m.fresh c) extra info c' s').1 (runs ℕ logs c)
        (after_run-kept (m.fresh c) extra info c' s')

  on_content-kept : (o : Option Text) (c : Context V J) (s : S) → R c (on_content m o c s).1
  unfolding on_content
  on_content-kept none c s = user_execution-kept (m.explain empty_response) c
  on_content-kept (some []) c s = user_execution-kept (m.explain empty_response) c
  on_content-kept (some (x ∷ xs)) c s = on_blocks-kept (code_blocks m (x ∷ xs)) c s

  on_inferred-kept :
      (r : (Raised ⊎ Generated J) × Context V J) (s : S) → R r.1 (on_inferred m r s).1
  unfolding on_inferred
  on_inferred-kept (inl r, c) s = same c
  on_inferred-kept (inr d, c) s = on_content-kept d.content c s

  turn-kept : (c : Context V J) (s : S) → R c (turn m c s).1
  unfolding turn
  turn-kept c s =
      let r = run m.json m.endpoint infer_and_insert c in
      trans c r.1 (on_inferred m r s).1 (runs (Generated J) infer_and_insert c)
        (on_inferred-kept r s)

  -- The relation holds up to the result, where there is one.
  abbrev pub Reaches : Context V J → Option (Turn × Context V J × S) → Type 0
  Reaches c none = Unit
  Reaches c (some (t, c', s')) = R c c'

  Reaches-trans :
      (a b : Context V J) (o : Option (Turn × Context V J × S)) → R a b → Reaches b o → Reaches a o
  Reaches-trans a b none h g = tt
  Reaches-trans a b (some (t, c, s)) h g = trans a b c h g

  go_on-Reaches :
      (k : ℕ) (c : Context V J) (r : Turn × Context V J × S)
      → R c r.1
      → ((c' : Context V J) (s' : S) → Reaches c' (interaction_monad m k c' s'))
      → Reaches c (go_on m r (λ c' s'. interaction_monad m k c' s'))
  unfolding go_on
  go_on-Reaches k c (again, c', s') h ih =
      Reaches-trans c c' (interaction_monad m k c' s') h (ih c' s')
  go_on-Reaches k c (returned, c', s') h ih = h
  go_on-Reaches k c (raised r, c', s') h ih = h
  go_on-Reaches k c (sandbox_raised, c', s') h ih = h

  pub interaction_monad-Reaches :
      (k : ℕ) (c : Context V J) (s : S) → Reaches c (interaction_monad m k c s)
  unfolding interaction_monad
  interaction_monad-Reaches zero c s = tt
  interaction_monad-Reaches (suc k) c s =
      go_on-Reaches k c (turn m c s) (turn-kept c s) (λ c' s'. interaction_monad-Reaches k c' s')
