-- ===== src/Monads/Laws.antt =====
-- The laws of `HistoryMonad.bind` of `src/com/abstract.py`, and what `Context.run` of
-- `src/com/context.py` makes of a composition.
use agentica_server.Base.{
  ℕ, ◌≡◌, refl, ap, ◌∙◌, fun_ext, ◌⊎◌, inl, inr, Bool, true, false, not, some, arith, if◌then◌else◌,
  get, put, get-put,
}
use agentica_server.Inference.Deltas.{Json}
use agentica_server.Inference.Rounds.{Endpoint}
use agentica_server.Monads.{
  capture_value, HistoryMonad, pure, do_action, throw, Context, Raised, bind, then_monad, capture,
  retrieve, not_m, if_m, perform_action, continue_with, run,
}

module _ {V J A : Type 0} where
  bind-pure : (m : HistoryMonad V J A) → bind m pure ≡ m
  unfolding bind
  bind-pure (pure x) = refl
  bind-pure (throw err) = refl
  bind-pure (do_action a k) = ap (do_action a) (fun_ext (λ b. bind-pure (k b)))

  bind_assoc :
      {B C : Type 0} (m : HistoryMonad V J A) (f : A → HistoryMonad V J B)
      (g : B → HistoryMonad V J C)
      → bind (bind m f) g ≡ bind m (λ x. bind (f x) g)
  unfolding bind
  bind_assoc (pure x) f g = refl
  bind_assoc (throw err) f g = refl
  bind_assoc (do_action a k) f g = ap (do_action a) (fun_ext (λ b. bind_assoc (k b) f g))

  -- `bind` and `pure` satisfy the laws of a monad, as equations between computations.
  pub bind_lem :
      {B C : Type 0} (x : A) (m : HistoryMonad V J A) (f : A → HistoryMonad V J B)
      → (g : B → HistoryMonad V J C)
      → (bind (pure x) f ≡ f x)
        × (bind m pure ≡ m)
        × (bind (bind m f) g ≡ bind m (λ y. bind (f y) g))
  unfolding bind
  bind_lem x m f g = (refl, bind-pure m, bind_assoc m f g)

module _ {V J : Type 0} (j : Json J) (e : Context V J → Endpoint J) where
  continue_assoc :
      {B C A : Type 0} (r : (Raised ⊎ B) × Context V J)
      → (k : B → Context V J → (Raised ⊎ C) × Context V J)
      → (l : C → Context V J → (Raised ⊎ A) × Context V J)
      → continue_with j e r (λ b c. continue_with j e (k b c) l)
        ≡ continue_with j e (continue_with j e r k) l
  unfolding continue_with
  continue_assoc (inl r, c) k l = refl
  continue_assoc (inr b, c) k l = refl

  -- Running a composition is running the first part and then, with its value and in the context
  -- that it leaves, the second; where the first raises, the second is not begun.
  pub run-bind :
      {A B : Type 0} (m : HistoryMonad V J A) (f : A → HistoryMonad V J B) (c : Context V J)
      → run j e (bind m f) c ≡ continue_with j e (run j e m c) (λ x c'. run j e (f x) c')
  unfolding run bind continue_with
  run-bind (pure x) f c = refl
  run-bind (throw err) f c = refl
  run-bind (do_action a k) f c =
      ap (continue_with j e (perform_action j e a c))
        (fun_ext (λ b. fun_ext (λ c'. run-bind (k b) f c')))
      ∙ continue_assoc (perform_action j e a c) (λ b c'. run j e (k b) c')
          (λ x c'. run j e (f x) c')

  captured :
      (name : ℕ) (r : (Raised ⊎ V) × Context V J)
      → continue_with j e
          (continue_with j e r (λ x c. run j e (do_action (capture_value name x) pure) c))
          (λ (_ : V) c. run j e (retrieve name) c)
        ≡ continue_with j e r (λ x c. run j e (do_action (capture_value name x) pure) c)
  unfolding continue_with run perform_action retrieve
  captured name (inl r, c) = refl
  captured name (inr x, c) =
      let p : get name (put name x c.captures) ≡ some x =
        ground (arith, get-put name name x c.captures) in
      rw p refl

  -- A captured value is the one that is retrieved afterwards: `capture(name, m) >> retrieve(name)`
  -- runs like `capture(name, m)` alone, its exceptions included.
  pub retrieve-capture :
      (name : ℕ) (m : HistoryMonad V J V) (c : Context V J)
      → run j e (then_monad (capture name m) (retrieve name)) c ≡ run j e (capture name m) c
  unfolding then_monad
  retrieve-capture name m c =
      run-bind (capture name m) (λ _. retrieve name) c
      ∙ (unfold capture in
          rw (run-bind m (λ x. do_action (capture_value name x) pure) c)
            (captured name (run j e m c)))

module _ {V J : Type 0} where
  if_not :
      {A : Type 0} (b : Bool) (m n : HistoryMonad V J A)
      → (if not b then m else n) ≡ (if b then n else m)
  if_not true m n = refl
  if_not false m n = refl

  -- Negating the condition swaps the branches.
  pub if_m-not_m :
      {A : Type 0} (cond : HistoryMonad V J Bool) (m n : HistoryMonad V J A)
      → if_m (not_m cond) m n ≡ if_m cond n m
  unfolding if_m not_m bind
  if_m-not_m cond m n =
      bind_assoc cond (λ b. pure (not b)) (λ c. if c then m else n)
      ∙ ap (bind cond) (fun_ext (λ b. if_not b m n))
