-- ===== src/Agent/System.antt =====
-- The system message of an agent of `src/agentic/agent.py` is inserted once, or not at all.
use agentica_server.Base.{
  ℕ, ◌≡◌, refl, ap, ◌∙◌, ◌⊎◌, inl, inr, true, false, Option, none, some, List, [], ◌∷◌, ◌++◌, arith,
}
use agentica_server.Tags.{Text}
use agentica_server.Inference.Deltas.{Json, Generated, system}
use agentica_server.Inference.Rounds.{Endpoint}
use agentica_server.Monads.{HistoryMonad, Context, Raised, continuation_raised, run}
use agentica_server.Monads.History.{Extends, run-Extends}
use agentica_server.Interaction.SystemPrompt.{SystemPrompt, Rendering, system_monad}
use agentica_server.Interaction.SystemChat.{
  text_delta, rendered, few_said, run-system_monad-raises, system_monad-Says,
}
use agentica_server.Agent.{Agent}
use agentica_server.Agent.Running.{
  run_raised, is_fresh, is_empty_list, inserted, ensure_system_message,
}

is_empty_list-append :
    {J : Type 0} (xs ys : List (Generated J))
    → is_empty_list xs ≡ false
    → is_empty_list (xs ++ ys) ≡ false
is_empty_list-append [] ys h = absurd (ground arith)
is_empty_list-append (x ∷ xs) ys h = refl

fresh_deltas : {J : Type 0} (xs ys : List (Generated J)) → is_empty_list xs ≡ true → xs ++ ys ≡ ys
fresh_deltas [] ys h = refl
fresh_deltas (x ∷ xs) ys h = absurd (ground arith)

Sum-cases : {A B : Type 0} (o : A ⊎ B) → ((a : A) × (o ≡ inl a)) ⊎ ((b : B) × (o ≡ inr b))
Sum-cases (inl a) = inl (a, refl)
Sum-cases (inr b) = inr (b, refl)

module _ {V J : Type 0} where
  Extends-not_fresh :
      (c c' : Context V J) → is_fresh c.gen ≡ false → Extends c c' → is_fresh c'.gen ≡ false
  Extends-not_fresh c c' h (ds, e) = ap is_empty_list e ∙ is_empty_list-append c.gen.deltas ds h

  -- The context that an agent has.
  abbrev pub HasContext : Context V J → Agent V J → Type 0
  HasContext c a = a.context ≡ some c

module _ {V J : Type 0} (j : Json J) (e : Context V J → Endpoint J) where
  context-inserted :
      (r : (Raised ⊎ Unit {0}) × Context V J) (a : Agent V J) → HasContext r.1 (inserted j e r a).1
  unfolding inserted
  context-inserted (inl r, c) a = refl
  context-inserted (inr x, c) a = refl

  run-not_fresh :
      {A : Type 0} (c : Context V J) (m : HistoryMonad V J A)
      → is_fresh c.gen ≡ false
      → is_fresh (run j e m c).1.gen ≡ false
  run-not_fresh c m h = Extends-not_fresh c (run j e m c).1 h (run-Extends j e m c)

  -- A context that is not empty is left alone, with what any computation made of it.
  abbrev pub IsLeftAlone : Context V J → Agent V J → Type 0
  IsLeftAlone c a =
      (m : HistoryMonad V J (Unit {0})) (updated : Option ℕ)
      (init_monad : HistoryMonad V J (Unit {0}))
      → let b = record a { context = some (run j e m c).1 } in
        ensure_system_message j e updated init_monad b ≡ (inr tt, b)

  not_fresh-IsLeftAlone :
      (c : Context V J) (a : Agent V J) → is_fresh c.gen ≡ false → IsLeftAlone c a
  unfolding ensure_system_message
  not_fresh-IsLeftAlone c a h m updated init_monad =
      rw (run-not_fresh c m h, ensure_system_message) refl

  fresh-runs :
      (c : Context V J) (a : Agent V J) (m : HistoryMonad V J (Unit {0}))
      → a.context ≡ some c
      → is_fresh c.gen ≡ true
      → ensure_system_message j e none m a ≡ inserted j e (run j e m c) a
  unfolding ensure_system_message
  fresh-runs c a m h f = simp (h, f, ensure_system_message)

  module _ (r : Rendering) (p : SystemPrompt) where
    -- Without a prompt: the exception, an empty chat, a mark that stays, and again the same at the
    -- next call.
    abbrev pub IsRefused : ℕ → Context V J → Agent V J → Type 0
    IsRefused err c a =
        let b = record a { context = some c; sending_system_message = true } in
        (ensure_system_message j e none (system_monad r p) a
          ≡ (inl (run_raised (continuation_raised err)), b))
        × (ensure_system_message j e none (system_monad r p) b
            ≡ (inl (run_raised (continuation_raised err)), b))

    -- With one: the prompt and the examples are the chat, and it is left alone from now on.
    abbrev pub IsInserted : Text → Context V J → Agent V J → Type 0
    IsInserted t c a =
        let a' = (ensure_system_message j e none (system_monad r p) a).1 in
        (c' : Context V J) × HasContext c' a'
        × (c'.gen.deltas ≡ text_delta (r.id 0) t system ∷ few_said r p c.session)
        × IsLeftAlone c' a'

    refused :
        (err : ℕ) (c : Context V J) (a : Agent V J)
        → rendered r p c.session c.is_python ≡ inl err
        → a.context ≡ some c
        → is_fresh c.gen ≡ true
        → ensure_system_message j e none (system_monad r p) a ≡ (
          inl (run_raised (continuation_raised err)),
          record a { context = some c; sending_system_message = true },
        )
    unfolding inserted
    refused err c a q h f =
        fresh-runs c a (system_monad r p) h f
        ∙ ap (λ x. inserted j e x a) (run-system_monad-raises j e r p c err q)

    system_monad-IsInserted :
        (t : Text) (c : Context V J) (a : Agent V J)
        → rendered r p c.session c.is_python ≡ inr t
        → a.context ≡ some c
        → is_fresh c.gen ≡ true
        → IsInserted t c a
    system_monad-IsInserted t c a q h f =
        let m = system_monad r p in
        let c' = (run j e m c).1 in
        let said =
          system_monad-Says j e r p c t q
          ∙ fresh_deltas c.gen.deltas (text_delta (r.id 0) t system ∷ few_said r p c.session) f in
        (
          c',
          ap (λ x. x.1.context) (fresh-runs c a m h f) ∙ context-inserted (run j e m c) a,
          said,
          not_fresh-IsLeftAlone c' (ensure_system_message j e none m a).1 (ap is_empty_list said),
        )

    -- Where the chat is empty and the sandbox takes the globals, either the system prompt cannot be
    -- rendered: then the method raises, the chat stays empty, the mark for system messages stays set,
    -- and the next call does the same again; or the prompt is rendered: then the chat is the prompt
    -- and after it the examples before the first invalid one, where no system prompt is given and the
    -- session is no function, and, whether or not the monad raised, after any further computation the
    -- method returns at once and changes nothing.
    pub ensure_system_message_once :
        (c : Context V J) (a : Agent V J)
        → a.context ≡ some c
        → is_fresh c.gen ≡ true
        → ((err : ℕ) × (rendered r p c.session c.is_python ≡ inl err) × IsRefused err c a)
          ⊎ ((t : Text) × (rendered r p c.session c.is_python ≡ inr t) × IsInserted t c a)
    ensure_system_message_once c a h f = elim (Sum-cases (rendered r p c.session c.is_python)) [
      | inl (err, q) ↦ inl (
        err,
        q,
        (
          refused err c a q h f,
          refused err c (record a { context = some c; sending_system_message = true }) q refl f,
        ),
      )
      | inr (t, q) ↦ inr (t, q, system_monad-IsInserted t c a q h f)
    ]
