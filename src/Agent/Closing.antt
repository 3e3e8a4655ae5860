-- ===== src/Agent/Closing.antt =====
-- `Agent.close` of `src/agentic/agent.py`, which deletes the attributes one by one.
use agentica_server.Base.{
  ◌≡◌, refl, sym, subst, ◌∙◌, ◌⊎◌, inl, inr, Bool, true, false, Option, none, some, [],
  if◌then◌else◌, arith, Bool-cases,
}
use agentica_server.Agent.{Agent, AttributeError, attribute_error}

abbrev pub is_some {ℓ} : {A : Type ℓ} → Option A → Bool
is_some none = false
is_some (some x) = true

module _ {V J : Type 0} where
  -- del self.x, for an attribute that is there or not; what follows runs only if it was.
  unfoldable pub del :
      Bool
      → Agent V J
      → (Agent V J → (AttributeError ⊎ Unit {0}) × Agent V J)
      → (AttributeError ⊎ Unit {0}) × Agent V J
  del true a k = k a
  del false a k = (inl attribute_error, a)

  unfoldable pub drop_callbacks : Agent V J → (AttributeError ⊎ Unit {0}) × Agent V J
  unfolding del
  drop_callbacks a = del a.has_send_message a (λ b.
      del b.has_recv_message (record b { has_send_message = false })
        (λ d.
          del d.has_interactions (record d { has_recv_message = false })
            (λ x. (inr tt, record x { has_interactions = false }))))

  -- The sandbox is closed within a `try` that catches its exceptions; the rest is its `finally`.
  unfoldable pub close : Agent V J → (AttributeError ⊎ Unit {0}) × Agent V J
  unfolding del drop_callbacks
  close a =
      del a.has_sandbox (record a { was_closed = true })
        (λ b.
          del (is_some b.pending) (record b { has_sandbox = false })
            (λ d.
              del (is_some d.context) (record d { pending = none; tasks = [] })
                (λ x. drop_callbacks (record x { context = none; send_gen_err = none }))))

  -- `__del__`, which catches the error.
  unfoldable pub del_agent : Agent V J → Agent V J
  unfolding close
  del_agent a = if a.was_closed then a else (close a).1

  -- Everything that `close` is to release.
  abbrev pub IsReleased : Agent V J → Type 0
  IsReleased a =
      (a.has_sandbox ≡ false)
      × (a.pending ≡ none)
      × (a.tasks ≡ [])
      × (a.context ≡ none)
      × (a.send_gen_err ≡ none)
      × (a.was_closed ≡ true)

  -- Between its construction and its end, an agent has all but, before its first run, the callbacks
  -- of messages.
  abbrev pub IsOpen : Agent V J → Type 0
  IsOpen a =
      (a.has_sandbox ≡ true)
      × (is_some a.pending ≡ true)
      × (is_some a.context ≡ true)
      × (a.has_interactions ≡ true)
      × (a.has_recv_message ≡ a.has_send_message)

  del-true :
      (b : Bool) (a : Agent V J) (k : Agent V J → (AttributeError ⊎ Unit {0}) × Agent V J)
      → b ≡ true
      → del b a k ≡ k a
  unfolding del
  del-true b a k e = rw e refl

  del-false :
      (b : Bool) (a : Agent V J) (k : Agent V J → (AttributeError ⊎ Unit {0}) × Agent V J)
      → b ≡ false
      → del b a k ≡ (inl attribute_error, a)
  unfolding del
  del-false b a k e = rw e refl

  -- An agent without what `close` deletes before the callbacks, and without all of it.
  abbrev released : Agent V J → Agent V J
  released a = record a {
    was_closed = true;
    has_sandbox = false;
    pending = none;
    tasks = [];
    context = none;
    send_gen_err = none;
  }

  abbrev emptied : Agent V J → Agent V J
  emptied a = record (released a) {
    has_send_message = false;
    has_recv_message = false;
    has_interactions = false;
  }

  close_releases : (a : Agent V J) → IsOpen a → close a ≡ drop_callbacks (released a)
  unfolding close
  close_releases a (s, p, c, _, _) =
      del-true a.has_sandbox _ _ s
      ∙ del-true (is_some a.pending) _ _ p
      ∙ del-true (is_some a.context) _ _ c

  close-ran : (a : Agent V J) → IsOpen a → a.has_send_message ≡ true → close a ≡ (inr tt, emptied a)
  unfolding drop_callbacks
  close-ran a h e =
      let (_, _, _, i, r) = h in
      close_releases a h
      ∙ del-true a.has_send_message _ _ e
      ∙ del-true a.has_recv_message _ _ (r ∙ e)
      ∙ del-true a.has_interactions _ _ i

  close-never_ran :
      (a : Agent V J)
      → IsOpen a
      → a.has_send_message ≡ false
      → close a ≡ (inl attribute_error, released a)
  unfolding drop_callbacks
  close-never_ran a h e = close_releases a h ∙ del-false a.has_send_message _ _ e

  -- How a `close` of `a` that gives `r` went, and what a second one does.
  abbrev pub IsClosed : Agent V J → (AttributeError ⊎ Unit {0}) × Agent V J → Type 0
  IsClosed a (r, b) =
      IsReleased b
      × (a.has_send_message ≡ true → (r ≡ inr tt) × (b.has_interactions ≡ false))
      × (a.has_send_message ≡ false → (r ≡ inl attribute_error) × (b.has_interactions ≡ true))
      × (close b ≡ (inl attribute_error, b))
      × (del_agent b ≡ b)

  -- Closing an open agent releases the sandbox, the inbox, the tasks, the context and the callback of
  -- errors. It returns just where the agent ran before; else it raises and keeps its monads. Closing
  -- it again raises and changes nothing, and its finalizer changes nothing.
  pub close-IsClosed : (a : Agent V J) → IsOpen a → IsClosed a (close a)
  unfolding close del drop_callbacks del_agent
  close-IsClosed a h = elim (Bool-cases a.has_send_message) [
    | inl e ↦ subst (IsClosed a) (sym (close-ran a h e)) (
      (refl, refl, refl, refl, refl, refl),
      (λ _. (refl, refl)),
      (λ f. absurd (ground (arith, e, f))),
      refl,
      refl,
    )
    | inr e ↦ subst (IsClosed a) (sym (close-never_ran a h e)) (
      (refl, refl, refl, refl, refl, refl),
      (λ f. absurd (ground (arith, e, f))),
      (λ _. (refl, h.3)),
      refl,
      refl,
    )
  ]
