-- ===== src/Multiplexer/Requests.antt =====
-- What a client gets for each message: `_handle_client_message` of
-- `src/server_session_manager/multiplexer.py`.
use agentica_server.Base.{
  ℕ, ◌≡◌, refl, true, false, Option, none, some, List, [], ◌∷◌, ◌++◌, arith, ◌==◌, if◌then◌else◌,
  get, has, put, erase, get-put, get-erase, has-put, has-erase, Bool-cases, inl, inr,
}
use agentica_server.Multiplexer.{
  Mux, AgentContext, created, Server, Effect, send, cancel_agent, ClientMessage, Invoke,
  message_data, ErrorName, malformed_invoke, too_many_invocations, not_running, error_message,
  new_iid, invocation_event, own_channel, server_channel, create_agent_context, get_or_init_context,
  send_error, admit, invoke_in, handle_invoke, cancel_in_context, handle_cancel, handle_data,
}

-- The id by which a client knows which of its requests a message answers.
abbrev pub answers : {A : Type 0} → Effect A → Option ℕ
answers (send _ (error_message e)) = some e.iid
answers (send _ (new_iid uid iid match_id)) = some match_id
answers (send _ (invocation_event _ _ _)) = none
answers (cancel_agent _ _) = none

module _ {A W : Type 0} (s : Server A W) where
  send_error-answers :
      (uid iid : ℕ) (name : ErrorName) (m : Mux A)
      → answers (send_error s uid iid name m) ≡ some iid
  unfolding send_error
  send_error-answers uid iid name m = ground arith

  -- One message, which carries the given id.
  abbrev pub AnswersOnce : ℕ → List (Effect A) → Type 0
  AnswersOnce i out = (e : Effect A) × (out ≡ e ∷ []) × (answers e ≡ some i)

  admit-answers :
      (iid : ℕ) (v : Invoke) (m : Mux A) (w : W) → AnswersOnce v.match_id (admit s iid v m w).0
  unfolding admit
  admit-answers iid v m w = elim (Bool-cases (s.create_invocation w).0) [
    | inl b ↦ rw b (send own_channel (new_iid v.uid iid v.match_id), refl, refl)
    | inr b ↦
        let m' = record m { queues = put iid [] m.queues } in
        rw b (
          send_error s v.uid v.match_id too_many_invocations m',
          refl,
          send_error-answers v.uid v.match_id too_many_invocations m',
        )
  ]

  invoke_in-answers :
      (o : Option (AgentContext A)) (iid : ℕ) (v : Invoke) (m : Mux A) (w : W)
      → AnswersOnce v.match_id (invoke_in s o iid v m w).0
  unfolding invoke_in
  invoke_in-answers none iid v m w = (
    send_error s v.uid v.match_id malformed_invoke m,
    refl,
    send_error-answers v.uid v.match_id malformed_invoke m,
  )
  invoke_in-answers (some _) iid v m w = admit-answers iid v m w

  -- Every invocation request is answered by exactly one message, and it carries the request's match
  -- id: the new iid, the refusal by the limit or the error for an unknown agent.
  pub handle_invoke-answers :
      (iid : ℕ) (v : Invoke) (m : Mux A) (w : W)
      → AnswersOnce v.match_id (handle_invoke s iid v m w).0
  unfolding handle_invoke
  handle_invoke-answers iid v m w =
      let (ctx, m') = get_or_init_context s v.uid m w in invoke_in-answers ctx iid v m' w

  context_known :
      (uid : ℕ) (m : Mux A) (w : W) (ctx : AgentContext A)
      → get uid m.contexts ≡ some ctx
      → get_or_init_context s uid m w ≡ (some ctx, m)
  unfolding get_or_init_context
  context_known uid m w ctx e = rw (e, get_or_init_context)

  context_unknown :
      (uid : ℕ) (m : Mux A) (w : W)
      → get uid m.contexts ≡ none
      → get uid (s.agents w) ≡ none
      → get_or_init_context s uid m w ≡ (none, m)
  unfolding get_or_init_context create_agent_context
  context_unknown uid m w e a = rw (e, get_or_init_context) (rw (a, create_agent_context))

  -- An invocation of an agent that neither the connection nor the server knows changes nothing and
  -- is answered through the notifier that all connections share, not by the connection's own.
  pub handle_invoke_unknown :
      (iid : ℕ) (v : Invoke) (m : Mux A) (w : W)
      → get v.uid m.contexts ≡ none
      → get v.uid (s.agents w) ≡ none
      → handle_invoke s iid v m w ≡ (
        send server_channel (
              error_message (record {
                iid = v.match_id;
                name = malformed_invoke;
                uid = none;
                session_id = none;
                session_manager_id = none;
              }))
            ∷ [],
        m,
        w,
      )
  unfolding handle_invoke invoke_in send_error
  handle_invoke_unknown iid v m w e a = rw (context_unknown v.uid m w e a) (rw (e, send_error))

  -- An invocation that the limit refuses starts no task, and yet leaves its iid an open queue, so
  -- that data sent to that iid is accepted without an error.
  pub refused_invoke_leaves_queue :
      (iid uid payload : ℕ) (v : Invoke) (m : Mux A) (w : W) (ctx : AgentContext A)
      → get v.uid m.contexts ≡ some ctx
      → (s.create_invocation w).0 ≡ false
      → ((handle_invoke s iid v m w).1.tasks ≡ m.tasks)
        × (get iid (handle_invoke s iid v m w).1.queues ≡ some [])
        × ((handle_data s uid iid payload (handle_invoke s iid v m w).1).0 ≡ [])
  unfolding handle_invoke invoke_in admit handle_data
  refused_invoke_leaves_queue iid uid payload v m w ctx e b = rw (context_known v.uid m w ctx e) (
      rw b (
        refl,
        ground (arith, get-put iid iid [] m.queues),
        ground (arith, get-put iid iid [] m.queues),
      ))

  -- An invocation that the limit admits has an empty queue and a task that has not started, is
  -- tracked, and leaves every other queue and task alone.
  pub admitted_invoke :
      (iid : ℕ) (v : Invoke) (m : Mux A) (w : W) (ctx : AgentContext A)
      → get v.uid m.contexts ≡ some ctx
      → (s.create_invocation w).0 ≡ true
      → (j : ℕ)
      → (get j (handle_invoke s iid v m w).1.queues
          ≡ (if iid == j then some [] else get j m.queues))
        × (get j (handle_invoke s iid v m w).1.tasks
            ≡ (if iid == j then some (record { uid = v.uid; phase = created }) else get j m.tasks))
        × (has j (handle_invoke s iid v m w).1.invocation_tasks
            ≡ (if iid == j then true else has j m.invocation_tasks))
  unfolding handle_invoke invoke_in admit
  admitted_invoke iid v m w ctx e b j = rw (context_known v.uid m w ctx e) (
      rw b (
        get-put iid j [] m.queues,
        get-put iid j (record { uid = v.uid; phase = created }) m.tasks,
        has-put iid j v.uid m.invocation_tasks,
      ))

  data_none :
      (uid iid payload : ℕ) (m : Mux A)
      → get iid m.queues ≡ none
      → handle_data s uid iid payload m ≡ (send_error s uid iid not_running m ∷ [], m)
  unfolding handle_data
  data_none uid iid payload m e = rw (e, handle_data)

  data_some :
      (uid iid payload : ℕ) (q : List ClientMessage) (m : Mux A)
      → get iid m.queues ≡ some q
      → handle_data s uid iid payload m
        ≡ ([], record m { queues = put iid (q ++ message_data uid iid payload ∷ []) m.queues })
  unfolding handle_data
  data_some uid iid payload q m e = rw (e, handle_data)

  -- Data for an iid with a queue goes to the end of that queue, unanswered, and to no other; data
  -- for any other iid changes nothing and is answered by one error that names the iid.
  pub handle_data_exact :
      (uid iid payload : ℕ) (m : Mux A)
      → ((q : List ClientMessage)
          → get iid m.queues ≡ some q
          → ((handle_data s uid iid payload m).0 ≡ [])
            × ((j : ℕ)
                → get j (handle_data s uid iid payload m).1.queues ≡ (
                    if iid == j
                    then some (q ++ message_data uid iid payload ∷ [])
                    else get j m.queues)))
        × (get iid m.queues ≡ none
            → AnswersOnce iid (handle_data s uid iid payload m).0
              × ((handle_data s uid iid payload m).1 ≡ m))
  handle_data_exact uid iid payload m = (
    (λ q e.
        rw (data_some uid iid payload q m e)
          (refl, λ j. get-put iid j (q ++ message_data uid iid payload ∷ []) m.queues)),
    (λ e. rw (data_none uid iid payload m e) (
      (send_error s uid iid not_running m, refl, send_error-answers uid iid not_running m),
      refl,
    )),
  )

  -- A cancellation takes the queue away and stops the tracking of the task, which itself goes on:
  -- the agent of the named uid is told to cancel. After it, data for the iid, from whatever uid, is
  -- answered by an error and has no effect, and so is a second cancellation.
  pub handle_cancel_closes :
      (uid iid other payload : ℕ) (m : Mux A)
      → has iid m.queues ≡ true
      → let (out, m') = handle_cancel s uid iid m in
        (out ≡ cancel_in_context s uid iid m)
        × (m'.tasks ≡ m.tasks)
        × (has iid m'.invocation_tasks ≡ false)
        × (handle_data s other iid payload m' ≡ (send_error s other iid not_running m' ∷ [], m'))
        × (handle_cancel s other iid m' ≡ (send_error s other iid not_running m' ∷ [], m'))
  unfolding handle_cancel
  handle_cancel_closes uid iid other payload m e = rw e (
    refl,
    refl,
    ground (arith, has-erase iid iid m.invocation_tasks),
    data_none other iid payload
        (record m { queues = erase iid m.queues; invocation_tasks = erase iid m.invocation_tasks })
        (ground (arith, get-erase iid iid m.queues)),
    ground (arith, has-erase iid iid m.queues),
  )
