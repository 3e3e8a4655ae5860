-- ===== src/Agent/Inbox.antt =====
-- One whole run of an agent of `src/agentic/agent.py`: what its inbox takes and what it reports.
use agentica_server.Base.{
  ℕ, ◌≡◌, refl, sym, ap, subst, ◌∙◌, Bool, true, false, none, some, List, [], ◌∷◌, ◌++◌,
  if◌then◌else◌, ◌==◌, arith, inl, inr, Bool-cases, append-nil, append_assoc,
}
use agentica_server.Agent.{
  Agent, Effect, error_sent, cancel_task, send_data, Message, data_message, other_message, Outcome,
  returned, cancelled, raised, is_iid, cancel_unless_done, fill_inbox, cancel, handle_exception,
  send_gen_error, setup_callbacks, install_callbacks, start, except, finish,
}
use agentica_server.Monads.{Context}
use agentica_server.Agent.Tasks.{Event, starts, sets_up, delivers, finishes, happen, happen_all}

-- The payloads that a run of `iid` takes from its messages.
abbrev pub payloads : ℕ → List Message → List ℕ
payloads iid [] = []
payloads iid (other_message ∷ ms) = payloads iid ms
payloads iid (data_message i p ∷ ms) =
    let rest = payloads iid ms in if i == iid then p ∷ rest else rest

abbrev pub deliveries : List Message → List Event → List Event
deliveries [] vs = vs
deliveries (m ∷ ms) vs = delivers m ∷ deliveries ms vs

-- The errors that are sent, and whether a task is asked to stop.
abbrev pub errors : List Effect → List (ℕ × ℕ)
errors [] = []
errors (error_sent iid e ∷ out) = (iid, e) ∷ errors out
errors (_ ∷ out) = errors out

abbrev pub is_cancelled : ℕ → List Effect → Bool
is_cancelled t [] = false
is_cancelled t (cancel_task u ∷ out) =
    let rest = is_cancelled t out in if u == t then true else rest
is_cancelled t (_ ∷ out) = is_cancelled t out

abbrev pub reported : ℕ → Outcome → List (ℕ × ℕ)
reported iid (raised e) = (iid, e) ∷ []
reported iid _ = []

errors-append : (xs ys : List Effect) → errors (xs ++ ys) ≡ errors xs ++ errors ys
errors-append [] ys = refl
errors-append (error_sent i e ∷ xs) ys = ap (λ r. (i, e) ∷ r) (errors-append xs ys)
errors-append (send_data i e ∷ xs) ys = errors-append xs ys
errors-append (cancel_task t ∷ xs) ys = errors-append xs ys

is_cancelled-append :
    (t : ℕ) (xs ys : List Effect) → is_cancelled t ys ≡ true → is_cancelled t (xs ++ ys) ≡ true
is_cancelled-append t [] ys h = h
is_cancelled-append t (error_sent i e ∷ xs) ys h = is_cancelled-append t xs ys h
is_cancelled-append t (send_data i e ∷ xs) ys h = is_cancelled-append t xs ys h
is_cancelled-append t (cancel_task u ∷ xs) ys h = ground (arith, is_cancelled-append t xs ys h)

errors-cancel_unless_done : (d : ℕ → Bool) (ts : List ℕ) → errors (cancel_unless_done d ts) ≡ []
unfolding cancel_unless_done
errors-cancel_unless_done d [] = refl
errors-cancel_unless_done d (t ∷ ts) = ground (arith, errors-cancel_unless_done d ts)

-- The events of a run.
abbrev pub a_run : ℕ → ℕ → ℕ → Bool → List Message → (ℕ → Bool) → (ℕ → Bool) → Outcome → List Event
a_run iid inbox_task run_task streaming ms d d' o =
    starts iid inbox_task run_task
    ∷ sets_up iid streaming
    ∷ deliveries ms (finishes d d' inbox_task run_task o ∷ [])

cancels_first :
    (d : ℕ → Bool) (t u : ℕ)
    → d t ≡ false
    → is_cancelled t (cancel_unless_done d (t ∷ u ∷ [])) ≡ true
unfolding cancel_unless_done
cancels_first d t u h = ground arith

cancels_second :
    (d : ℕ → Bool) (t u : ℕ)
    → d u ≡ false
    → is_cancelled u (cancel_unless_done d (t ∷ u ∷ [])) ≡ true
unfolding cancel_unless_done
cancels_second d t u h = ground arith

module _ {V J : Type 0} where
  abbrev Queued : Agent V J → List ℕ → Agent V J
  Queued a q = record a { pending = some q }

  fill_inbox_current :
      (iid i p : ℕ) (q : List ℕ) (a : Agent V J)
      → a.iid ≡ some iid
      → (i == iid) ≡ true
      → fill_inbox (data_message i p) (Queued a q) ≡ Queued a (q ++ p ∷ [])
  unfolding fill_inbox is_iid
  fill_inbox_current iid i p q a h e = rw (h, e, fill_inbox) refl

  fill_inbox_stale :
      (iid i p : ℕ) (q : List ℕ) (a : Agent V J)
      → a.iid ≡ some iid
      → (i == iid) ≡ false
      → fill_inbox (data_message i p) (Queued a q) ≡ Queued a q
  unfolding fill_inbox is_iid
  fill_inbox_stale iid i p q a h e = rw (h, e, fill_inbox) refl

  deliver_all :
      (iid : ℕ) (ms : List Message) (vs : List Event) (q : List ℕ) (a : Agent V J)
      → a.iid ≡ some iid
      → happen_all (deliveries ms vs) (Queued a q) ≡ happen_all vs (Queued a (q ++ payloads iid ms))
  unfolding happen_all happen
  deliver_all iid [] vs q a h = ap (λ r. happen_all vs (Queued a r)) (sym (append-nil q))
  deliver_all iid (other_message ∷ ms) vs q a h = unfold fill_inbox in deliver_all iid ms vs q a h
  deliver_all iid (data_message i p ∷ ms) vs q a h = elim (Bool-cases (i == iid)) [
    | inl e ↦ rw e (
        ap (happen_all (deliveries ms vs)) (fill_inbox_current iid i p q a h e)
        ∙ deliver_all iid ms vs (q ++ p ∷ []) a h
        ∙ ap (λ r. happen_all vs (Queued a r)) (append_assoc q (p ∷ []) (payloads iid ms)))
    | inr e ↦ rw e (
        ap (happen_all (deliveries ms vs)) (fill_inbox_stale iid i p q a h e)
        ∙ deliver_all iid ms vs q a h)
  ]

  -- How a run leaves the agent, and what it reports.
  abbrev pub IsFinished :
      ℕ → ℕ → ℕ → (ℕ → Bool) → Outcome → List ℕ → List Effect × Agent V J → Type 0
  IsFinished iid inbox_task run_task d' o q (out, a) =
      (a.tasks ≡ [])
      × (a.locked ≡ false)
      × (a.pending ≡ some q)
      × (errors out ≡ reported iid o)
      × (d' inbox_task ≡ false → is_cancelled inbox_task out ≡ true)
      × (d' run_task ≡ false → is_cancelled run_task out ≡ true)

  errors-except :
      (iid : ℕ) (d : ℕ → Bool) (o : Outcome) (a : Agent V J)
      → a.send_gen_err ≡ some iid
      → errors (except d o a).0 ≡ reported iid o
  unfolding except handle_exception cancel send_gen_error
  errors-except iid d returned a h = refl
  errors-except iid d cancelled a h = refl
  errors-except iid d (raised e) a h = rw h (
      errors-append (cancel_unless_done d a.tasks) (error_sent iid e ∷ [])
      ∙ ap (λ r. r ++ (iid, e) ∷ []) (errors-cancel_unless_done d a.tasks))

  pending-except :
      (d : ℕ → Bool) (o : Outcome) (a : Agent V J) → (except d o a).1.pending ≡ a.pending
  unfolding except handle_exception cancel
  pending-except d returned a = refl
  pending-except d cancelled a = refl
  pending-except d (raised e) a = refl

  finish-IsFinished :
      (iid t u : ℕ) (d d' : ℕ → Bool) (o : Outcome) (q : List ℕ) (a : Agent V J)
      → a.send_gen_err ≡ some iid
      → a.pending ≡ some q
      → IsFinished iid t u d' o q (finish d d' t u o a)
  unfolding finish
  finish-IsFinished iid t u d d' o q a h p =
      let out = (except d o a).0 in
      let asked = cancel_unless_done d' (t ∷ u ∷ []) in
      (
        refl,
        refl,
        pending-except d o a ∙ p,
        errors-append out asked
            ∙ ap (λ r. errors out ++ r) (errors-cancel_unless_done d' (t ∷ u ∷ []))
            ∙ append-nil (errors out)
            ∙ errors-except iid d o a h,
        (λ e. is_cancelled-append t out asked (cancels_first d' t u e)),
        (λ e. is_cancelled-append u out asked (cancels_second d' t u e)),
      )

  setup_callbacks-some :
      (iid : ℕ) (streaming : Bool) (c : Context V J) (a : Agent V J)
      → a.context ≡ some c
      → setup_callbacks iid streaming a ≡ install_callbacks iid streaming c a
  unfolding setup_callbacks
  setup_callbacks-some iid streaming c a h =
      ap (λ x. elim x [ none ↦ a | some y ↦ install_callbacks iid streaming y a ]) h

  a_run_begins :
      (iid t u : ℕ) (streaming : Bool) (ms : List Message) (d d' : ℕ → Bool) (o : Outcome)
      → (q : List ℕ) (c : Context V J) (a : Agent V J) → a.locked ≡ false
      → a.pending ≡ some q
      → a.context ≡ some c
      → happen_all (a_run iid t u streaming ms d d' o) a
        ≡ happen_all
            (deliveries ms (finishes d d' t u o ∷ []))
            (Queued (install_callbacks iid streaming c (start iid t u a)) q)
  unfolding happen_all happen start install_callbacks
  a_run_begins iid t u streaming ms d d' o q c a l p h =
      let vs = deliveries ms (finishes d d' t u o ∷ []) in
      let go : List Effect × Agent V J → List Effect × Agent V J =
        λ r. (let (out, b) = happen_all (sets_up iid streaming ∷ vs) r.1 in (r.0 ++ out, b)) in
      ap (λ x. go (if x then ([], a) else ([], start iid t u a))) l
      ∙ ap (happen_all vs) (setup_callbacks-some iid streaming c (start iid t u a) h)
      ∙ ap
          (λ x.
            happen_all vs
              (record (install_callbacks iid streaming c (start iid t u a)) { pending = x }))
          p

  -- A run that gets the lock, sets up its callbacks, gets messages and ends, however it ends: takes
  -- into the inbox the payloads of the data messages for its iid, in order, and no others, behind
  -- what was left there; reports an error under its iid just where it raised; asks each of its tasks
  -- that is not done to stop; and leaves no task and a free lock.
  pub a_run-IsFinished :
      (iid t u : ℕ) (streaming : Bool) (ms : List Message) (d d' : ℕ → Bool) (o : Outcome)
      → (q : List ℕ) (c : Context V J) (a : Agent V J) → a.locked ≡ false
      → a.pending ≡ some q
      → a.context ≡ some c
      → IsFinished iid t u d' o
          (q ++ payloads iid ms)
          (happen_all (a_run iid t u streaming ms d d' o) a)
  unfolding happen_all happen start install_callbacks
  a_run-IsFinished iid t u streaming ms d d' o q c a l p h =
      let fin = finishes d d' t u o ∷ [] in
      let s = install_callbacks iid streaming c (start iid t u a) in
      let b = Queued s (q ++ payloads iid ms) in
      let r = finish d d' t u o b in
      let e : happen_all (a_run iid t u streaming ms d d' o) a ≡ r =
        a_run_begins iid t u streaming ms d d' o q c a l p h
        ∙ deliver_all iid ms fin q s refl
        ∙ ap (λ x. (x, r.1)) (append-nil r.0) in
      subst (IsFinished iid t u d' o (q ++ payloads iid ms)) (sym e)
        (finish-IsFinished iid t u d d' o (q ++ payloads iid ms) b refl refl)
