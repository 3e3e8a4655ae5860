-- ===== src/PollLoop/Endings.antt =====
-- How `run_until_complete` of `src/sandbox/guest/poll_loop.py` ends.
use agentica_server.Base.{
  ℕ, zero, suc, ◌≡◌, refl, sym, ap, subst, ◌∙◌, Bool, true, false, ◌&&◌, not, Option, none, some,
  List, [], ◌∷◌, ◌++◌, ◌==◌, leb, arith, Bool-cases, Option-cases, inl, inr, ==_iff,
}
use agentica_server.PollLoop.{
  World, Op, soon, at, later, cancel, report, halt, finish, perform_op, perform_ops, call_soon,
  call_at, call_later, stop, timer_handle_cancelled, time,
}
use agentica_server.PollLoop.Heapq.{Heap, count}
use agentica_server.PollLoop.Turns.{
  Ending, result, raised, contains, run_handle, run_handles, run_immediate, run_due, turn,
  run_turns, run_until_complete,
}
use agentica_server.PollLoop.Fifo.{NoCancel, perform_ops_adds}
use agentica_server.PollLoop.Timers.{IsAfter, IsPast, run_due_ends, due}

and_false : (b : Bool) → (b && false) ≡ false
and_false true = refl
and_false false = refl

module _ {E : Type 0} where
  -- A callback that neither reports an exception nor stops the loop.
  abbrev pub IsCalm : List (Op E) → Type 0
  IsCalm [] = Unit
  IsCalm (report e ∷ ops) = ⊥
  IsCalm (halt ∷ ops) = ⊥
  IsCalm (_ ∷ ops) = IsCalm ops

  abbrev pub finishes : List (Op E) → Bool
  finishes [] = false
  finishes (finish ∷ ops) = true
  finishes (_ ∷ ops) = finishes ops

module _ {Q E : Type 0} where
  -- What calm callbacks keep.
  abbrev pub Keeps : World Q E → World Q E → Type 0
  Keeps w v =
      (v.loop.exception ≡ w.loop.exception)
      × (v.loop.running ≡ w.loop.running)
      × (w.done ≡ true → v.done ≡ true)

  Keeps-trans : (w v u : World Q E) → Keeps w v → Keeps v u → Keeps w u
  Keeps-trans w v u (a, b, c) (a', b', c') = (a' ∙ a, b' ∙ b, λ h. c' (c h))

module _ {Q E : Type 0} (heap : Heap Q) (clock : ℕ → ℕ) where
  perform_ops-Keeps :
      (ops : List (Op E)) (w : World Q E) → IsCalm ops → Keeps w (perform_ops heap clock ops w)
  unfolding perform_ops perform_op call_soon call_at call_later timer_handle_cancelled time
  perform_ops-Keeps [] w h = (refl, refl, λ e. e)
  perform_ops-Keeps (soon x ∷ ops) w h = perform_ops-Keeps ops (perform_op heap clock (soon x) w) h
  perform_ops-Keeps (cancel x ∷ ops) w h =
      perform_ops-Keeps ops (perform_op heap clock (cancel x) w) h
  perform_ops-Keeps (at t x ∷ ops) w h = perform_ops-Keeps ops (perform_op heap clock (at t x) w) h
  perform_ops-Keeps (later t x ∷ ops) w h =
      perform_ops-Keeps ops (perform_op heap clock (later t x) w) h
  perform_ops-Keeps (report e ∷ ops) w h = elim h [ ]
  perform_ops-Keeps (halt ∷ ops) w h = elim h [ ]
  perform_ops-Keeps (finish ∷ ops) w h =
      let (a, b, c) = perform_ops-Keeps ops (perform_op heap clock finish w) h in
      (a, b, λ e. c refl)

  perform_ops-finishes :
      (ops : List (Op E)) (w : World Q E)
      → IsCalm ops
      → finishes ops ≡ true
      → (perform_ops heap clock ops w).done ≡ true
  unfolding perform_ops perform_op
  perform_ops-finishes [] w h f = absurd (ground arith)
  perform_ops-finishes (soon x ∷ ops) w h f =
      perform_ops-finishes ops (perform_op heap clock (soon x) w) h f
  perform_ops-finishes (cancel x ∷ ops) w h f =
      perform_ops-finishes ops (perform_op heap clock (cancel x) w) h f
  perform_ops-finishes (at t x ∷ ops) w h f =
      perform_ops-finishes ops (perform_op heap clock (at t x) w) h f
  perform_ops-finishes (later t x ∷ ops) w h f =
      perform_ops-finishes ops (perform_op heap clock (later t x) w) h f
  perform_ops-finishes (report e ∷ ops) w h f = elim h [ ]
  perform_ops-finishes (halt ∷ ops) w h f = elim h [ ]
  perform_ops-finishes (finish ∷ ops) w h f =
      (perform_ops-Keeps ops (perform_op heap clock finish w) h).2 refl

module _ {Q E : Type 0} (heap : Heap Q) (clock : ℕ → ℕ) (acts : ℕ → List (Op E)) where
  abbrev Within : (World Q E → Type 0) → Option (World Q E) → Type 0
  Within I none = Unit
  Within I (some v) = I v

  -- What every callback keeps, the loop over the due timers keeps.
  run_due-Within :
      (I : World Q E → Type 0)
      → ((h : ℕ) (w : World Q E) → I w → I (run_handle heap clock acts h w))
      → ((q : Q) (w : World Q E) → I w → I (record w { loop = record w.loop { scheduled = q } }))
      → (k now : ℕ) (w : World Q E) → I w
      → Within I (run_due heap clock acts k now w)
  unfolding run_due
  run_due-Within I f g zero now w i = tt
  run_due-Within I f g (suc k) now w i = elim (Option-cases (heap.heappop w.loop.scheduled)) [
    | inl e ↦ rw (e, run_due) i
    | inr (((when, h), q), e) ↦ elim (Bool-cases (leb when now)) [
      | inl b ↦
          rw (e, b, run_due)
            (run_due-Within I f g k now
              (run_handle heap clock acts h (record w { loop = record w.loop { scheduled = q } }))
              (f h (record w { loop = record w.loop { scheduled = q } }) (g q w i)))
      | inr b ↦ rw (e, b, run_due) i
    ]
  ]

  -- One pass of `run_turns`, by what its turn did.
  pub run_turns-raised :
      (n k : ℕ) (e : E) (w v : World Q E)
      → (w.loop.running && not w.done) ≡ true
      → turn heap clock acts k w ≡ some (some e, v)
      → run_turns heap clock acts (suc n) k w ≡ some (raised e, v)
  unfolding run_turns
  run_turns-raised n k e w v b t = rw (b, t, run_turns)

  pub run_turns-turn :
      (n k : ℕ) (w v : World Q E)
      → (w.loop.running && not w.done) ≡ true
      → turn heap clock acts k w ≡ some (none, v)
      → run_turns heap clock acts (suc n) k w ≡ run_turns heap clock acts n k v
  unfolding run_turns
  run_turns-turn n k w v b t = rw (b, t, run_turns)

  pub run_turns-done :
      (n k : ℕ) (w : World Q E)
      → w.done ≡ true
      → run_turns heap clock acts (suc n) k w ≡ some (result, w)
  unfolding run_turns
  run_turns-done n k w d = simp (d, and_false w.loop.running, run_turns)

  abbrev pub started : World Q E → World Q E
  started w = record w { loop = record w.loop { running = true } }

  pub run_until_complete-some :
      (n k : ℕ) (r : Ending E) (w v : World Q E)
      → run_turns heap clock acts n k (started w) ≡ some (r, v)
      → run_until_complete heap clock acts n k true w ≡ some (r, stop v)
  unfolding run_until_complete
  run_until_complete-some n k r w v e = rw (e, run_until_complete)

module _ {Q E : Type 0} (heap : Heap Q) (clock : ℕ → ℕ) (acts : ℕ → List (Op E))
    (calm : (h : ℕ) → IsCalm (acts h)) where
  run_handle-Keeps : (h : ℕ) (w : World Q E) → Keeps w (run_handle heap clock acts h w)
  unfolding run_handle
  run_handle-Keeps h w = elim (Bool-cases (contains h w.cancelled)) [
    | inl e ↦ rw (e, run_handle) (refl, refl, λ d. d)
    | inr e ↦
        rw (e, run_handle)
          (perform_ops-Keeps heap clock (acts h) (record w { ran = w.ran ++ h ∷ [] }) (calm h))
  ]

  run_handles-Keeps : (hs : List ℕ) (w : World Q E) → Keeps w (run_handles heap clock acts hs w)
  unfolding run_handles
  run_handles-Keeps [] w = (refl, refl, λ d. d)
  run_handles-Keeps (h ∷ hs) w =
      let v = run_handle heap clock acts h w in
      Keeps-trans w v (run_handles heap clock acts hs v) (run_handle-Keeps h w)
        (run_handles-Keeps hs v)

  run_due-Keeps :
      (k now : ℕ) (w v : World Q E) → run_due heap clock acts k now w ≡ some v → Keeps w v
  run_due-Keeps k now w v r = subst (Within heap clock acts (Keeps w)) r (
      run_due-Within heap clock acts (Keeps w)
        (λ h u i. Keeps-trans w u (run_handle heap clock acts h u) i (run_handle-Keeps h u))
        (λ q u i. i) k now w (refl, refl, λ d. d))

  -- The world in which the loop over the due timers of a turn starts, and the time it compares with.
  abbrev pub before_due : World Q E → World Q E
  before_due w = (time clock (run_immediate heap clock acts w)).1

  abbrev pub now_of : World Q E → ℕ
  now_of w = clock (run_immediate heap clock acts w).reads

  before_due-Keeps : (w : World Q E) → Keeps w (before_due w)
  unfolding run_immediate time
  before_due-Keeps w =
      run_handles-Keeps w.loop.handles (record w { loop = record w.loop { handles = [] } })

  turn-some :
      (k : ℕ) (w v : World Q E)
      → run_due heap clock acts k (now_of w) (before_due w) ≡ some v
      → turn heap clock acts k w ≡ some (v.loop.exception, v)
  unfolding turn time
  turn-some k w v r = rw (r, turn)

  -- A turn whose timers are set for after it, with the fuel it takes.
  abbrev pub IsTimely : World Q E → Type 0
  IsTimely w = ((h : ℕ) → IsAfter (now_of w) (acts h)) × IsPast clock (now_of w) (before_due w)

  turn_ends :
      (w : World Q E)
      → IsTimely w
      → (k : ℕ) × (v : World Q E) × (turn heap clock acts k w ≡ some (v.loop.exception, v))
        × Keeps w v
        × ((before_due w).done ≡ true → v.done ≡ true)
  turn_ends w (a, p) =
      let n = count (due (now_of w)) (heap.entries (before_due w).loop.scheduled) in
      let (v, r, d) =
        run_due_ends heap clock acts (suc n) (now_of w) (before_due w) a p (omega arith) in
      (
        suc n,
        v,
        turn-some (suc n) w v r,
        Keeps-trans w (before_due w) v (before_due-Keeps w)
            (run_due-Keeps (suc n) (now_of w) (before_due w) v r),
        (run_due-Keeps (suc n) (now_of w) (before_due w) v r).2,
      )

  -- An exception that is stored is never forgotten: where callbacks report none and stop nothing, a
  -- later run raises it again at the end of its first turn, even when its future is done by then,
  -- and leaves it stored in a loop that is stopped.
  pub raises_again :
      (n : ℕ) (e : E) (w : World Q E)
      → w.loop.exception ≡ some e
      → w.done ≡ false
      → IsTimely (started heap clock acts w)
      → (k : ℕ) × (v : World Q E) × (run_until_complete heap clock acts (suc n) k true w
          ≡ some (raised e, v))
        × (v.loop.exception ≡ some e)
        × (v.loop.running ≡ false)
  unfolding stop
  raises_again n e w s d t =
      let w' = started heap clock acts w in
      let (k, v, r, (same, _, _), _) = turn_ends w' t in
      let r' = r ∙ ap (λ x. some (x, v)) (same ∙ s) in
      (
        k,
        stop v,
        run_until_complete-some heap clock acts (suc n) k (raised e) w v
            (run_turns-raised heap clock acts n k e w' v (ap not d) r'),
        same ∙ s,
        refl,
      )

  run_handle-finishes :
      (h : ℕ) (w : World Q E)
      → finishes (acts h) ≡ true
      → contains h w.cancelled ≡ false
      → (run_handle heap clock acts h w).done ≡ true
  unfolding run_handle
  run_handle-finishes h w f c =
      rw (c, run_handle)
        (perform_ops-finishes heap clock (acts h) (record w { ran = w.ran ++ h ∷ [] }) (calm h) f)

  cancelled-run_handle :
      (h : ℕ) (w : World Q E)
      → NoCancel (acts h)
      → (run_handle heap clock acts h w).cancelled ≡ w.cancelled
  unfolding run_handle
  cancelled-run_handle h w nc = elim (Bool-cases (contains h w.cancelled)) [
    | inl e ↦ rw (e, run_handle) refl
    | inr e ↦
        rw (e, run_handle)
          ((perform_ops_adds heap clock (acts h) (record w { ran = w.ran ++ h ∷ [] }) nc).2)
  ]

  run_handles_finish :
      (h : ℕ) (hs : List ℕ) (w : World Q E)
      → ((x : ℕ) → NoCancel (acts x))
      → finishes (acts h) ≡ true
      → contains h hs ≡ true
      → contains h w.cancelled ≡ false
      → (run_handles heap clock acts hs w).done ≡ true
  unfolding run_handles
  run_handles_finish h [] w nc f m c = absurd (ground arith)
  run_handles_finish h (x ∷ hs) w nc f m c = elim (Bool-cases (x == h)) [
    | inl q ↦ (run_handles-Keeps hs (run_handle heap clock acts x w)).2 (
        let e = sym ((==_iff x h).0 q) in
        run_handle-finishes x w (subst (λ y. finishes (acts y) ≡ true) e f)
          (subst (λ y. contains y w.cancelled ≡ false) e c))
    | inr q ↦
        run_handles_finish h hs (run_handle heap clock acts x w) nc f (ground arith)
          (ap (contains h) (cancelled-run_handle x w (nc x)) ∙ c)
  ]

  -- Where no exception is stored and callbacks only queue, schedule for later and finish: a callback
  -- in the queue that is not cancelled and finishes the future is reached, and the run returns the
  -- future's result after its first turn.
  pub run_until_complete_returns :
      (n h : ℕ) (w : World Q E)
      → ((x : ℕ) → NoCancel (acts x))
      → w.loop.exception ≡ none
      → w.done ≡ false
      → finishes (acts h) ≡ true
      → contains h w.loop.handles ≡ true
      → contains h w.cancelled ≡ false
      → IsTimely (started heap clock acts w)
      → (k : ℕ) × (v : World Q E) × (run_until_complete heap clock acts (suc (suc n)) k true w
          ≡ some (result, v))
        × (v.loop.running ≡ false)
  unfolding stop run_immediate time
  run_until_complete_returns n h w nc s d f m c t =
      let w' = started heap clock acts w in
      let (k, v, r, (same, _, _), done) = turn_ends w' t in
      let fin =
        run_handles_finish h w.loop.handles (record w' { loop = record w'.loop { handles = [] } })
          nc f m c in
      let r' = r ∙ ap (λ x. some (x, v)) (same ∙ s) in
      (
        k,
        stop v,
        run_until_complete-some heap clock acts (suc (suc n)) k result w v (
            run_turns-turn heap clock acts (suc n) k w' v (ap not d) r'
            ∙ run_turns-done heap clock acts n k v (done fin)),
        refl,
      )
