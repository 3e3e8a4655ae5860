-- ===== src/PollLoop/Fifo.antt =====
-- The order in which one turn of `src/sandbox/guest/poll_loop.py` runs the callbacks that are queued
-- when it starts, where none of them cancels another.
use agentica_server.Base.{
  ℕ, ◌≡◌, refl, sym, ap, ◌∙◌, List, [], ◌∷◌, ◌++◌, if◌then◌else◌, Bool-cases, inl, inr, subst,
  append-nil, append_assoc,
}
use agentica_server.PollLoop.{
  World, Op, soon, at, later, cancel, report, halt, finish, perform_op, perform_ops, call_soon,
  call_at, call_later, stop, call_exception_handler, time,
}
use agentica_server.PollLoop.Heapq.{Heap}
use agentica_server.PollLoop.Turns.{contains, run_handle, run_handles, run_immediate}

-- The handles of a list whose flag is not set.
abbrev pub live : List ℕ → List ℕ → List ℕ
live cs [] = []
live cs (h ∷ hs) = let rest = live cs hs in if contains h cs then rest else h ∷ rest

module _ {E : Type 0} where
  abbrev pub NoCancel : List (Op E) → Type 0
  NoCancel [] = Unit
  NoCancel (cancel h ∷ ops) = ⊥
  NoCancel (_ ∷ ops) = NoCancel ops

  -- What a callback queues with `call_soon`.
  abbrev pub queued : List (Op E) → List ℕ
  queued [] = []
  queued (soon h ∷ ops) = h ∷ queued ops
  queued (_ ∷ ops) = queued ops

  abbrev pub queued_all : (ℕ → List (Op E)) → List ℕ → List ℕ
  queued_all acts [] = []
  queued_all acts (h ∷ hs) = queued (acts h) ++ queued_all acts hs

append_step : (x a b : List ℕ) {y z : List ℕ} → y ≡ x ++ a → z ≡ y ++ b → z ≡ x ++ (a ++ b)
append_step x a b p q = q ∙ ap (λ t. t ++ b) p ∙ append_assoc x a b

module _ {Q E : Type 0} where
  -- What a turn so far has added to the queue and to the callbacks that ran.
  abbrev pub Added : List ℕ → List ℕ → World Q E → World Q E → Type 0
  Added hs rs w v =
      (v.loop.handles ≡ w.loop.handles ++ hs) × (v.ran ≡ w.ran ++ rs) × (v.cancelled ≡ w.cancelled)

  Added-trans :
      (hs hs' rs rs' : List ℕ) (w v u : World Q E)
      → Added hs rs w v
      → Added hs' rs' v u
      → Added (hs ++ hs') (rs ++ rs') w u
  Added-trans hs hs' rs rs' w v u (a, b, c) (a', b', c') =
      (append_step w.loop.handles hs hs' a a', append_step w.ran rs rs' b b', c' ∙ c)

module _ {Q E : Type 0} (heap : Heap Q) (clock : ℕ → ℕ) where
  pub perform_ops_adds :
      (ops : List (Op E)) (w : World Q E)
      → NoCancel ops
      → Added (queued ops) [] w (perform_ops heap clock ops w)
  unfolding perform_ops perform_op call_soon call_at call_later stop call_exception_handler time
  perform_ops_adds [] w h = (sym (append-nil w.loop.handles), sym (append-nil w.ran), refl)
  perform_ops_adds (soon x ∷ ops) w h =
      Added-trans (x ∷ []) (queued ops) [] [] w (call_soon x w)
        (perform_ops heap clock ops (call_soon x w)) (refl, sym (append-nil w.ran), refl)
        (perform_ops_adds ops (call_soon x w) h)
  perform_ops_adds (cancel x ∷ ops) w h = elim h [ ]
  perform_ops_adds (at t x ∷ ops) w h = perform_ops_adds ops (perform_op heap clock (at t x) w) h
  perform_ops_adds (later t x ∷ ops) w h =
      perform_ops_adds ops (perform_op heap clock (later t x) w) h
  perform_ops_adds (report e ∷ ops) w h =
      perform_ops_adds ops (perform_op heap clock (report e) w) h
  perform_ops_adds (halt ∷ ops) w h = perform_ops_adds ops (perform_op heap clock halt w) h
  perform_ops_adds (finish ∷ ops) w h = perform_ops_adds ops (perform_op heap clock finish w) h

module _ {Q E : Type 0} (heap : Heap Q) (clock : ℕ → ℕ) (acts : ℕ → List (Op E))
    (none_cancels : (h : ℕ) → NoCancel (acts h)) where
  run_one_adds :
      (h : ℕ) (hs : List ℕ) (w v u : World Q E)
      → Added (queued (acts h)) [] (record w { ran = w.ran ++ h ∷ [] }) v
      → Added (queued_all acts (live v.cancelled hs)) (live v.cancelled hs) v u
      → Added
          (queued (acts h) ++ queued_all acts (live w.cancelled hs))
          (h ∷ live w.cancelled hs)
          w
          u
  run_one_adds h hs w v u (a, b, c) ih =
      let (a', b', c') = subst (λ cs. Added (queued_all acts (live cs hs)) (live cs hs) v u) c ih in
      (
        append_step w.loop.handles (queued (acts h)) (queued_all acts (live w.cancelled hs)) a a',
        append_step w.ran (h ∷ []) (live w.cancelled hs) (b ∙ append-nil (w.ran ++ h ∷ [])) b',
        c' ∙ c,
      )

  run_handles_adds :
      (hs : List ℕ) (w : World Q E)
      → Added
          (queued_all acts (live w.cancelled hs))
          (live w.cancelled hs)
          w
          (run_handles heap clock acts hs w)
  unfolding run_handles run_handle
  run_handles_adds [] w = (sym (append-nil w.loop.handles), sym (append-nil w.ran), refl)
  run_handles_adds (h ∷ hs) w = elim (Bool-cases (contains h w.cancelled)) [
    | inl c ↦ rw (c, run_handles, run_handle) (run_handles_adds hs w)
    | inr c ↦
        rw (c, run_handles, run_handle)
          (let v = perform_ops heap clock (acts h) (record w { ran = w.ran ++ h ∷ [] }) in
            run_one_adds h hs w v (run_handles heap clock acts hs v)
              (perform_ops_adds heap clock (acts h) (record w { ran = w.ran ++ h ∷ [] })
                (none_cancels h))
              (run_handles_adds hs v))
  ]

  -- Where no callback cancels another, a turn runs the callbacks that were queued when it started
  -- and are not cancelled, in the order of the queue; what they queue, and only that, waits for the
  -- next turn, in the order of the calls.
  pub run_immediate_order :
      (w : World Q E)
      → ((run_immediate heap clock acts w).ran ≡ w.ran ++ live w.cancelled w.loop.handles)
        × ((run_immediate heap clock acts w).loop.handles
            ≡ queued_all acts (live w.cancelled w.loop.handles))
  unfolding run_immediate
  run_immediate_order w =
      let (a, b, c) =
        run_handles_adds w.loop.handles (record w { loop = record w.loop { handles = [] } }) in
      (b, a)
