-- ===== src/PollLoop/Timers.antt =====
-- The due timers of one turn of `src/sandbox/guest/poll_loop.py`: the inner loop ends when callbacks
-- schedule only for later, and by then every due callback ran or was cancelled.
use agentica_server.Base.{
  ℕ, zero, suc, ◌+◌, ◌≤◌, ◌<◌, ◌≡◌, refl, sym, ap, subst, ◌∙◌, Bool, true, false, ◌&&◌, some, List,
  [], ◌∷◌, ◌++◌, ◌==◌, ltb, leb, arith, Bool-cases, Option-cases, inl, inr, ==_iff,
}
use agentica_server.PollLoop.{
  World, Op, soon, at, later, cancel, report, halt, finish, perform_op, perform_ops, call_soon,
  call_at, call_later, stop, call_exception_handler, timer_handle_cancelled, time,
}
use agentica_server.PollLoop.Heapq.{Heap, Entry, count, one_if}
use agentica_server.PollLoop.Turns.{contains, run_handle, run_due}
use agentica_server.PollLoop.Order.{settled, run_handle_keeps, run_handle_settles}

abbrev pub due : ℕ → Entry → Bool
due now e = leb e.0 now

abbrev pub due_for : ℕ → ℕ → Entry → Bool
due_for now h e = leb e.0 now && (e.1 == h)

-- A test that no entry after `now` passes.
abbrev IsEarly : ℕ → (Entry → Bool) → Type 0
IsEarly now p = (e : Entry) → now < e.0 → p e ≡ false

due-IsEarly : (now : ℕ) → IsEarly now (due now)
due-IsEarly now e h = ground arith

due_for-IsEarly : (now h : ℕ) → IsEarly now (due_for now h)
due_for-IsEarly now h e l = ground arith

-- A list without entries before `t` has none up to an earlier `now`.
count_early :
    (now t : ℕ) (p : Entry → Bool) (xs : List Entry)
    → IsEarly now p
    → now < t
    → count (λ (x : Entry). ltb x.0 t) xs ≡ 0
    → count p xs ≡ 0
count_early now t p [] i l h = refl
count_early now t p (x ∷ xs) i l h = elim (Bool-cases (ltb x.0 t)) [
  | inl e ↦ absurd (ground (arith, e))
  | inr e ↦
      let q : now < x.0 = ground arith in
      ground (arith, i x q, count_early now t p xs i l (ground (arith, e)))
]

none_due_for : (now h : ℕ) (xs : List Entry) → count (due now) xs ≡ 0 → count (due_for now h) xs ≡ 0
none_due_for now h [] e = refl
none_due_for now h (x ∷ xs) e = ground (arith, none_due_for now h xs)

module _ {E : Type 0} where
  -- A callback that schedules timers only for after `now`.
  abbrev pub IsAfter : ℕ → List (Op E) → Type 0
  IsAfter now [] = Unit
  IsAfter now (at when h ∷ ops) = (now < when) × IsAfter now ops
  IsAfter now (later delay h ∷ ops) = (0 < delay) × IsAfter now ops
  IsAfter now (_ ∷ ops) = IsAfter now ops

module _ {Q E : Type 0} where
  -- The clock reads `now` or later from here on.
  abbrev pub IsPast : (ℕ → ℕ) → ℕ → World Q E → Type 0
  IsPast clock now w = (n : ℕ) → w.reads ≤ n → now ≤ clock n

module _ {Q : Type 0} (heap : Heap Q) where
  push_early :
      (now t x : ℕ) (p : Entry → Bool) (q : Q)
      → IsEarly now p
      → now < t
      → count p (heap.entries (heap.heappush (t, x) q)) ≡ count p (heap.entries q)
  push_early now t x p q i l =
      heap.count-heappush p (t, x) q
      ∙ ap (λ b. one_if b + count p (heap.entries q)) (i (t, x) l)
      ∙ omega arith

module _ {Q E : Type 0} (heap : Heap Q) (clock : ℕ → ℕ) where
  -- Nothing that an early test passes is scheduled.
  perform_ops_early :
      (now : ℕ) (p : Entry → Bool) (ops : List (Op E)) (w : World Q E)
      → IsEarly now p
      → IsAfter now ops
      → IsPast clock now w
      → (count p (heap.entries (perform_ops heap clock ops w).loop.scheduled)
          ≡ count p (heap.entries w.loop.scheduled))
        × IsPast clock now (perform_ops heap clock ops w)
  unfolding perform_ops perform_op call_soon call_at call_later stop call_exception_handler
      timer_handle_cancelled time
  perform_ops_early now p [] w i a c = (refl, c)
  perform_ops_early now p (soon x ∷ ops) w i a c =
      perform_ops_early now p ops (perform_op heap clock (soon x) w) i a c
  perform_ops_early now p (cancel x ∷ ops) w i a c =
      perform_ops_early now p ops (perform_op heap clock (cancel x) w) i a c
  perform_ops_early now p (at t x ∷ ops) w i (b, a) c =
      let (e, c') = perform_ops_early now p ops (perform_op heap clock (at t x) w) i a c in
      (e ∙ push_early heap now t x p w.loop.scheduled i b, c')
  perform_ops_early now p (later t x ∷ ops) w i (b, a) c =
      let (e, c') =
        perform_ops_early now p ops (perform_op heap clock (later t x) w) i a
          (λ n l. c n (omega arith)) in
      let q : now < clock w.reads + t = omega (arith, c w.reads (omega arith)) in
      (e ∙ push_early heap now (clock w.reads + t) x p w.loop.scheduled i q, c')
  perform_ops_early now p (report x ∷ ops) w i a c =
      perform_ops_early now p ops (perform_op heap clock (report x) w) i a c
  perform_ops_early now p (halt ∷ ops) w i a c =
      perform_ops_early now p ops (perform_op heap clock halt w) i a c
  perform_ops_early now p (finish ∷ ops) w i a c =
      perform_ops_early now p ops (perform_op heap clock finish w) i a c

module _ {Q E : Type 0} (heap : Heap Q) (clock : ℕ → ℕ) (acts : ℕ → List (Op E)) where
  run_handle_early :
      (now : ℕ) (p : Entry → Bool) (h : ℕ) (w : World Q E)
      → IsEarly now p
      → IsAfter now (acts h)
      → IsPast clock now w
      → (count p (heap.entries (run_handle heap clock acts h w).loop.scheduled)
          ≡ count p (heap.entries w.loop.scheduled))
        × IsPast clock now (run_handle heap clock acts h w)
  unfolding run_handle
  run_handle_early now p h w i a c = elim (Bool-cases (contains h w.cancelled)) [
    | inl e ↦ rw (e, run_handle) (refl, c)
    | inr e ↦
        rw (e, run_handle)
          (perform_ops_early heap clock now p (acts h) (record w { ran = w.ran ++ h ∷ [] }) i a c)
  ]

  -- Every callback of `w` that is due at `now` is settled in `v`, where nothing is due any more.
  abbrev pub IsDrained : ℕ → World Q E → World Q E → Type 0
  IsDrained now w v =
      (count (due now) (heap.entries v.loop.scheduled) ≡ 0)
      × ((h : ℕ) → 0 < count (due_for now h) (heap.entries w.loop.scheduled) → settled h v ≡ true)
      × ((h : ℕ) → settled h w ≡ true → settled h v ≡ true)

  abbrev popped : World Q E → ℕ → Q → World Q E
  popped w h q = run_handle heap clock acts h (record w { loop = record w.loop { scheduled = q } })

  count-popped :
      (now : ℕ) (p : Entry → Bool) (w : World Q E) (e : Entry) (q : Q)
      → IsEarly now p
      → heap.heappop w.loop.scheduled ≡ some (e, q)
      → IsAfter now (acts e.1)
      → IsPast clock now w
      → count p (heap.entries w.loop.scheduled)
        ≡ one_if (p e) + count p (heap.entries (popped w e.1 q).loop.scheduled)
  count-popped now p w e q i r a c =
      let (same, _) =
        run_handle_early now p e.1 (record w { loop = record w.loop { scheduled = q } }) i a c in
      heap.count-heappop p w.loop.scheduled q e r ∙ ap (λ n. one_if (p e) + n) (sym same)

  settles_due :
      (now x : ℕ) (w v : World Q E) (e : Entry) (q : Q)
      → heap.heappop w.loop.scheduled ≡ some (e, q)
      → IsAfter now (acts e.1)
      → IsPast clock now w
      → IsDrained now (popped w e.1 q) v
      → 0 < count (due_for now x) (heap.entries w.loop.scheduled)
      → settled x v ≡ true
  settles_due now x w v e q r a c (_, all, keeps) l =
      let w' = record w { loop = record w.loop { scheduled = q } } in
      let n = count-popped now (due_for now x) w e q (due_for-IsEarly now x) r a c in
      elim (Bool-cases (e.1 == x)) [
        | inl b ↦ keeps x (
            subst (λ y. settled y (popped w e.1 q) ≡ true) ((==_iff e.1 x).0 b)
              (run_handle_settles heap clock acts e.1 w'))
        | inr b ↦ all x (ground (arith, n))
      ]

  step-IsDrained :
      (now : ℕ) (w v : World Q E) (e : Entry) (q : Q)
      → heap.heappop w.loop.scheduled ≡ some (e, q)
      → IsAfter now (acts e.1)
      → IsPast clock now w
      → IsDrained now (popped w e.1 q) v
      → IsDrained now w v
  step-IsDrained now w v e q r a c d = (
    d.0,
    (λ x l. settles_due now x w v e q r a c d l),
    (λ x s. (d.2) x (
        run_handle_keeps heap clock acts e.1 x (record w { loop = record w.loop { scheduled = q } })
          s)),
  )

  already-IsDrained :
      (now : ℕ) (w : World Q E)
      → count (due now) (heap.entries w.loop.scheduled) ≡ 0
      → IsDrained now w w
  already-IsDrained now w e = (
    e,
    (λ h l. absurd (omega (arith, none_due_for now h (heap.entries w.loop.scheduled) e))),
    (λ h s. s),
  )

  -- Where callbacks schedule timers only for after `now`, the loop over the due timers ends, with
  -- more fuel than there are due entries. Then nothing is due any more, and each callback that was
  -- due ran or was cancelled.
  pub run_due_ends :
      (k now : ℕ) (w : World Q E)
      → ((h : ℕ) → IsAfter now (acts h))
      → IsPast clock now w
      → count (due now) (heap.entries w.loop.scheduled) < k
      → (v : World Q E) × (run_due heap clock acts k now w ≡ some v) × IsDrained now w v
  unfolding run_due
  run_due_ends zero now w a c l = absurd (omega arith)
  run_due_ends (suc k) now w a c l = elim (Option-cases (heap.heappop w.loop.scheduled)) [
    | inl e ↦ (
      w,
      rw (e, run_due) refl,
      already-IsDrained now w (ap (count (due now)) (heap.heappop-none w.loop.scheduled e)),
    )
    | inr (((when, h), q), e) ↦ elim (Bool-cases (leb when now)) [
      | inl b ↦
          let n = count-popped now (due now) w (when, h) q (due-IsEarly now) e (a h) c in
          let past =
            (run_handle_early now (due now) h (record w { loop = record w.loop { scheduled = q } })
              (due-IsEarly now) (a h) c).1 in
          let (v, r, d) = run_due_ends k now (popped w h q) a past (ground (arith, n)) in
          (v, rw (e, b, run_due) r, step-IsDrained now w v (when, h) q e (a h) c d)
      | inr b ↦ (
        w,
        rw (e, b, run_due) refl,
        already-IsDrained now w (
            count_early now when (due now) (heap.entries w.loop.scheduled) (due-IsEarly now)
              (ground arith) (heap.heappop_least w.loop.scheduled q (when, h) e)),
      )
    ]
  ]
