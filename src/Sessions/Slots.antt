-- ===== src/Sessions/Slots.antt =====
-- The limit on concurrent invocations: `_create_invocation` and `_destroy_invocation` of
-- `src/server_session_manager/server_session_manager.py`.
use agentica_server.Base.{ℕ, zero, suc, ◌≤◌, ◌<◌, ◌≡◌, ◌↔◌, true, false, arith, ltb, if◌then◌else◌}
use agentica_server.Base.Int.{pos, ◌+ℤ◌, ◌-ℤ◌}
use agentica_server.Sessions.{Manager, Config, create_invocation, destroy_invocation}

module _ {M L S A : Type 0} (c : Config) where
  pub create_invocation_lem :
      (n : ℕ) (m : Manager M L S A)
      → m.concurrent_invocations ≡ pos n
      → ((create_invocation c m).0 ≡ ltb n c.max_concurrent_invocations)
        × ((create_invocation c m).1.concurrent_invocations
            ≡ pos (if ltb n c.max_concurrent_invocations then suc n else n))
  unfolding create_invocation ◌+ℤ◌
  create_invocation_lem n m e = rw e (ground arith, ground arith)

  pub destroy_invocation_lem :
      (n : ℕ) (m : Manager M L S A)
      → m.concurrent_invocations ≡ pos (suc n)
      → (destroy_invocation m).concurrent_invocations ≡ pos n
  unfolding destroy_invocation ◌-ℤ◌
  destroy_invocation_lem n m e = rw e (ground arith)

-- The managers that can be reached with n slots granted and not yet given back.
pub data Holding {M L S A : Type 0} (c : Config) : ℕ → Manager M L S A → Type 0 where
  start : (m : Manager M L S A) → m.concurrent_invocations ≡ pos 0 → Holding c zero m
  granted :
      {n : ℕ} {m : Manager M L S A}
      → Holding c n m
      → (create_invocation c m).0 ≡ true
      → Holding c (suc n) (create_invocation c m).1
  refused :
      {n : ℕ} {m : Manager M L S A}
      → Holding c n m
      → (create_invocation c m).0 ≡ false
      → Holding c n (create_invocation c m).1
  given_back :
      {n : ℕ} {m : Manager M L S A} → Holding c (suc n) m → Holding c n (destroy_invocation m)

module _ {M L S A : Type 0} {c : Config} where
  count_exact :
      {n : ℕ} {m : Manager M L S A}
      → Holding c n m
      → (m.concurrent_invocations ≡ pos n) × (n ≤ c.max_concurrent_invocations)
  count_exact (start m e) = (e, omega arith)
  count_exact (granted {n} {m} h g) =
      let (e, b) = count_exact h in
      let (p, q) = create_invocation_lem c n m e in (ground arith, ground arith)
  count_exact (refused {n} {m} h g) =
      let (e, b) = count_exact h in
      let (p, q) = create_invocation_lem c n m e in (ground arith, ground arith)
  count_exact (given_back {n} {m} h) =
      let (e, b) = count_exact h in (destroy_invocation_lem c n m e, omega arith)

  -- However grants, refusals and returns of slots follow one another, the count is the number of
  -- slots held, it is within the limit, and the next request is granted exactly below the limit.
  pub Holding-exact :
      {n : ℕ} {m : Manager M L S A}
      → Holding c n m
      → (m.concurrent_invocations ≡ pos n)
        × (n ≤ c.max_concurrent_invocations)
        × (((create_invocation c m).0 ≡ true) ↔ (n < c.max_concurrent_invocations))
  Holding-exact {n} {m} h =
      let (e, b) = count_exact h in
      let (p, q) = create_invocation_lem c n m e in (e, b, rw p (ground arith))
