-- ===== src/Sessions/Interleaving.antt =====
-- What comes between the awaits of `_cleanup_agent` and `deregister_session` of
-- `src/server_session_manager/server_session_manager.py`: every order of the stretches of the
-- cleanups, of new agents and of new sessions.
use agentica_server.Base.{
  ℕ, ◌≡◌, ◌≢◌, refl, true, false, ◌||◌, ap, ◌∙◌, Option, none, some, List, [], ◌∷◌, ◌++◌, arith,
  ◌==◌, get, has, erase, get-erase, has-erase, has-put, if_both,
}
use agentica_server.Sessions.{
  Manager, Session, AgentView, Config, Attempt, member, discard, member-discard, register_session,
  associate, install, construct, build, Result, create_agent, release, untrack,
}
use agentica_server.Sessions.Ownership.{
  IsOwned, lists, register_session-IsOwned, create_agent-IsOwned_pending,
}
use agentica_server.Sessions.Cleanup.{untrack-IsOwned}
use agentica_server.Sessions.Deregister.{agents-untrack}

member-append : (u : ℕ) (xs ys : List ℕ) → member u (xs ++ ys) ≡ (member u xs || member u ys)
unfolding member
member-append u [] ys = refl
member-append u (x ∷ xs) ys = ground (arith, member-append u xs ys)

differs : (u w : ℕ) (ws : List ℕ) → member u ws ≡ false → member w ws ≡ true → u == w ≡ false
unfolding member
differs u w [] h k = absurd (ground arith)
differs u w (x ∷ xs) h k = ground (arith, differs u w xs)

still : (u w : ℕ) (ws : List ℕ) → member w (discard u ws) ≡ true → member w ws ≡ true
still u w ws h = ground (arith, member-discard u w ws)

-- The manager, the uids of sessions that are being drained, and those whose cleanup waits at its
-- first await.
pub record World (M L S A : Type 0) : Type 0 where
  pub manager : Manager M L S A
  pub draining : List ℕ
  pub waiting : List ℕ

module _ {M L S A : Type 0} (v : AgentView A) where
  -- `begins` and `skips` are the stretch up to the first await, of a cleanup for whatever reason;
  -- `resumes` is the stretch after it. A uid is new when an agent is created.
  pub data Steps : World M L S A → World M L S A → Type 0 where
    stop : (w : World M L S A) → Steps w w
    registers :
        (cid : ℕ) {w w' : World M L S A}
        → cid ≢ 0
        → Steps (record w { manager = register_session cid w.manager }) w'
        → Steps w w'
    creates :
        (c : Config) (t : Attempt M A) (uid cid : ℕ) {w w' : World M L S A}
        → cid ≢ 0
        → has uid w.manager.agents ≡ false
        → get uid w.manager.uid_to_cid ≡ none
        → member uid w.waiting ≡ false
        → Steps (record w { manager = (create_agent c t uid cid w.manager).1 }) w'
        → Steps w w'
    deregisters :
        (cid : ℕ) (s : Session) {w w' : World M L S A}
        → get cid w.manager.sessions ≡ some s
        → Steps
            (record w {
              manager = record w.manager { sessions = erase cid w.manager.sessions };
              draining = s.uids ++ w.draining;
            })
            w'
        → Steps w w'
    begins :
        (uid : ℕ) (a : A) {w w' : World M L S A}
        → get uid w.manager.agents ≡ some a
        → Steps
            (record {
              manager = (release v uid a w.manager).1;
              draining = discard uid w.draining;
              waiting = uid ∷ w.waiting;
            })
            w'
        → Steps w w'
    skips :
        (uid : ℕ) {w w' : World M L S A}
        → has uid w.manager.agents ≡ false
        → Steps (record w { draining = discard uid w.draining }) w'
        → Steps w w'
    resumes :
        (uid : ℕ) {w w' : World M L S A}
        → member uid w.waiting ≡ true
        → Steps (record w { manager = untrack uid w.manager; waiting = discard uid w.waiting }) w'
        → Steps w w'

module _ {M L S A : Type 0} where
  erased-IsOwned :
      (cid : ℕ) (s : Session) {p : List ℕ} (m : Manager M L S A)
      → get cid m.sessions ≡ some s
      → IsOwned p m
      → IsOwned (s.uids ++ p) (record m { sessions = erase cid m.sessions })
  unfolding lists member
  erased-IsOwned cid s {p} m e h = record {
    tracked = λ u c l. ground (arith, get-erase cid c m.sessions, h.tracked u c);
    owned = λ u c b g.
        ground (arith, get-erase cid c m.sessions, h.owned u c b g, member-append u s.uids p);
    mapped = h.mapped;
    named = ground (arith, has-erase cid 0 m.sessions, h.named);
  }

  skipped-IsOwned :
      (uid : ℕ) {p : List ℕ} (m : Manager M L S A)
      → has uid m.agents ≡ false
      → IsOwned p m
      → IsOwned (discard uid p) m
  skipped-IsOwned uid {p} m e h = record {
    tracked = h.tracked;
    owned = λ u c b g. ground (arith, h.owned u c b g, member-discard uid u p);
    mapped = h.mapped;
    named = h.named;
  }

  released-IsOwned :
      (v : AgentView A) (uid : ℕ) (a : A) {p : List ℕ} (m : Manager M L S A)
      → IsOwned p m
      → IsOwned (discard uid p) (release v uid a m).1
  unfolding release
  released-IsOwned v uid a {p} m h = record {
    tracked = h.tracked;
    owned =
        λ u c b g. ground (arith, has-erase uid u m.agents, h.owned u c, member-discard uid u p);
    mapped = λ u b. ground (arith, has-erase uid u m.agents, h.mapped u);
    named = h.named;
  }

  -- Nobody waits for the cleanup of an agent that is still there.
  abbrev AreGone : List ℕ → Manager M L S A → Type 0
  AreGone ws m = (u : ℕ) → member u ws ≡ true → has u m.agents ≡ false

  agents-register : (cid : ℕ) (m : Manager M L S A) → (register_session cid m).agents ≡ m.agents
  unfolding register_session
  agents-register cid m = ground arith

  has-build :
      (o : Option ℕ) (a : Option A) (msg : M) (uid cid u : ℕ) (m : Manager M L S A)
      → uid == u ≡ false
      → has u (build o a msg uid cid m).1.agents ≡ has u m.agents
  unfolding build construct install associate
  has-build (some _) a msg uid cid u m ne = refl
  has-build none none msg uid cid u m ne = refl
  has-build none (some a) msg uid cid u m ne = ground (arith, has-put uid u a m.agents)

  has-create_agent :
      (c : Config) (t : Attempt M A) (uid cid u : ℕ) (m : Manager M L S A)
      → uid == u ≡ false
      → has u (create_agent c t uid cid m).1.agents ≡ has u m.agents
  unfolding create_agent
  has-create_agent c t uid cid u m ne =
      let Same = λ (r : Result ℕ × Manager M L S A). has u r.1.agents ≡ has u m.agents in
      if_both Same t.model_parses _ _
        (if_both Same t.authenticates _ _
          (if_both Same t.model_exists _ _
            (has-build c.sandbox_log_path t.agent t.create_message uid cid u m ne) refl)
          refl)
        refl

module _ {M L S A : Type 0} (v : AgentView A) where
  -- The ownership invariant, but for the uids being drained, and nothing waiting that is there.
  abbrev pub IsTidy : World M L S A → Type 0
  IsTidy w = IsOwned w.draining w.manager × AreGone w.waiting w.manager

  -- However the stretches of cleanups up to and after their first await, the creations of agents
  -- under new uids, and the registering and deregistering of sessions follow one another, the
  -- ownership invariant holds between any two of them, where only uids that are still to be drained
  -- may be without a session; and an agent whose cleanup waits is never there.
  pub Steps-IsTidy : {w w' : World M L S A} → Steps v w w' → IsTidy w → IsTidy w'
  unfolding member
  Steps-IsTidy (stop w) h = h
  Steps-IsTidy (registers cid {w} ne rest) (h, g) = Steps-IsTidy rest (
    register_session-IsOwned cid w.manager ne h,
    λ u k. rw (agents-register cid w.manager) (g u k),
  )
  Steps-IsTidy (creates c t uid cid {w} ne fresh free new rest) (h, g) = Steps-IsTidy rest (
    create_agent-IsOwned_pending c t uid cid w.manager ne fresh free h,
    λ u k. has-create_agent c t uid cid u w.manager (differs uid u w.waiting new k) ∙ g u k,
  )
  Steps-IsTidy (deregisters cid s {w} e rest) (h, g) =
      Steps-IsTidy rest (erased-IsOwned cid s w.manager e h, g)
  Steps-IsTidy (begins uid a {w} e rest) (h, g) = Steps-IsTidy rest (
    released-IsOwned v uid a w.manager h,
    unfold release in λ u k. ground (arith, has-erase uid u w.manager.agents, g u),
  )
  Steps-IsTidy (skips uid {w} e rest) (h, g) =
      Steps-IsTidy rest (skipped-IsOwned uid w.manager e h, g)
  Steps-IsTidy (resumes uid {w} k rest) (h, g) = Steps-IsTidy rest (
    untrack-IsOwned uid w.manager (g uid k) h,
    λ u l. ap (has u) (agents-untrack v uid w.manager) ∙ g u (still uid u w.waiting l),
  )
