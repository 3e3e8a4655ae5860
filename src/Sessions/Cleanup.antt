-- ===== src/Sessions/Cleanup.antt =====
-- `_cleanup_agent`, `deregister_session` and `destroy_agent` of
-- `src/server_session_manager/server_session_manager.py`.
use agentica_server.Base.{
  ℕ, ◌≡◌, false, none, some, List, [], ◌∷◌, arith, ◌==◌, if◌then◌else◌, Dict, get, has, erase,
  get-erase, has-erase, has-get, Option-cases, inl, inr,
}
use agentica_server.Sessions.{
  Manager, Session, AgentView, member, leave_session, release, untrack, cleanup_agent, cleanup_all,
}
use agentica_server.Sessions.Ownership.{IsOwned, lists, lists-leave, has-leave}

lists→has : (u c : ℕ) (d : Dict Session) → has c d ≡ false → lists u c d ≡ false
unfolding lists
lists→has u c d h = ground (arith, has-get c d)

module _ {M L S A : Type 0} where
  pub untrack-none :
      (uid : ℕ) (m : Manager M L S A) → get uid m.uid_to_cid ≡ none → untrack uid m ≡ m
  unfolding untrack
  untrack-none uid m e = rw (e, untrack)

  pub untrack-some :
      (uid cid : ℕ) (m : Manager M L S A)
      → get uid m.uid_to_cid ≡ some cid
      → untrack uid m ≡ record m {
        uid_to_cid = erase uid m.uid_to_cid;
        sessions = if cid == 0 then m.sessions else leave_session uid cid m.sessions;
      }
  unfolding untrack
  untrack-some uid cid m e = rw (e, untrack)

  -- After the first half the agent is gone and nothing is pending for it.
  release-IsOwned :
      (v : AgentView A) (uid : ℕ) (a : A) {p : List ℕ} (m : Manager M L S A)
      → IsOwned (uid ∷ p) m
      → IsOwned p (release v uid a m).1
  unfolding release member
  release-IsOwned v uid a {p} m h = record {
    tracked = h.tracked;
    owned = λ u c b e. ground (arith, has-erase uid u m.agents, h.owned u c);
    mapped = λ u b. ground (arith, has-erase uid u m.agents, h.mapped u);
    named = h.named;
  }

  pub untrack-IsOwned :
      (uid : ℕ) {p : List ℕ} (m : Manager M L S A)
      → has uid m.agents ≡ false
      → IsOwned p m
      → IsOwned p (untrack uid m)
  untrack-IsOwned uid {p} m gone h = elim (Option-cases (get uid m.uid_to_cid)) [
    | inl e ↦ rw (untrack-none uid m e) h
    | inr (cid, e) ↦ rw (untrack-some uid cid m e) (record {
      tracked = λ u c l. ground (
        arith,
        lists-leave u c uid cid m.sessions,
        get-erase uid u m.uid_to_cid,
        h.tracked u c,
        lists→has u 0 m.sessions h.named,
      );
      owned = λ u c b g.
          ground
            (arith, lists-leave u c uid cid m.sessions, get-erase uid u m.uid_to_cid, h.owned u c);
      mapped = λ u b. ground (arith, has-erase uid u m.uid_to_cid, h.mapped u);
      named = ground (arith, has-leave 0 uid cid m.sessions h.named, h.named);
    })
  ]

  pub cleanup_none :
      (v : AgentView A) (uid : ℕ) (m : Manager M L S A)
      → get uid m.agents ≡ none
      → cleanup_agent v uid m ≡ ([], m)
  unfolding cleanup_agent
  cleanup_none v uid m e = rw (e, cleanup_agent)

  pub cleanup_some :
      (v : AgentView A) (uid : ℕ) (a : A) (m : Manager M L S A)
      → get uid m.agents ≡ some a
      → cleanup_agent v uid m ≡ ((release v uid a m).0, untrack uid (release v uid a m).1)
  unfolding cleanup_agent
  cleanup_some v uid a m e = rw (e, cleanup_agent)

  -- An absent agent is pending for nothing.
  no_agent-IsOwned :
      (uid : ℕ) {p : List ℕ} (m : Manager M L S A)
      → get uid m.agents ≡ none
      → IsOwned (uid ∷ p) m
      → IsOwned p m
  unfolding member
  no_agent-IsOwned uid {p} m e h = record {
    tracked = h.tracked;
    owned = λ u c b g. ground (arith, h.owned u c, has-get u m.agents);
    mapped = h.mapped;
    named = h.named;
  }

  pub cleanup_agent-IsOwned :
      (v : AgentView A) (uid : ℕ) {p : List ℕ} (m : Manager M L S A)
      → IsOwned (uid ∷ p) m
      → IsOwned p (cleanup_agent v uid m).1
  cleanup_agent-IsOwned v uid {p} m h = elim (Option-cases (get uid m.agents)) [
    | inl e ↦ rw (cleanup_none v uid m e) (no_agent-IsOwned uid m e h)
    | inr (a, e) ↦ rw (cleanup_some v uid a m e) (
        untrack-IsOwned uid (release v uid a m).1
          (unfold release in ground (arith, has-erase uid uid m.agents))
          (release-IsOwned v uid a m h))
  ]

  pub cleanup_all-IsOwned :
      (v : AgentView A) (uids : List ℕ) (m : Manager M L S A)
      → IsOwned uids m
      → IsOwned [] (cleanup_all v uids m).1
  unfolding cleanup_all
  cleanup_all-IsOwned v [] m h = h
  cleanup_all-IsOwned v (uid ∷ uids) m h =
      cleanup_all-IsOwned v uids (cleanup_agent v uid m).1 (cleanup_agent-IsOwned v uid m h)
