-- ===== src/Sessions/Deregister.antt =====
-- `deregister_session` and `destroy_agent` of
-- `src/server_session_manager/server_session_manager.py`: what is cleaned up, and what is not.
use agentica_server.Base.{
  ℕ, ◌≡◌, refl, ◌∙◌, true, false, none, some, List, [], ◌∷◌, arith, ◌==◌, if◌then◌else◌, get, has,
  erase, get-erase, has-erase, has-get, Option-cases, inl, inr,
}
use agentica_server.Sessions.{
  Manager, Session, AgentView, err, value_error, member, release, untrack, cleanup_agent,
  cleanup_all, deregister_session, destroy_agent,
}
use agentica_server.Sessions.Ownership.{IsOwned, lists, leave_none}
use agentica_server.Sessions.Cleanup.{
  untrack-none, untrack-some, cleanup_none, cleanup_some, cleanup_agent-IsOwned,
  cleanup_all-IsOwned,
}

module _ {M L S A : Type 0} (v : AgentView A) where
  pub agents-untrack : (uid : ℕ) (m : Manager M L S A) → (untrack uid m).agents ≡ m.agents
  agents-untrack uid m = elim (Option-cases (get uid m.uid_to_cid)) [
    | inl e ↦ rw (untrack-none uid m e)
    | inr (cid, e) ↦ rw (untrack-some uid cid m e)
  ]

  -- A cleanup takes away its own agent and no other.
  agents-cleanup :
      (uid u : ℕ) (m : Manager M L S A)
      → get u (cleanup_agent v uid m).1.agents ≡ (if uid == u then none else get u m.agents)
  agents-cleanup uid u m = elim (Option-cases (get uid m.agents)) [
    | inl e ↦ rw (cleanup_none v uid m e) (ground arith)
    | inr (a, e) ↦
        rw (cleanup_some v uid a m e) (
          rw (agents-untrack uid (release v uid a m).1)
            (unfold release in get-erase uid u m.agents))
  ]

  cids-untrack :
      (uid u c : ℕ) (m : Manager M L S A)
      → get u (untrack uid m).uid_to_cid ≡ some c
      → get u m.uid_to_cid ≡ some c
  cids-untrack uid u c m = elim (Option-cases (get uid m.uid_to_cid)) [
    | inl e ↦ rw (untrack-none uid m e) (λ h. h)
    | inr (cid, e) ↦ rw (untrack-some uid cid m e) (ground (arith, get-erase uid u m.uid_to_cid))
  ]

  cids-cleanup :
      (uid u c : ℕ) (m : Manager M L S A)
      → get u (cleanup_agent v uid m).1.uid_to_cid ≡ some c
      → get u m.uid_to_cid ≡ some c
  cids-cleanup uid u c m = elim (Option-cases (get uid m.agents)) [
    | inl e ↦ rw (cleanup_none v uid m e) (λ h. h)
    | inr (a, e) ↦
        rw (cleanup_some v uid a m e)
          (λ h. unfold release in cids-untrack uid u c (release v uid a m).1 h)
  ]

  -- With its session gone, a cleanup changes no session.
  sessions-untrack :
      (uid cid : ℕ) (m : Manager M L S A)
      → get cid m.sessions ≡ none
      → ((c : ℕ) → get uid m.uid_to_cid ≡ some c → c ≡ cid)
      → (untrack uid m).sessions ≡ m.sessions
  sessions-untrack uid cid m gone own = elim (Option-cases (get uid m.uid_to_cid)) [
    | inl e ↦ rw (untrack-none uid m e)
    | inr (c, e) ↦
        rw (untrack-some uid c m e)
          (rw (own c e) (rw (leave_none uid cid m.sessions gone) (ground arith)))
  ]

  sessions-cleanup :
      (uid cid : ℕ) (m : Manager M L S A)
      → get cid m.sessions ≡ none
      → ((c : ℕ) → get uid m.uid_to_cid ≡ some c → c ≡ cid)
      → (cleanup_agent v uid m).1.sessions ≡ m.sessions
  sessions-cleanup uid cid m gone own = elim (Option-cases (get uid m.agents)) [
    | inl e ↦ rw (cleanup_none v uid m e)
    | inr (a, e) ↦
        rw (cleanup_some v uid a m e)
          (unfold release in sessions-untrack uid cid (release v uid a m).1 gone own)
  ]

  agents-cleanup_all :
      (uids : List ℕ) (u : ℕ) (m : Manager M L S A)
      → get u (cleanup_all v uids m).1.agents ≡ (if member u uids then none else get u m.agents)
  unfolding cleanup_all member
  agents-cleanup_all [] u m = refl
  agents-cleanup_all (uid ∷ uids) u m =
      ground (arith, agents-cleanup_all uids u (cleanup_agent v uid m).1, agents-cleanup uid u m)

  sessions-cleanup_all :
      (uids : List ℕ) (cid : ℕ) (m : Manager M L S A)
      → get cid m.sessions ≡ none
      → ((u c : ℕ) → member u uids ≡ true → get u m.uid_to_cid ≡ some c → c ≡ cid)
      → (cleanup_all v uids m).1.sessions ≡ m.sessions
  unfolding cleanup_all member
  sessions-cleanup_all [] cid m gone own = refl
  sessions-cleanup_all (uid ∷ uids) cid m gone own =
      let same : (cleanup_agent v uid m).1.sessions ≡ m.sessions =
        sessions-cleanup uid cid m gone (λ c. own uid c (ground arith)) in
      sessions-cleanup_all uids cid (cleanup_agent v uid m).1 (rw same gone)
        (λ u c k g. own u c (ground arith) (cids-cleanup uid u c m g))
      ∙ same

module _ {M L S A : Type 0} (v : AgentView A) where
  without_session :
      (cid : ℕ) (s : Session) (m : Manager M L S A)
      → get cid m.sessions ≡ some s
      → IsOwned [] m
      → IsOwned s.uids (record m { sessions = erase cid m.sessions })
  unfolding lists member
  without_session cid s m e h = record {
    tracked = λ u c l. ground (arith, get-erase cid c m.sessions, h.tracked u c);
    owned = λ u c b g. ground (arith, get-erase cid c m.sessions, h.owned u c b g);
    mapped = h.mapped;
    named = ground (arith, has-erase cid 0 m.sessions, h.named);
  }

  deregister_none :
      (cid : ℕ) (m : Manager M L S A)
      → get cid m.sessions ≡ none
      → deregister_session v cid m ≡ ([], m)
  unfolding deregister_session
  deregister_none cid m e = rw (e, deregister_session)

  deregister_some :
      (cid : ℕ) (s : Session) (m : Manager M L S A)
      → get cid m.sessions ≡ some s
      → deregister_session v cid m
        ≡ cleanup_all v s.uids (record m { sessions = erase cid m.sessions })
  unfolding deregister_session
  deregister_some cid s m e = rw (e, deregister_session)

  pub deregister_session-IsOwned :
      (cid : ℕ) (m : Manager M L S A) → IsOwned [] m → IsOwned [] (deregister_session v cid m).1
  deregister_session-IsOwned cid m h = elim (Option-cases (get cid m.sessions)) [
    | inl e ↦ rw (deregister_none cid m e) h
    | inr (s, e) ↦ rw (deregister_some cid s m e) (
        cleanup_all-IsOwned v s.uids (record m { sessions = erase cid m.sessions })
          (without_session cid s m e h))
  ]

  deregister-sessions :
      (cid c : ℕ) (m : Manager M L S A)
      → IsOwned [] m
      → get c (deregister_session v cid m).1.sessions
        ≡ (if cid == c then none else get c m.sessions)
  unfolding lists
  deregister-sessions cid c m h = elim (Option-cases (get cid m.sessions)) [
    | inl e ↦ rw (deregister_none cid m e) (ground arith)
    | inr (s, e) ↦ rw (deregister_some cid s m e) (
        rw
          (sessions-cleanup_all v s.uids cid (record m { sessions = erase cid m.sessions })
            (ground (arith, get-erase cid cid m.sessions))
            (λ u k l g. ground (arith, h.tracked u cid)))
          (get-erase cid c m.sessions))
  ]

  deregister-agents :
      (cid u c : ℕ) (m : Manager M L S A)
      → IsOwned [] m
      → get u m.uid_to_cid ≡ some c
      → get u (deregister_session v cid m).1.agents ≡ (if cid == c then none else get u m.agents)
  unfolding lists member
  deregister-agents cid u c m h g = elim (Option-cases (get cid m.sessions)) [
    | inl e ↦ rw (deregister_none cid m e) (ground (arith, h.owned u c, has-get u m.agents))
    | inr (s, e) ↦ rw (deregister_some cid s m e) (
        ground (
          arith,
          agents-cleanup_all v s.uids u (record m { sessions = erase cid m.sessions }),
          h.tracked u cid,
          h.owned u c,
          has-get u m.agents,
        ))
  ]

  -- Deregistering a session keeps the ownership invariant, removes the session and every agent that
  -- it owns, and leaves every other session, with its uids, and every agent of another session.
  pub deregister_session_exact :
      (cid : ℕ) (m : Manager M L S A)
      → IsOwned [] m
      → IsOwned [] (deregister_session v cid m).1
        × ((c : ℕ)
            → get c (deregister_session v cid m).1.sessions
              ≡ (if cid == c then none else get c m.sessions))
        × ((u c : ℕ)
            → get u m.uid_to_cid ≡ some c
            → get u (deregister_session v cid m).1.agents
              ≡ (if cid == c then none else get u m.agents))
  deregister_session_exact cid m h = (
    deregister_session-IsOwned cid m h,
    (λ c. deregister-sessions cid c m h),
    (λ u c g. deregister-agents cid u c m h g),
  )

module _ {M L S A : Type 0} (v : AgentView A) where
  pending-IsOwned : (uid : ℕ) (m : Manager M L S A) → IsOwned [] m → IsOwned (uid ∷ []) m
  unfolding member
  pending-IsOwned uid m h = record {
    tracked = h.tracked;
    owned = λ u c b g. ground (arith, h.owned u c b g);
    mapped = h.mapped;
    named = h.named;
  }

  cids-cleanup_self :
      (uid : ℕ) (a : A) (m : Manager M L S A)
      → get uid m.agents ≡ some a
      → get uid (cleanup_agent v uid m).1.uid_to_cid ≡ none
  cids-cleanup_self uid a m e =
      rw (cleanup_some v uid a m e) (elim (Option-cases (get uid m.uid_to_cid)) [
        | inl g ↦ unfold release in rw (untrack-none uid (release v uid a m).1 g) g
        | inr (c, g) ↦
            unfold release in
            rw (untrack-some uid c (release v uid a m).1 g)
              (ground (arith, get-erase uid uid m.uid_to_cid))
      ])

  -- `destroy_agent` raises exactly for a uid without an agent, and then changes nothing. Otherwise
  -- it keeps the ownership invariant, the agent is gone, no session lists it any more and every
  -- other agent is as before.
  pub destroy_agent_exact :
      (uid : ℕ) (m : Manager M L S A)
      → IsOwned [] m
      → (has uid m.agents ≡ false → destroy_agent v uid m ≡ (err value_error, m))
        × (has uid m.agents ≡ true
            → IsOwned [] (destroy_agent v uid m).1
              × ((u : ℕ)
                  → get u (destroy_agent v uid m).1.agents
                    ≡ (if uid == u then none else get u m.agents))
              × ((c : ℕ) → lists uid c (destroy_agent v uid m).1.sessions ≡ false))
  unfolding destroy_agent
  destroy_agent_exact uid m h = (
    (λ e. rw e),
    (λ e.
        let kept : IsOwned [] (cleanup_agent v uid m).1 =
          cleanup_agent-IsOwned v uid m (pending-IsOwned uid m h) in
        rw e (
          kept,
          (λ u. agents-cleanup v uid u m),
          (λ c. elim (Option-cases (get uid m.agents)) [
            | inl g ↦ absurd (ground (arith, has-get uid m.agents))
            | inr (a, g) ↦ ground (arith, kept.tracked uid c, cids-cleanup_self uid a m g)
          ]),
        )),
  )
