-- ===== src/Sessions/Ownership.antt =====
-- Which session owns which agent: the invariant between `_agents`, `_sessions` and `_uid_to_cid` of
-- `src/server_session_manager/server_session_manager.py`.
use agentica_server.Base.{
  ℕ, ◌≡◌, ◌≢◌, ◌∙◌, sym, Bool, true, false, ◌||◌, Option, none, some, List, [], arith, ◌==◌,
  if◌then◌else◌, Dict, get, has, put, erase, get-put, get-erase, has-put, has-erase, has-get,
  Bool-cases, Option-cases, inl, inr, if_both,
}
use agentica_server.Sessions.{
  Manager, Session, Config, Attempt, member, add_agent, remove_agent, is_empty, member-add_agent,
  member-discard, session_or_new, leave_session, register_session, associate, install, Result,
  build, create_agent,
}

-- The session `c` lists the uid `u`.
unfoldable pub lists : ℕ → ℕ → Dict Session → Bool
lists u c d = elim (get c d) [ none ↦ false | some s ↦ member u s.uids ]

empty-member : (s : Session) (u : ℕ) → is_empty s ≡ true → member u s.uids ≡ false
unfolding is_empty member
empty-member s u h = ground arith

lists-register :
    (u c k : ℕ) (d : Dict Session)
    → has k d ≡ false
    → lists u c (put k (record { cid = k; uids = [] }) d) ≡ lists u c d
unfolding lists member
lists-register u c k d h =
    ground (arith, get-put k c (record { cid = k; uids = [] }) d, has-get k d)

pub lists-associate :
    (u c uid k : ℕ) (d : Dict Session)
    → lists u c (put k (add_agent uid (session_or_new k d)) d)
      ≡ (if k == c then (if uid == u then true else lists u c d) else lists u c d)
unfolding lists session_or_new member
lists-associate u c uid k d = ground (
  arith,
  get-put k c (add_agent uid (session_or_new k d)) d,
  member-add_agent uid u (session_or_new k d),
)

pub leave_none : (uid k : ℕ) (d : Dict Session) → get k d ≡ none → leave_session uid k d ≡ d
unfolding leave_session
leave_none uid k d e = rw (e, leave_session)

leave_some :
    (uid k : ℕ) (s : Session) (d : Dict Session)
    → get k d ≡ some s
    → leave_session uid k d
      ≡ (if is_empty (remove_agent uid s) then erase k d else put k (remove_agent uid s) d)
unfolding leave_session
leave_some uid k s d e = rw (e, leave_session)

pub lists-leave :
    (u c uid k : ℕ) (d : Dict Session)
    → lists u c (leave_session uid k d)
      ≡ (if k == c then (if uid == u then false else lists u c d) else lists u c d)
unfolding lists remove_agent
lists-leave u c uid k d = elim (Option-cases (get k d)) [
  | inl e ↦ rw (leave_none uid k d e) (ground arith)
  | inr (s, e) ↦ ground (
    arith,
    leave_some uid k s d e,
    get-erase k c d,
    get-put k c (remove_agent uid s) d,
    member-discard uid u s.uids,
    empty-member (remove_agent uid s) u,
  )
]

pub has-leave :
    (c uid k : ℕ) (d : Dict Session) → has c d ≡ false → has c (leave_session uid k d) ≡ false
has-leave c uid k d h = elim (Option-cases (get k d)) [
  | inl e ↦ rw (leave_none uid k d e) h
  | inr (s, e) ↦ ground (
    arith,
    leave_some uid k s d e,
    has-erase k c d,
    has-put k c (remove_agent uid s) d,
    has-get c d,
  )
]

module _ {M L S A : Type 0} where
  -- Every listed uid is mapped to the session that lists it, every agent is mapped to a session
  -- that lists it, unless its uid is among the `pending` ones, and no session has an empty cid.
  pub record IsOwned (pending : List ℕ) (m : Manager M L S A) : Type 0 where
    pub tracked : (u c : ℕ) → lists u c m.sessions ≡ true → get u m.uid_to_cid ≡ some c
    pub owned :
        (u c : ℕ)
        → has u m.agents ≡ true
        → get u m.uid_to_cid ≡ some c
        → (lists u c m.sessions || member u pending) ≡ true
    pub mapped : (u : ℕ) → has u m.agents ≡ true → has u m.uid_to_cid ≡ true
    pub named : has 0 m.sessions ≡ false

  pub register_session-IsOwned :
      (cid : ℕ) {p : List ℕ} (m : Manager M L S A)
      → cid ≢ 0
      → IsOwned p m
      → IsOwned p (register_session cid m)
  unfolding register_session
  register_session-IsOwned cid {p} m ne h = elim (Bool-cases (has cid m.sessions)) [
    | inl e ↦ rw e h
    | inr e ↦ rw e (record {
      tracked = λ u c l. h.tracked u c (sym (lists-register u c cid m.sessions e) ∙ l);
      owned = λ u c a g. rw (lists-register u c cid m.sessions e) (h.owned u c a g);
      mapped = h.mapped;
      named = ground (arith, has-put cid 0 (record { cid = cid; uids = [] }) m.sessions, h.named);
    })
  ]

  associate-IsOwned :
      (uid cid : ℕ) {p : List ℕ} (m : Manager M L S A)
      → cid ≢ 0
      → has uid m.agents ≡ false
      → get uid m.uid_to_cid ≡ none
      → IsOwned p m
      → IsOwned p (associate uid cid m)
  unfolding associate
  associate-IsOwned uid cid {p} m ne fresh free h = record {
    tracked = λ u c l. ground (
      arith,
      lists-associate u c uid cid m.sessions,
      get-put uid u cid m.uid_to_cid,
      h.tracked u c,
    );
    owned = λ u c a g. ground (
      arith,
      lists-associate u c uid cid m.sessions,
      get-put uid u cid m.uid_to_cid,
      h.owned u c,
    );
    mapped = λ u a. ground (arith, has-put uid u cid m.uid_to_cid, h.mapped u);
    named =
        ground (
          arith,
          has-put cid 0 (add_agent uid (session_or_new cid m.sessions)) m.sessions,
          h.named,
        );
  }

  install-IsOwned :
      (uid cid : ℕ) (a : A) (msg : M) {p : List ℕ} (m : Manager M L S A)
      → get uid m.uid_to_cid ≡ some cid
      → lists uid cid m.sessions ≡ true
      → IsOwned p m
      → IsOwned p (install uid a msg m)
  unfolding install
  install-IsOwned uid cid a msg {p} m g l h = record {
    tracked = h.tracked;
    owned = λ u c b e. ground (arith, has-put uid u a m.agents, h.owned u c);
    mapped = λ u b. ground (arith, has-put uid u a m.agents, h.mapped u, has-get uid m.uid_to_cid);
    named = h.named;
  }

  abbrev Ends : List ℕ → Result ℕ × Manager M L S A → Type 0
  Ends p r = IsOwned p r.1

  build-IsOwned :
      (o : Option ℕ) (a : Option A) (msg : M) (uid cid : ℕ) {p : List ℕ} (m : Manager M L S A)
      → cid ≢ 0
      → has uid m.agents ≡ false
      → get uid m.uid_to_cid ≡ none
      → IsOwned p m
      → Ends p (build o a msg uid cid m)
  unfolding build
  build-IsOwned (some _) a msg uid cid {p} m ne fresh free h =
      associate-IsOwned uid cid m ne fresh free h
  build-IsOwned none none msg uid cid {p} m ne fresh free h =
      associate-IsOwned uid cid m ne fresh free h
  build-IsOwned none (some a) msg uid cid {p} m ne fresh free h =
      install-IsOwned uid cid a msg (associate uid cid m)
        (unfold associate in ground (arith, get-put uid uid cid m.uid_to_cid))
        (unfold associate in ground (arith, lists-associate uid cid uid cid m.sessions))
        (associate-IsOwned uid cid m ne fresh free h)

  pub create_agent-IsOwned_pending :
      (c : Config) (t : Attempt M A) (uid cid : ℕ) {p : List ℕ} (m : Manager M L S A)
      → cid ≢ 0
      → has uid m.agents ≡ false
      → get uid m.uid_to_cid ≡ none
      → IsOwned p m
      → IsOwned p (create_agent c t uid cid m).1
  unfolding create_agent
  create_agent-IsOwned_pending c t uid cid {p} m ne fresh free h =
      if_both (Ends p) t.model_parses _ _
        (if_both (Ends p) t.authenticates _ _
          (if_both (Ends p) t.model_exists _ _
            (build-IsOwned c.sandbox_log_path t.agent t.create_message uid cid m ne fresh free h) h)
          h)
        h

  -- Whichever way `create_agent` ends, an error of the model, of the endpoint or of the constructor
  -- included, it keeps the ownership invariant, for a uid that is new and a cid that is not empty.
  pub create_agent-IsOwned :
      (c : Config) (t : Attempt M A) (uid cid : ℕ) (m : Manager M L S A)
      → cid ≢ 0
      → has uid m.agents ≡ false
      → get uid m.uid_to_cid ≡ none
      → IsOwned [] m
      → IsOwned [] (create_agent c t uid cid m).1
  create_agent-IsOwned c t uid cid m ne fresh free h =
      create_agent-IsOwned_pending c t uid cid m ne fresh free h
