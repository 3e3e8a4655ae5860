-- ===== src/Sessions/Spans.antt =====
-- The constructor and the invocation spans of
-- `src/server_session_manager/server_session_manager.py`.
use agentica_server.Base.{
  ℕ, ◌≡◌, refl, ap, ◌∙◌, true, ◌&&◌, Option, none, some, List, [], ◌∷◌, arith, ◌==◌, if◌then◌else◌,
  get, has, Option-cases, inl, inr, has-get,
}
use agentica_server.Base.Int.{pos}
use agentica_server.Messages.Holder
use agentica_server.Sessions.{
  Manager, AgentView, drop_spans, release, untrack, cleanup_agent, destroy_agent,
}
use agentica_server.Sessions.Cleanup.{untrack-none, untrack-some, cleanup_some}

module _ {S : Type 0} where
  -- spans.get((uid, iid))
  unfoldable pub get_span : ℕ → ℕ → List ((ℕ × ℕ) × S) → Option S
  get_span uid iid [] = none
  get_span uid iid (((u, i), s) ∷ rest) =
      if u == uid && i == iid then some s else get_span uid iid rest

  -- spans[(uid, iid)] = span
  unfoldable pub put_span : ℕ → ℕ → S → List ((ℕ × ℕ) × S) → List ((ℕ × ℕ) × S)
  put_span uid iid span [] = ((uid, iid), span) ∷ []
  put_span uid iid span (((u, i), s) ∷ rest) =
      if u == uid && i == iid
      then ((u, i), span) ∷ rest
      else ((u, i), s) ∷ put_span uid iid span rest

  get_span-put_span :
      (uid iid u i : ℕ) (span : S) (spans : List ((ℕ × ℕ) × S))
      → get_span u i (put_span uid iid span spans)
        ≡ (if uid == u && iid == i then some span else get_span u i spans)
  unfolding get_span put_span
  get_span-put_span uid iid u i span [] = refl
  get_span-put_span uid iid u i span (((v, k), s) ∷ rest) =
      ground (arith, get_span-put_span uid iid u i span rest)

  get_span-drop_spans :
      (uid u i : ℕ) (spans : List ((ℕ × ℕ) × S))
      → get_span u i (drop_spans uid spans) ≡ (if uid == u then none else get_span u i spans)
  unfolding get_span drop_spans
  get_span-drop_spans uid u i [] = ground arith
  get_span-drop_spans uid u i (((v, k), s) ∷ rest) =
      ground (arith, get_span-drop_spans uid u i rest)

module _ {M L S A : Type 0} where
  abbrev pub init : Manager M L S A
  init = record {
    agents = [];
    logs = Holder.init;
    concurrent_invocations = pos 0;
    sessions = [];
    uid_to_cid = [];
    iid_spans = [];
  }

  -- A missing span is falsy.
  unfoldable pub register_invocation_span : ℕ → ℕ → Option S → Manager M L S A → Manager M L S A
  unfolding put_span
  register_invocation_span uid iid none m = m
  register_invocation_span uid iid (some span) m = record m {
    iid_spans = put_span uid iid span m.iid_spans;
  }

  unfoldable pub get_invocation_span : ℕ → ℕ → Manager M L S A → Option S
  unfolding get_span
  get_invocation_span uid iid m = get_span uid iid m.iid_spans

  spans-untrack : (uid : ℕ) (m : Manager M L S A) → (untrack uid m).iid_spans ≡ m.iid_spans
  spans-untrack uid m = elim (Option-cases (get uid m.uid_to_cid)) [
    | inl e ↦ rw (untrack-none uid m e) refl
    | inr (cid, e) ↦ rw (untrack-some uid cid m e) refl
  ]

  spans-cleanup :
      (v : AgentView A) (uid : ℕ) (m : Manager M L S A)
      → has uid m.agents ≡ true
      → (cleanup_agent v uid m).1.iid_spans ≡ drop_spans uid m.iid_spans
  spans-cleanup v uid m known = elim (Option-cases (get uid m.agents)) [
    | inl e ↦ absurd (ground (arith, has-get uid m.agents))
    | inr (a, e) ↦
        rw (cleanup_some v uid a m e)
          (spans-untrack uid (release v uid a m).1 ∙ (unfold release in refl))
  ]

  -- A registered span is found under its uid and iid and under no other; destroying the agent makes
  -- exactly the spans of its own invocations disappear.
  pub get_invocation_span_lem :
      (v : AgentView A) (uid iid u i : ℕ) (span : S) (m : Manager M L S A)
      → (get_invocation_span u i (register_invocation_span uid iid (some span) m)
          ≡ (if uid == u && iid == i then some span else get_invocation_span u i m))
        × (has uid m.agents ≡ true
            → get_invocation_span u i (destroy_agent v uid m).1
              ≡ (if uid == u then none else get_invocation_span u i m))
  unfolding get_invocation_span register_invocation_span
  get_invocation_span_lem v uid iid u i span m = (
    get_span-put_span uid iid u i span m.iid_spans,
    λ known.
        unfold destroy_agent in
        rw known (
          ap (get_span u i) (spans-cleanup v uid m known)
          ∙ get_span-drop_spans uid u i m.iid_spans),
  )
