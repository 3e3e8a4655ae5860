-- ===== src/Sessions.antt =====
-- `src/server_session_manager/server_session_manager.py`: the sessions of the connected clients,
-- their agents, the shared count of invocations and the spans. Methods return what they return
-- first and the new manager last. Uids, iids and cids are numbers, 0 standing for the empty text.
mod Members
pub mod Slots
pub mod Ownership
pub mod Cleanup
pub mod Deregister
pub mod Interleaving
pub mod Spans
pub mod Socket
pub mod Tests
unfoldable pub use Members.*
use agentica_server.Base.{
  ℕ, zero, ◌≡◌, Bool, true, false, Option, none, some, List, [], ◌∷◌, ◌++◌, ◌&&◌, map, ◌==◌,
  if◌then◌else◌, Dict, get, has, put, erase, values,
}
use agentica_server.Base.Int.{ℤ, pos, ◌+ℤ◌, ◌-ℤ◌, ltb_ℤ}
use agentica_server.Messages.Holder.{Holder, add, get_by_key, remove_key, get_json_by_key}

-- `M` are log messages, `L` listeners, `S` spans and `A` agents.
pub record Manager (M L S A : Type 0) : Type 0 where
  pub agents : Dict A
  pub logs : Holder M L
  pub concurrent_invocations : ℤ
  pub sessions : Dict Session
  pub uid_to_cid : Dict ℕ
  pub iid_spans : List ((ℕ × ℕ) × S)

-- The constructor's arguments that the methods read; `sandbox_log_path` is `none` where it is missing
-- or empty.
pub record Config : Type 0 where
  pub max_concurrent_invocations : ℕ
  pub sandbox_log_path : Option ℕ

-- Calls of an agent's methods, in order.
pub data Call (A : Type 0) : Type 0 where
  cancel : ℕ → A → Call A
  close : A → Call A

-- What is raised to the caller.
pub data Error : Type 0 where
  bad_model unauthenticated value_error attribute_error agent_failed not_accepted : Error

pub data Result (A : Type 0) : Type 0 where
  ok : A → Result A
  err : Error → Result A

-- The answers that `create_agent` gets from `ProviderModel.parse`, from the inference endpoint and
-- from the constructor of `Agent`, and the record that it logs.
pub record Attempt (M A : Type 0) : Type 0 where
  pub model_parses : Bool
  pub authenticates : Bool
  pub model_exists : Bool
  pub agent : Option A
  pub create_message : M

-- An agent as `_cleanup_agent` sees it: `iid` is its attribute, `is_alive` what the weak reference
-- answers after the manager has dropped its own.
pub record AgentView (A : Type 0) : Type 0 where
  pub iid : A → ℕ
  pub is_alive : A → Bool

-- The key under which `server_notifier` logs.
abbrev pub server_uid : ℕ
server_uid = 1

module _ {S : Type 0} where
  -- {key: span for key in spans if key[0] != uid}
  unfoldable pub drop_spans : ℕ → List ((ℕ × ℕ) × S) → List ((ℕ × ℕ) × S)
  drop_spans uid [] = []
  drop_spans uid (((u, i), s) ∷ rest) =
      let kept = drop_spans uid rest in if u == uid then kept else ((u, i), s) ∷ kept

module _ {M L S A : Type 0} where
  unfoldable pub create_invocation : Config → Manager M L S A → Bool × Manager M L S A
  create_invocation c m =
      if ltb_ℤ m.concurrent_invocations (pos c.max_concurrent_invocations)
      then (true, record m { concurrent_invocations = m.concurrent_invocations +ℤ pos 1 })
      else (false, m)

  unfoldable pub destroy_invocation : Manager M L S A → Manager M L S A
  destroy_invocation m = record m { concurrent_invocations = m.concurrent_invocations -ℤ pos 1 }

  unfoldable pub has_session : ℕ → Manager M L S A → Bool
  has_session cid m = has cid m.sessions

  unfoldable pub has_agent : ℕ → Manager M L S A → Bool
  has_agent uid m = has uid m.agents

  unfoldable pub register_session : ℕ → Manager M L S A → Manager M L S A
  register_session cid m =
      if has cid m.sessions
      then m
      else record m { sessions = put cid (record { cid = cid; uids = [] }) m.sessions }

  -- From the lookup of the session to the entry of the reverse mapping.
  unfoldable pub associate : ℕ → ℕ → Manager M L S A → Manager M L S A
  unfolding session_or_new
  associate uid cid m = record m {
    sessions = put cid (add_agent uid (session_or_new cid m.sessions)) m.sessions;
    uid_to_cid = put uid cid m.uid_to_cid;
  }

  -- self._agents[uid] = ma, and the log record
  unfoldable pub install : ℕ → A → M → Manager M L S A → Manager M L S A
  install uid a msg m = record m {
    agents = put uid a m.agents;
    logs = (add server_uid msg m.logs).1;
  }

  -- The constructor of `Agent`, with its answer, and what follows it.
  unfoldable pub construct : Option A → M → ℕ → ℕ → Manager M L S A → Result ℕ × Manager M L S A
  unfolding install
  construct none msg uid cid m = (err agent_failed, m)
  construct (some a) msg uid cid m = (ok uid, install uid a msg m)

  -- From the session's lookup to the end, with the path for sandbox logs, for which the start of the
  -- session is read. The path only decides where the sandbox writes its log.
  unfoldable pub build :
      Option ℕ → Option A → M → ℕ → ℕ → Manager M L S A → Result ℕ × Manager M L S A
  unfolding associate construct
  build none a msg uid cid m = construct a msg uid cid (associate uid cid m)
  build (some _) a msg uid cid m =
      if has_attribute start_timestamp
      then construct a msg uid cid (associate uid cid m)
      else (err attribute_error, associate uid cid m)

  -- `uid` is what the id issuer returned.
  unfoldable pub create_agent :
      Config → Attempt M A → ℕ → ℕ → Manager M L S A → Result ℕ × Manager M L S A
  unfolding build
  create_agent c t uid cid m =
      if t.model_parses
      then if t.authenticates
        then if t.model_exists
          then build c.sandbox_log_path t.agent t.create_message uid cid m
          else (err bad_model, m)
        else (err unauthenticated, m)
      else (err bad_model, m)

module _ {M L S A : Type 0} where
  -- `_cleanup_agent` up to its first `await`: the calls of the agent's methods come first.
  unfoldable pub release : AgentView A → ℕ → A → Manager M L S A → List (Call A) × Manager M L S A
  unfolding drop_spans
  release v uid a m = (
    if v.is_alive a
        then if v.iid a == 0 then close a ∷ [] else cancel (v.iid a) a ∷ close a ∷ []
        else [],
    record m {
      logs = remove_key uid m.logs;
      iid_spans = drop_spans uid m.iid_spans;
      agents = erase uid m.agents;
    },
  )

  -- The rest of `_cleanup_agent`, less the diagnostics of garbage collection.
  unfoldable pub untrack : ℕ → Manager M L S A → Manager M L S A
  unfolding leave_session
  untrack uid m = elim (get uid m.uid_to_cid) [
    | none ↦ m
    | some cid ↦ record m {
      uid_to_cid = erase uid m.uid_to_cid;
      sessions = if cid == 0 then m.sessions else leave_session uid cid m.sessions;
    }
  ]

  -- The whole cleanup as one step; `Interleaving` has what may come at its first await.
  unfoldable pub cleanup_agent : AgentView A → ℕ → Manager M L S A → List (Call A) × Manager M L S A
  unfolding release untrack
  cleanup_agent v uid m = elim (get uid m.agents) [
    | none ↦ ([], m)
    | some a ↦ let (calls, m') = release v uid a m in (calls, untrack uid m')
  ]

  -- for uid in session.drain(): await self._cleanup_agent(uid)
  unfoldable pub cleanup_all :
      AgentView A → List ℕ → Manager M L S A → List (Call A) × Manager M L S A
  unfolding cleanup_agent
  cleanup_all v [] m = ([], m)
  cleanup_all v (uid ∷ uids) m =
      let (calls, m') = cleanup_agent v uid m in
      let (more, m'') = cleanup_all v uids m' in (calls ++ more, m'')

  unfoldable pub deregister_session :
      AgentView A → ℕ → Manager M L S A → List (Call A) × Manager M L S A
  unfolding cleanup_all
  deregister_session v cid m = elim (get cid m.sessions) [
    | none ↦ ([], m)
    | some s ↦ cleanup_all v s.uids (record m { sessions = erase cid m.sessions })
  ]

  unfoldable pub destroy_agent :
      AgentView A → ℕ → Manager M L S A → Result (List (Call A)) × Manager M L S A
  unfolding cleanup_agent
  destroy_agent v uid m =
      if has uid m.agents
      then (ok (cleanup_agent v uid m).0, (cleanup_agent v uid m).1)
      else (err value_error, m)

  -- ServerSessionManager.close
  unfoldable pub close_all : Manager M L S A → List (Call A) × Manager M L S A
  close_all m = (
    map close (values m.agents),
    record m { agents = []; iid_spans = []; sessions = []; uid_to_cid = [] },
  )
