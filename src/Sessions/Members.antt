-- ===== src/Sessions/Members.antt =====
-- `class Session` of `src/server_session_manager/server_session_manager.py`. A set of uids is a list
-- in which no uid stands twice; its order is not part of the set.
use agentica_server.Base.{
  ℕ, Bool, true, false, List, [], ◌∷◌, ◌==◌, if◌then◌else◌, ◌≡◌, arith, none, some, Dict, get, put,
  erase,
}

pub record Session : Type 0 where
  pub cid : ℕ
  pub uids : List ℕ

-- What the code reads of a session, and whether the class has such an attribute.
pub data Attribute : Type 0 where
  cid_attribute uids_attribute start_timestamp : Attribute

abbrev pub has_attribute : Attribute → Bool
has_attribute cid_attribute = true
has_attribute uids_attribute = true
has_attribute start_timestamp = false

unfoldable pub member : ℕ → List ℕ → Bool
member u [] = false
member u (v ∷ vs) = if v == u then true else member u vs

unfoldable pub discard : ℕ → List ℕ → List ℕ
discard u [] = []
discard u (v ∷ vs) = let rest = discard u vs in if v == u then rest else v ∷ rest

unfoldable pub add_agent : ℕ → Session → Session
add_agent uid s = record s { uids = if member uid s.uids then s.uids else uid ∷ s.uids }

unfoldable pub remove_agent : ℕ → Session → Session
remove_agent uid s = record s { uids = discard uid s.uids }

unfoldable pub is_empty : Session → Bool
is_empty s = elim s.uids [ [] ↦ true | _ ∷ _ ↦ false ]

-- self._sessions.get(cid), with a new session where there is none
unfoldable pub session_or_new : ℕ → Dict Session → Session
session_or_new cid d = elim (get cid d) [ none ↦ record { cid = cid; uids = [] } | some s ↦ s ]

-- sessions.get(cid), and what follows of it
unfoldable pub leave_session : ℕ → ℕ → Dict Session → Dict Session
unfolding remove_agent is_empty
leave_session uid cid d = elim (get cid d) [
  | none ↦ d
  | some s ↦ if is_empty (remove_agent uid s) then erase cid d else put cid (remove_agent uid s) d
]

pub member-add_agent :
    (u v : ℕ) (s : Session)
    → member v (add_agent u s).uids ≡ (if u == v then true else member v s.uids)
unfolding add_agent member
member-add_agent u v s = ground arith

pub member-discard :
    (u v : ℕ) (vs : List ℕ) → member v (discard u vs) ≡ (if u == v then false else member v vs)
unfolding member discard
member-discard u v [] = ground arith
member-discard u v (w ∷ vs) = ground (arith, member-discard u v vs)
