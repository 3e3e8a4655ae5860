-- ===== src/PollLoop/Policy.antt =====
-- `PollLoopPolicy` of `src/sandbox/guest/poll_loop.py`: at most one loop. Loops are numbers, and a new
-- one is `fresh`.
use agentica_server.Base.{ℕ, ◌≡◌, refl, Option, none, some, ◌⊎◌, inl, inr, List, [], ◌∷◌, suc}

-- `next` is the number of the next loop that is made.
pub record Policy : Type 0 where
  pub loop : Option ℕ
  pub next : ℕ

pub data PolicyError : Type 0 where
  already_an_event_loop : PolicyError

unfoldable pub new_event_loop : Policy → (PolicyError ⊎ ℕ) × Policy
new_event_loop p = elim p.loop [
  | none ↦ (inr p.next, record p { loop = some p.next; next = suc p.next })
  | some l ↦ (inl already_an_event_loop, p)
]

unfoldable pub get_event_loop : Policy → (PolicyError ⊎ ℕ) × Policy
get_event_loop p = elim p.loop [
  | none ↦
      let (r, q) = new_event_loop p in
      elim r [ inl e ↦ (inl e, q) | inr l ↦ (inr l, record q { loop = some l }) ]
  | some l ↦ (inr l, p)
]

unfoldable pub set_event_loop : Option ℕ → Policy → Policy
set_event_loop l p = record p { loop = l }

pub data Call : Type 0 where
  gets news : Call

unfoldable pub call : Call → Policy → (PolicyError ⊎ ℕ) × Policy
call gets p = get_event_loop p
call news p = new_event_loop p

-- The loops that a sequence of calls returns.
unfoldable pub calls : List Call → Policy → List (PolicyError ⊎ ℕ) × Policy
calls [] p = ([], p)
calls (c ∷ cs) p = let (r, q) = call c p in let (rs, s) = calls cs q in (r ∷ rs, s)

-- Every result is the loop `l`, or the error of a second loop.
abbrev pub AllAre : ℕ → List (PolicyError ⊎ ℕ) → Type 0
AllAre l [] = Unit
AllAre l (inl e ∷ rs) = AllAre l rs
AllAre l (inr k ∷ rs) = (k ≡ l) × AllAre l rs

calls_after :
    (l : ℕ) (cs : List Call) (p : Policy)
    → p.loop ≡ some l
    → AllAre l (calls cs p).0 × ((calls cs p).1 ≡ p)
unfolding calls call get_event_loop new_event_loop
calls_after l [] p e = (tt, refl)
calls_after l (gets ∷ cs) p e =
    let (a, b) = calls_after l cs (record p { loop = some l }) refl in rw e ((refl, a), b)
calls_after l (news ∷ cs) p e =
    let (a, b) = calls_after l cs (record p { loop = some l }) refl in rw e (a, b)

-- From a policy without a loop, however its loop is asked for, there is at most one: every call that
-- returns a loop returns the same, and a first call makes it.
pub calls_one_loop :
    (c : Call) (cs : List Call) (p : Policy)
    → p.loop ≡ none
    → AllAre p.next (calls (c ∷ cs) p).0
      × ((calls (c ∷ cs) p).1 ≡ record p { loop = some p.next; next = suc p.next })
unfolding calls call get_event_loop new_event_loop
calls_one_loop gets cs p e =
    let (a, b) = calls_after p.next cs (record p { loop = some p.next; next = suc p.next }) refl in
    rw e ((refl, a), b)
calls_one_loop news cs p e =
    let (a, b) = calls_after p.next cs (record p { loop = some p.next; next = suc p.next }) refl in
    rw e ((refl, a), b)
