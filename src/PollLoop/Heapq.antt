-- ===== src/PollLoop/Heapq.antt =====
-- What `src/sandbox/guest/poll_loop.py` relies on of `heapq`: a pushed entry is kept, and a pop takes
-- out an entry with the smallest time. Which of several such entries is left open.
use agentica_server.Base.{
  ℕ, ◌+◌, ◌≤◌, ◌≡◌, refl, sym, subst, Bool, true, false, Option, none, some, List, [], ◌∷◌, ltb,
  arith, if◌then◌else◌, Bool-cases, inl, inr,
}

-- A callback and the time it is due.
abbrev pub Entry : Type 0
Entry = ℕ × ℕ

abbrev pub one_if : Bool → ℕ
one_if b = if b then 1 else 0

abbrev pub count {ℓ} : {A : Type ℓ} → (A → Bool) → List A → ℕ
count p [] = 0
count p (x ∷ xs) = one_if (p x) + count p xs

pub record Heap (Q : Type 0) : Type 0 where
  pub empty : Q
  pub heappush : Entry → Q → Q
  pub heappop : Q → Option (Entry × Q)
  pub entries : Q → List Entry
  pub entries-empty : entries empty ≡ []
  pub count-heappush :
      (p : Entry → Bool) (e : Entry) (q : Q)
      → count p (entries (heappush e q)) ≡ one_if (p e) + count p (entries q)
  pub heappop-none : (q : Q) → heappop q ≡ none → entries q ≡ []
  pub count-heappop :
      (p : Entry → Bool) (q q' : Q) (e : Entry)
      → heappop q ≡ some (e, q')
      → count p (entries q) ≡ one_if (p e) + count p (entries q')
  pub heappop_least :
      (q q' : Q) (e : Entry) → heappop q ≡ some (e, q') → count (λ x. ltb x.0 e.0) (entries q) ≡ 0

-- A list without order is a heap: a pop searches it.
abbrev pub pull : Entry → List Entry → Entry × List Entry
pull x [] = (x, [])
pull x (y ∷ ys) =
    if ltb y.0 x.0 then ((pull y ys).0, x ∷ (pull y ys).1) else ((pull x ys).0, y ∷ (pull x ys).1)

count-pull :
    (p : Entry → Bool) (x : Entry) (ys : List Entry)
    → one_if (p x) + count p ys ≡ one_if (p (pull x ys).0) + count p (pull x ys).1
count-pull p x [] = refl
count-pull p x (y ∷ ys) = elim (Bool-cases (ltb y.0 x.0)) [
  | inl e ↦ rw e (omega (arith, count-pull p y ys))
  | inr e ↦ rw e (omega (arith, count-pull p x ys))
]

pull_le : (x : Entry) (ys : List Entry) → (pull x ys).0.0 ≤ x.0
pull_le x [] = omega arith
pull_le x (y ∷ ys) = ground (arith, pull_le x ys, pull_le y ys)

pull-lt : (x y : Entry) (ys : List Entry) → ltb y.0 x.0 ≡ true → (pull x (y ∷ ys)).0 ≡ (pull y ys).0
pull-lt x y ys e = rw e refl

pull-ge :
    (x y : Entry) (ys : List Entry) → ltb y.0 x.0 ≡ false → (pull x (y ∷ ys)).0 ≡ (pull x ys).0
pull-ge x y ys e = rw e refl

count_cons :
    (x : Entry) (ys : List Entry) (m : ℕ)
    → m ≤ x.0
    → count (λ (z : Entry). ltb z.0 m) ys ≡ 0
    → count (λ (z : Entry). ltb z.0 m) (x ∷ ys) ≡ 0
count_cons x ys m l e = ground (arith, e)

count_uncons :
    (x : Entry) (ys : List Entry) (m : ℕ)
    → count (λ (z : Entry). ltb z.0 m) (x ∷ ys) ≡ 0
    → count (λ (z : Entry). ltb z.0 m) ys ≡ 0
count_uncons x ys m e = omega (arith, e)

-- No entry is earlier than the one that is pulled out.
IsLeast : Entry → List Entry → Type 0
IsLeast m xs = count (λ (z : Entry). ltb z.0 m.0) xs ≡ 0

pull-IsLeast : (x : Entry) (ys : List Entry) → IsLeast (pull x ys).0 (x ∷ ys)
unfolding IsLeast
pull-IsLeast x [] = ground arith
pull-IsLeast x (y ∷ ys) = elim (Bool-cases (ltb y.0 x.0)) [
  | inl e ↦
      let q : (pull y ys).0.0 ≤ x.0 = ground (arith, e, pull_le y ys) in
      subst (λ m. IsLeast m (x ∷ y ∷ ys)) (sym (pull-lt x y ys e))
        (count_cons x (y ∷ ys) (pull y ys).0.0 q (pull-IsLeast y ys))
  | inr e ↦
      let q : (pull x ys).0.0 ≤ y.0 = ground (arith, e, pull_le x ys) in
      let rest = count_uncons x ys (pull x ys).0.0 (pull-IsLeast x ys) in
      subst (λ m. IsLeast m (x ∷ y ∷ ys)) (sym (pull-ge x y ys e))
        (count_cons x (y ∷ ys) (pull x ys).0.0 (pull_le x ys)
          (count_cons y ys (pull x ys).0.0 q rest))
]

abbrev pub pop_least : List Entry → Option (Entry × List Entry)
pop_least [] = none
pop_least (x ∷ xs) = some (pull x xs)

pub pop_least-none : (q : List Entry) → pop_least q ≡ none → q ≡ []
pop_least-none [] e = refl
pop_least-none (x ∷ xs) e = absurd (ground arith)

-- What holds of what a pop gives.
OnPop : (Entry → List Entry → Type 0) → Option (Entry × List Entry) → Type 0
OnPop P none = Unit
OnPop P (some (e, q)) = P e q

pub count-pop_least :
    (p : Entry → Bool) (q q' : List Entry) (e : Entry)
    → pop_least q ≡ some (e, q')
    → count p q ≡ one_if (p e) + count p q'
unfolding OnPop
count-pop_least p [] q' e h = absurd (ground arith)
count-pop_least p (x ∷ xs) q' e h =
    subst (OnPop (λ m r. count p (x ∷ xs) ≡ one_if (p m) + count p r)) h (count-pull p x xs)

pub pop_least_lem :
    (q q' : List Entry) (e : Entry)
    → pop_least q ≡ some (e, q')
    → count (λ (x : Entry). ltb x.0 e.0) q ≡ 0
unfolding OnPop IsLeast
pop_least_lem [] q' e h = refl
pop_least_lem (x ∷ xs) q' e h = subst (OnPop (λ m r. IsLeast m (x ∷ xs))) h (pull-IsLeast x xs)

unfoldable pub list_heap : Heap (List Entry)
list_heap = record {
  empty = [];
  heappush = λ e q. e ∷ q;
  heappop = pop_least;
  entries = λ q. q;
  entries-empty = refl;
  count-heappush = λ p e q. refl;
  heappop-none = pop_least-none;
  count-heappop = count-pop_least;
  heappop_least = pop_least_lem;
}
