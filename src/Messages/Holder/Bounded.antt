-- ===== src/Messages/Holder/Bounded.antt =====
-- `maxdefaultdict` and `deque(maxlen=…)` of `src/messages/holder.py`.
use agentica_server.Base.{
  ℕ, ◌-◌, none, some, List, [], ◌∷◌, ◌++◌, ltb, ◌==◌, if◌then◌else◌, length, take, drop, Dict, get,
  put, erase, keys,
}

module _ {ℓ} {A : Type ℓ} where
  -- The last n elements.
  unfoldable pub last_n : ℕ → List A → List A
  last_n n xs = drop (length xs - n) xs

  -- deque(maxlen=n).append: the oldest element falls out.
  unfoldable pub append_max : ℕ → A → List A → List A
  unfolding last_n
  append_max n x q = last_n n (q ++ x ∷ [])

  -- ks[:-n], which is empty for n = 0
  unfoldable pub all_but_last : ℕ → List A → List A
  all_but_last n ks = if n == 0 then [] else take (length ks - n) ks

module _ {ℓ} {V : Type ℓ} where
  -- for key in ks: del self[key]
  unfoldable pub delete_all : List ℕ → Dict V → Dict V
  delete_all [] d = d
  delete_all (k ∷ ks) d = delete_all ks (erase k d)

  -- maxdefaultdict._trim
  unfoldable pub trim : ℕ → Dict V → Dict V
  unfolding delete_all all_but_last
  trim maxlen d = if ltb (length d) maxlen then d else delete_all (all_but_last maxlen (keys d)) d

  -- maxdefaultdict.__setitem__
  unfoldable pub set_item : ℕ → ℕ → V → Dict V → Dict V
  unfolding trim
  set_item maxlen k v d = trim maxlen (put k v d)

  unfoldable pub put_all : List (ℕ × V) → Dict V → Dict V
  put_all [] d = d
  put_all ((k, v) ∷ kvs) d = put_all kvs (put k v d)

  -- maxdefaultdict.update
  unfoldable pub update : ℕ → List (ℕ × V) → Dict V → Dict V
  unfolding put_all trim
  update maxlen kvs d = trim maxlen (put_all kvs d)

  -- d[k], which `defaultdict.__missing__` fills in by `__setitem__`
  unfoldable pub get_item : ℕ → V → ℕ → Dict V → V × Dict V
  unfolding set_item
  get_item maxlen default k d = elim (get k d) [
    | none ↦ (default, set_item maxlen k default d)
    | some v ↦ (v, d)
  ]

  -- The effect on the dict of mutating the object that d[k] is.
  unfoldable pub adjust : ℕ → (V → V) → Dict V → Dict V
  adjust k f [] = []
  adjust k f ((j, v) ∷ d) = if j == k then (j, f v) ∷ d else (j, v) ∷ adjust k f d
