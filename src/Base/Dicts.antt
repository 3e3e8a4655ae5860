-- ===== src/Base/Dicts.antt =====
-- Python's `dict` with keys that are only compared (uids, iids, cids), as a list of entries in
-- insertion order: writing an old key keeps its place, writing a new one appends it.
use Prim.Native.Nat.{ℕ, ◌+◌}
use mathlib.Core.Path.{◌≡◌, refl}
use mathlib.Core.List.{List, [], ◌∷◌}
use mathlib.Core.Bool.{Bool, true, false}
use mathlib.Core.Option.{Option, none, some}
use native.Mathlib.Omega.{arith}
use agentica_server.Base.Tests.{◌==◌, if◌then◌else◌}
use agentica_server.Base.Lists.{length}

abbrev pub Dict {ℓ} : Type ℓ → Type ℓ
Dict V = List (ℕ × V)

module _ {ℓ} {V : Type ℓ} where
  -- d.get(k)
  unfoldable pub get : ℕ → Dict V → Option V
  get k [] = none
  get k ((j, v) ∷ d) = if j == k then some v else get k d

  -- k in d
  unfoldable pub has : ℕ → Dict V → Bool
  has k [] = false
  has k ((j, v) ∷ d) = if j == k then true else has k d

  -- d[k] = v
  unfoldable pub put : ℕ → V → Dict V → Dict V
  put k v [] = (k, v) ∷ []
  put k v ((j, w) ∷ d) = if j == k then (j, v) ∷ d else (j, w) ∷ put k v d

  -- d.pop(k, None)
  unfoldable pub erase : ℕ → Dict V → Dict V
  erase k [] = []
  erase k ((j, w) ∷ d) = let rest = erase k d in if j == k then rest else (j, w) ∷ rest

  unfoldable pub keys : Dict V → List ℕ
  keys [] = []
  keys ((j, w) ∷ d) = j ∷ keys d

  unfoldable pub values : Dict V → List V
  values [] = []
  values ((j, w) ∷ d) = w ∷ values d

  pub get-put :
      (k j : ℕ) (v : V) (d : Dict V) → get j (put k v d) ≡ (if k == j then some v else get j d)
  unfolding get put
  get-put k j v [] = ground arith
  get-put k j v ((i, w) ∷ d) = ground (arith, get-put k j v d)

  pub get-erase : (k j : ℕ) (d : Dict V) → get j (erase k d) ≡ (if k == j then none else get j d)
  unfolding get erase
  get-erase k j [] = ground arith
  get-erase k j ((i, w) ∷ d) = ground (arith, get-erase k j d)

  pub has-get : (k : ℕ) (d : Dict V) → has k d ≡ elim (get k d) [ none ↦ false | some _ ↦ true ]
  unfolding has get
  has-get k [] = refl
  has-get k ((j, v) ∷ d) = ground (arith, has-get k d)

  pub has-put :
      (k j : ℕ) (v : V) (d : Dict V) → has j (put k v d) ≡ (if k == j then true else has j d)
  unfolding has put
  has-put k j v [] = ground arith
  has-put k j v ((i, w) ∷ d) = ground (arith, has-put k j v d)

  pub has-erase : (k j : ℕ) (d : Dict V) → has j (erase k d) ≡ (if k == j then false else has j d)
  unfolding has erase
  has-erase k j [] = ground arith
  has-erase k j ((i, w) ∷ d) = ground (arith, has-erase k j d)

  pub erase_absent : (k : ℕ) (d : Dict V) → has k d ≡ false → erase k d ≡ d
  unfolding has erase
  erase_absent k [] h = refl
  erase_absent k ((i, w) ∷ d) h = ground (arith, erase_absent k d)

  -- No key twice.
  abbrev pub IsUnique : Dict V → Type 0
  IsUnique [] = Unit {0}
  IsUnique ((j, v) ∷ d) = (has j d ≡ false) × IsUnique d

  pub put-IsUnique : (k : ℕ) (v : V) (d : Dict V) → IsUnique d → IsUnique (put k v d)
  unfolding has put
  put-IsUnique k v [] h = ground arith
  put-IsUnique k v ((i, w) ∷ d) h = ground (arith, put-IsUnique k v d h.1, has-put k i v d)

  pub erase-IsUnique : (k : ℕ) (d : Dict V) → IsUnique d → IsUnique (erase k d)
  unfolding has erase
  erase-IsUnique k [] h = tt
  erase-IsUnique k ((i, w) ∷ d) h = ground (arith, erase-IsUnique k d h.1, has-erase k i d)

  pub length-put :
      (k : ℕ) (v : V) (d : Dict V)
      → length (put k v d) ≡ (if has k d then length d else length d + 1)
  unfolding has put
  length-put k v [] = refl
  length-put k v ((i, w) ∷ d) = ground (arith, length-put k v d)

  pub length-erase :
      (k : ℕ) (d : Dict V)
      → IsUnique d
      → length d ≡ (if has k d then length (erase k d) + 1 else length (erase k d))
  unfolding has erase
  length-erase k [] h = refl
  length-erase k ((i, w) ∷ d) h = ground (arith, length-erase k d h.1, erase_absent k d)

pub ruleset dict_laws = (get-put, get-erase, has-put, has-erase)
