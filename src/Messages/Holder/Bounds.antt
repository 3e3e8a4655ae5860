-- ===== src/Messages/Holder/Bounds.antt =====
-- The bounds of `src/messages/holder.py`: what each operation keeps.
use agentica_server.Base.{
  ℕ, zero, suc, ◌+◌, ◌-◌, ◌≤◌, ◌<◌, ◌≡◌, refl, sym, ap, ◌∙◌, false, Option, none, some, List, [],
  ◌∷◌, ◌++◌, arith, ltb, ◌==◌, length, take, drop, length-append, length-drop, drop-drop,
  drop-append, Dict, get, has, put, erase, keys, IsUnique, erase_absent, length-erase, put-IsUnique,
  erase-IsUnique, Bool-cases, inl, inr,
}
use agentica_server.Messages.Holder.Bounded.{
  last_n, append_max, all_but_last, delete_all, trim, set_item, get_item, adjust,
}

module _ {ℓ} {A : Type ℓ} where
  pub length-last_n : (n : ℕ) (xs : List A) → length (last_n n xs) ≤ n
  unfolding last_n
  length-last_n n xs = omega (arith, length-drop (length xs - n) xs)

  pub last_n_short : (n : ℕ) (xs : List A) → length xs ≤ n → last_n n xs ≡ xs
  unfolding last_n
  last_n_short n xs h = ap (λ (k : ℕ). drop k xs) {x = length xs - n} {y = 0} (omega arith)

  drop_cong : (m n : ℕ) (xs : List A) → m ≡ n → drop m xs ≡ drop n xs
  drop_cong m n xs h = ap (λ (k : ℕ). drop k xs) h

  -- Keeping the last n at each step is keeping the last n at the end.
  pub append_max-last_n :
      (n : ℕ) (x : A) (xs : List A) → append_max n x (last_n n xs) ≡ last_n n (xs ++ x ∷ [])
  unfolding append_max last_n
  append_max-last_n n x xs =
      let a : ℕ = length xs - n in
      let e : drop a xs ++ x ∷ [] ≡ drop a (xs ++ x ∷ []) =
        sym (drop-append a xs (x ∷ []) (omega arith)) in
      rw e (
        drop-drop (length (drop a (xs ++ x ∷ [])) - n) a (xs ++ x ∷ [])
        ∙ drop_cong (a + (length (drop a (xs ++ x ∷ [])) - n)) (length (xs ++ x ∷ []) - n)
            (xs ++ x ∷ []) (omega (arith, length-drop a (xs ++ x ∷ []), length-append xs (x ∷ []))))

module _ {ℓ} {V : Type ℓ} where
  pub length-keys : (d : Dict V) → length (keys d) ≡ length d
  unfolding keys
  length-keys [] = refl
  length-keys ((j, v) ∷ d) = ap suc (length-keys d)

  -- Deleting the first n keys drops the first n entries.
  delete_all-take : (n : ℕ) (d : Dict V) → IsUnique d → delete_all (take n (keys d)) d ≡ drop n d
  unfolding delete_all keys erase
  delete_all-take zero d u = refl
  delete_all-take (suc n) [] u = refl
  delete_all-take (suc n) ((j, v) ∷ d) u = ground (arith, erase_absent j d, delete_all-take n d u.1)

  pub trim-eq-last_n : (n : ℕ) (d : Dict V) → 0 < n → IsUnique d → trim n d ≡ last_n n d
  unfolding trim all_but_last last_n
  trim-eq-last_n n d p u = elim (Bool-cases (ltb (length d) n)) [
    | inl short ↦ rw short (sym (drop_cong (length d - n) 0 d (ground arith)))
    | inr long ↦ rw long (ground (arith, length-keys d, delete_all-take (length d - n) d u))
  ]

module _ {ℓ} {V : Type ℓ} where
  pub has-drop : (n k : ℕ) (d : Dict V) → has k d ≡ false → has k (drop n d) ≡ false
  unfolding has
  has-drop zero k d h = h
  has-drop (suc n) k [] h = h
  has-drop (suc n) k ((j, v) ∷ d) h = has-drop n k d (ground arith)

  drop-IsUnique : (n : ℕ) (d : Dict V) → IsUnique d → IsUnique (drop n d)
  drop-IsUnique zero d u = u
  drop-IsUnique (suc n) [] u = u
  drop-IsUnique (suc n) ((j, v) ∷ d) u = drop-IsUnique n d u.1

  has-adjust : (j k : ℕ) (f : V → V) (d : Dict V) → has j (adjust k f d) ≡ has j d
  unfolding has adjust
  has-adjust j k f [] = refl
  has-adjust j k f ((i, v) ∷ d) = ground (arith, has-adjust j k f d)

  adjust-IsUnique : (k : ℕ) (f : V → V) (d : Dict V) → IsUnique d → IsUnique (adjust k f d)
  unfolding adjust
  adjust-IsUnique k f [] u = u
  adjust-IsUnique k f ((i, v) ∷ d) u = ground (arith, adjust-IsUnique k f d u.1, has-adjust i k f d)

  pub length-adjust : (k : ℕ) (f : V → V) (d : Dict V) → length (adjust k f d) ≡ length d
  unfolding adjust
  length-adjust k f [] = refl
  length-adjust k f ((i, v) ∷ d) = ground (arith, length-adjust k f d)

  -- Every value of the dict.
  abbrev pub AllValues {κ} : (V → Type κ) → Dict V → Type κ
  AllValues P [] = Unit
  AllValues P ((j, v) ∷ d) = P v × AllValues P d

  module _ {κ} (P : V → Type κ) where
    put-AllValues : (k : ℕ) (v : V) (d : Dict V) → P v → AllValues P d → AllValues P (put k v d)
    unfolding put
    put-AllValues k v [] p h = (p, tt)
    put-AllValues k v ((j, w) ∷ d) p h = elim (Bool-cases (j == k)) [
      | inl e ↦ rw e (p, h.1)
      | inr e ↦ rw e (h.0, put-AllValues k v d p h.1)
    ]

    drop-AllValues : (n : ℕ) (d : Dict V) → AllValues P d → AllValues P (drop n d)
    drop-AllValues zero d h = h
    drop-AllValues (suc n) [] h = h
    drop-AllValues (suc n) ((j, v) ∷ d) h = drop-AllValues n d h.1

    erase-AllValues : (k : ℕ) (d : Dict V) → AllValues P d → AllValues P (erase k d)
    unfolding erase
    erase-AllValues k [] h = h
    erase-AllValues k ((j, v) ∷ d) h = elim (Bool-cases (j == k)) [
      | inl e ↦ rw e (erase-AllValues k d h.1)
      | inr e ↦ rw e (h.0, erase-AllValues k d h.1)
    ]

    adjust-AllValues :
        (k : ℕ) (f : V → V) (d : Dict V)
        → ((v : V) → P (f v))
        → AllValues P d
        → AllValues P (adjust k f d)
    unfolding adjust
    adjust-AllValues k f [] pf h = h
    adjust-AllValues k f ((j, v) ∷ d) pf h = elim (Bool-cases (j == k)) [
      | inl e ↦ rw e (pf v, h.1)
      | inr e ↦ rw e (h.0, adjust-AllValues k f d pf h.1)
    ]

  -- A dict of at most `n` keys, none twice, with values of `P`.
  pub record Fits {κ} (P : V → Type κ) (n : ℕ) (d : Dict V) : Type κ where
    pub unique : IsUnique d
    pub few : length d ≤ n
    pub all : AllValues P d

  module _ {κ} (P : V → Type κ) (n : ℕ) (p : 0 < n) where
    pub set_item-Fits :
        (k : ℕ) (v : V) (d : Dict V) → P v → Fits P n d → Fits P n (set_item n k v d)
    unfolding set_item
    set_item-Fits k v d pv h = rw (trim-eq-last_n n (put k v d) p (put-IsUnique k v d h.unique)) (
        unfold last_n in
        record {
          unique = drop-IsUnique (length (put k v d) - n) (put k v d) (put-IsUnique k v d h.unique);
          few = length-last_n n (put k v d);
          all =
              drop-AllValues P (length (put k v d) - n) (put k v d)
                (put-AllValues P k v d pv h.all);
        })

    pub get_item-Fits :
        (default : V) (k : ℕ) (d : Dict V)
        → P default
        → Fits P n d
        → Fits P n (get_item n default k d).1
    unfolding get_item
    get_item-Fits default k d pd h = go (get k d)
      where
        go :
            (o : Option V)
            → Fits P n
                (elim o as (λ _. V × Dict V) [
                  | none ↦ (default, set_item n k default d)
                  | some v ↦ (v, d)
                ]).1
        go none = set_item-Fits k default d pd h
        go (some v) = h

    pub adjust-Fits :
        (k : ℕ) (f : V → V) (d : Dict V)
        → ((v : V) → P (f v))
        → Fits P n d
        → Fits P n (adjust k f d)
    adjust-Fits k f d pf h = record {
      unique = adjust-IsUnique k f d h.unique;
      few = omega (arith, length-adjust k f d, h.few);
      all = adjust-AllValues P k f d pf h.all;
    }

    pub erase-Fits : (k : ℕ) (d : Dict V) → Fits P n d → Fits P n (erase k d)
    erase-Fits k d h = record {
      unique = erase-IsUnique k d h.unique;
      few = ground (arith, length-erase k d h.unique, h.few);
      all = erase-AllValues P k d h.all;
    }

module _ {ℓ} {V : Type ℓ} where
  pub get_item-some :
      (n : ℕ) (default : V) (k : ℕ) (d : Dict V) {v : V}
      → get k d ≡ some v
      → get_item n default k d ≡ (v, d)
  unfolding get_item
  get_item-some n default k d e = rw (e, get_item)

  pub get_item-none :
      (n : ℕ) (default : V) (k : ℕ) (d : Dict V)
      → get k d ≡ none
      → get_item n default k d ≡ (default, set_item n k default d)
  unfolding get_item
  get_item-none n default k d e = rw (e, get_item)
