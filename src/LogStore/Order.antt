-- ===== src/LogStore/Order.antt =====
-- The order in which `src/development/fancy_logger/src/fancy_logger/store.py` lists uids.
use agentica_server.Base.{
  ℕ, suc, ◌≤◌, ◌≡◌, refl, sym, ap, subst, ◌∙◌, true, false, Option, none, some, List, [], ◌∷◌, ◌++◌,
  arith, ◌==◌, if◌then◌else◌, length, length-append, Dict, has, put, keys, append-nil, append_assoc,
  Bool-cases, inl, inr, ==_iff,
}
use agentica_server.LogStore.{
  Message, LogStore, is_in, first_index, index_uid, add_type, add, insert, sorted, by_index, uids,
  clear,
}

abbrev pub add_all : List Message → LogStore → LogStore
add_all [] s = s
add_all (m ∷ ms) s = add_all ms (add m s)

-- The uids of one more message.
abbrev pub also : Option ℕ → List ℕ → List ℕ
also none xs = xs
also (some u) xs = u ∷ xs

abbrev pub uids_of : List Message → List ℕ
uids_of [] = []
uids_of (m ∷ ms) = also m.uid (uids_of ms)

abbrev pub without : ℕ → List ℕ → List ℕ
without x [] = []
without x (y ∷ ys) = let rest = without x ys in if y == x then rest else y ∷ rest

-- Each number once, where it first stands.
abbrev pub first_seen : List ℕ → List ℕ
first_seen [] = []
first_seen (x ∷ xs) = x ∷ without x (first_seen xs)

-- What is not in the first list.
abbrev new_to : List ℕ → List ℕ → List ℕ
new_to seen [] = []
new_to seen (y ∷ ys) = let rest = new_to seen ys in if is_in y seen then rest else y ∷ rest

is_in-snoc :
    (x y : ℕ) (xs : List ℕ) → is_in x (xs ++ y ∷ []) ≡ (if y == x then true else is_in x xs)
is_in-snoc x y [] = ground arith
is_in-snoc x y (z ∷ xs) = ground (arith, is_in-snoc x y xs)

new_to-snoc :
    (seen : List ℕ) (x : ℕ) (ys : List ℕ) → new_to (seen ++ x ∷ []) ys ≡ new_to seen (without x ys)
new_to-snoc seen x [] = refl
new_to-snoc seen x (y ∷ ys) = ground (arith, new_to-snoc seen x ys, is_in-snoc y x seen)

new_to-without :
    (seen : List ℕ) (x : ℕ) (ys : List ℕ)
    → is_in x seen ≡ true
    → new_to seen (without x ys) ≡ new_to seen ys
new_to-without seen x [] h = refl
new_to-without seen x (y ∷ ys) h = elim (Bool-cases (y == x)) [
  | inl e ↦
      let q = subst (λ z. is_in z seen ≡ true) (sym ((==_iff y x).0 e)) h in
      rw (e, q) (new_to-without seen x ys h)
  | inr e ↦ ground (arith, e, new_to-without seen x ys h)
]

new_to_nothing : (ys : List ℕ) → new_to [] ys ≡ ys
new_to_nothing [] = refl
new_to_nothing (y ∷ ys) = ap (λ r. y ∷ r) (new_to_nothing ys)

-- The indices rise and stay below `n`.
abbrev IsRising : ℕ → Dict ℕ → Type 0
IsRising n [] = Unit
IsRising n ((k, i) ∷ []) = i ≤ n
IsRising n ((k, i) ∷ (j, l) ∷ d) = (i ≤ l) × IsRising n ((j, l) ∷ d)

sorted-IsRising : (n : ℕ) (d : Dict ℕ) → IsRising n d → sorted (λ (e : ℕ × ℕ). e.1) d ≡ d
unfolding sorted insert
sorted-IsRising n [] h = refl
sorted-IsRising n ((k, i) ∷ []) h = refl
sorted-IsRising n ((k, i) ∷ (j, l) ∷ d) (a, h) =
    ap (insert (λ (e : ℕ × ℕ). e.1) (k, i)) (sorted-IsRising n ((j, l) ∷ d) h) ∙ ground arith

snoc-IsRising : (n k : ℕ) (d : Dict ℕ) → IsRising n d → IsRising (suc n) (d ++ (k, n) ∷ [])
snoc-IsRising n k [] h = omega arith
snoc-IsRising n k ((j, i) ∷ []) h = (h, omega arith)
snoc-IsRising n k ((j, i) ∷ (l, m) ∷ d) (a, h) = (a, snoc-IsRising n k ((l, m) ∷ d) h)

up-IsRising : (n : ℕ) (d : Dict ℕ) → IsRising n d → IsRising (suc n) d
up-IsRising n [] h = tt
up-IsRising n ((j, i) ∷ []) h = omega (arith, h)
up-IsRising n ((j, i) ∷ (l, m) ∷ d) (a, h) = (a, up-IsRising n ((l, m) ∷ d) h)

put_absent : (k n : ℕ) (d : Dict ℕ) → has k d ≡ false → put k n d ≡ d ++ (k, n) ∷ []
unfolding has put
put_absent k n [] h = refl
put_absent k n ((j, i) ∷ d) h = ground (arith, put_absent k n d)

keys-snoc : (k n : ℕ) (d : Dict ℕ) → keys (d ++ (k, n) ∷ []) ≡ keys d ++ k ∷ []
unfolding keys
keys-snoc k n [] = refl
keys-snoc k n ((j, i) ∷ d) = ap (λ r. j ∷ r) (keys-snoc k n d)

has-keys : (k : ℕ) (d : Dict ℕ) → has k d ≡ is_in k (keys d)
unfolding has keys
has-keys k [] = refl
has-keys k ((j, i) ∷ d) = ground (arith, has-keys k d)

-- The index of uids: rising, below the number of messages, with the keys `ks`.
abbrev Indexed : List ℕ → LogStore → Type 0
Indexed ks s = IsRising (length s.messages) s.uid_first_index × (keys s.uid_first_index ≡ ks)

-- A key that is new goes to the end.
abbrev seen_next : List ℕ → Option ℕ → List ℕ
seen_next ks none = ks
seen_next ks (some u) = if is_in u ks then ks else ks ++ u ∷ []

first_index-Indexed :
    (n u : ℕ) (d : Dict ℕ)
    → IsRising n d
    → IsRising (suc n) (first_index u n d)
      × (keys (first_index u n d) ≡ seen_next (keys d) (some u))
unfolding first_index
first_index-Indexed n u d h = elim (Bool-cases (has u d)) [
  | inl e ↦ let q = sym (has-keys u d) ∙ e in rw (e, q, first_index) (up-IsRising n d h, refl)
  | inr e ↦
      let q = sym (has-keys u d) ∙ e in
      rw (e, q, first_index)
        (
          subst (IsRising (suc n)) (sym (put_absent u n d e)) (snoc-IsRising n u d h),
          ap keys (put_absent u n d e) ∙ keys-snoc u n d,
        )
]

indexed_uid :
    (o iid : Option ℕ) (n : ℕ) (s : LogStore)
    → IsRising n s.uid_first_index
    → IsRising (suc n) (index_uid o iid n s).uid_first_index
      × (keys (index_uid o iid n s).uid_first_index ≡ seen_next (keys s.uid_first_index) o)
      × ((index_uid o iid n s).messages ≡ s.messages)
unfolding index_uid
indexed_uid none iid n s h = (up-IsRising n s.uid_first_index h, refl, refl)
indexed_uid (some u) iid n s h =
    let (a, b) = first_index-Indexed n u s.uid_first_index h in (a, b, refl)

add-Indexed :
    (m : Message) (ks : List ℕ) (s : LogStore)
    → Indexed ks s
    → Indexed (seen_next ks m.uid) (add m s)
unfolding add
add-Indexed m ks s (h, e) =
    let s' = record s {
      messages = s.messages ++ m ∷ [];
      types = add_type m.type s.types;
      version = suc s.version;
    } in
    let (a, b, c) = indexed_uid m.uid m.iid (length s.messages) s' h in
    let l : length (add m s).messages ≡ suc (length s.messages) =
      ap length c ∙ length-append s.messages (m ∷ []) ∙ omega arith in
    (subst (λ n. IsRising n (add m s).uid_first_index) (sym l) a, b ∙ ap (λ r. seen_next r m.uid) e)

next_lem :
    (ks : List ℕ) (o : Option ℕ) (xs : List ℕ)
    → seen_next ks o ++ new_to (seen_next ks o) (first_seen xs)
      ≡ ks ++ new_to ks (first_seen (also o xs))
next_lem ks none xs = refl
next_lem ks (some u) xs = elim (Bool-cases (is_in u ks)) [
  | inl e ↦ rw (e) (ap (λ r. ks ++ r) (sym (new_to-without ks u (first_seen xs) e)))
  | inr e ↦ rw (e) (
      append_assoc ks (u ∷ []) (new_to (ks ++ u ∷ []) (first_seen xs))
      ∙ ap (λ r. ks ++ u ∷ r) (new_to-snoc ks u (first_seen xs)))
]

add_all-Indexed :
    (ms : List Message) (ks : List ℕ) (s : LogStore)
    → Indexed ks s
    → Indexed (ks ++ new_to ks (first_seen (uids_of ms))) (add_all ms s)
add_all-Indexed [] ks s h = subst (λ r. Indexed r s) (sym (append-nil ks)) h
add_all-Indexed (m ∷ ms) ks s h =
    let i = add_all-Indexed ms (seen_next ks m.uid) (add m s) (add-Indexed m ks s h) in
    subst (λ r. Indexed r (add_all ms (add m s))) (next_lem ks m.uid (uids_of ms)) i

-- After the store is cleared and messages are added, the uids are listed each once, in the order
-- in which they first came.
pub uids-add_all :
    (ms : List Message) (s : LogStore) → uids (add_all ms (clear s)) ≡ first_seen (uids_of ms)
unfolding uids by_index clear keys
uids-add_all ms s =
    let (a, b) = add_all-Indexed ms [] (clear s) (tt, refl) in
    let t = add_all ms (clear s) in
    ap keys (sorted-IsRising (length t.messages) t.uid_first_index a)
    ∙ b
    ∙ new_to_nothing (first_seen (uids_of ms))
