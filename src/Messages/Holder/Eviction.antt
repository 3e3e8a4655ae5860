-- ===== src/Messages/Holder/Eviction.antt =====
-- What `class Holder` of `src/messages/holder.py` does at its bound of 256 keys.
use agentica_server.Base.{
  ℕ, suc, ◌≡◌, refl, ap, ◌∙◌, Bool, false, Option, none, some, List, [], ◌∷◌, ◌++◌, arith, length,
  length-append, drop, Dict, get, has, put, IsUnique, put-IsUnique,
}
use agentica_server.Messages.Holder.Bounded.{last_n, set_item}
use agentica_server.Messages.Holder.Bounds.{trim-eq-last_n, get_item-none}
use agentica_server.Messages.Holder.{Holder, max_keys, get_by_key, select}

module _ {V : Type 0} where
  put_absent : (k : ℕ) (v : V) (d : Dict V) → has k d ≡ false → put k v d ≡ d ++ (k, v) ∷ []
  unfolding has put
  put_absent k v [] h = refl
  put_absent k v ((j, w) ∷ d) h = ground (arith, put_absent k v d)

  get_absent : (k : ℕ) (d : Dict V) → has k d ≡ false → get k d ≡ none
  unfolding has get
  get_absent k [] h = refl
  get_absent k ((j, w) ∷ d) h = ground (arith, get_absent k d)

  set_item_full :
      (n k : ℕ) (v : V) (e : ℕ × V) (d : Dict V)
      → length (e ∷ d) ≡ suc n
      → IsUnique (e ∷ d)
      → has k (e ∷ d) ≡ false
      → set_item (suc n) k v (e ∷ d) ≡ d ++ (k, v) ∷ []
  unfolding set_item
  set_item_full n k v e d full u h =
      trim-eq-last_n (suc n) (put k v (e ∷ d)) (omega arith) (put-IsUnique k v (e ∷ d) u)
      ∙ (unfold last_n in
          rw (put_absent k v (e ∷ d) h) (
            ap (λ (i : ℕ). drop i ((e ∷ d) ++ (k, v) ∷ [])) {y = 1}
              (omega (arith, full, length-append d ((k, v) ∷ [])))))

select_nil : {M : Type 0} (p : Option (M → Bool)) → select p [] ≡ []
unfolding select
select_nil none = refl
select_nil (some p) = refl

module _ {M L : Type 0} where
  -- At 256 keys, reading a key that has no entry drops the oldest key with all its messages and
  -- gives the key that was read an empty entry; the reader gets no message.
  pub get_by_key-evicts :
      (k : ℕ) (p : Option (M → Bool)) (h : Holder M L) (e : ℕ × List M) (d : Dict (List M))
      → h.messages ≡ e ∷ d
      → length (e ∷ d) ≡ max_keys
      → IsUnique (e ∷ d)
      → has k (e ∷ d) ≡ false
      → get_by_key k p h ≡ ([], record h { messages = d ++ (k, []) ∷ [] })
  unfolding get_by_key
  get_by_key-evicts k p h e d eq full u absent = rw eq (
      rw (get_item-none max_keys [] k (e ∷ d) (get_absent k (e ∷ d) absent))
        (rw (set_item_full 255 k [] e d full u absent) (rw select_nil)))
