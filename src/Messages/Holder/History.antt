-- ===== src/Messages/Holder/History.antt =====
-- What a reader of `class Holder` of `src/messages/holder.py` sees, against the unbounded log that
-- the holder stands for: all messages of a key, in the order in which they were added.
use agentica_server.Base.{
  ℕ, suc, ◌≤◌, ◌≡◌, refl, sym, ap, ◌∙◌, Option, none, some, List, [], ◌∷◌, ◌++◌, arith, length,
  Dict, get, has, put, IsUnique, put-IsUnique, length-put, Option-cases, inl, inr,
}
use agentica_server.Messages.Holder.Bounded.{last_n, append_max, set_item, get_item, adjust}
use agentica_server.Messages.Holder.Bounds.{
  append_max-last_n, last_n_short, trim-eq-last_n, get_item-some, get_item-none,
}
use agentica_server.Messages.Holder.{Holder, init, max_keys, max_messages, add, get_by_key, select}

module _ {M : Type 0} where
  abbrev pub or_empty : Option (List M) → List M
  or_empty none = []
  or_empty (some ms) = ms

  -- The unbounded log: a message goes to the end of its key's messages.
  unfoldable pub remember : ℕ → M → Dict (List M) → Dict (List M)
  remember k m d = put k (or_empty (get k d) ++ m ∷ []) d

  unfoldable pub remember_all : List (ℕ × M) → Dict (List M) → Dict (List M)
  remember_all [] d = d
  remember_all ((k, m) ∷ ms) d = remember_all ms (remember k m d)

  -- Each key's last messages.
  unfoldable pub cut : Dict (List M) → Dict (List M)
  cut [] = []
  cut ((k, ms) ∷ d) = (k, last_n max_messages ms) ∷ cut d

  length-cut : (d : Dict (List M)) → length (cut d) ≡ length d
  unfolding cut
  length-cut [] = refl
  length-cut ((k, ms) ∷ d) = ap suc (length-cut d)

  has-cut : (k : ℕ) (d : Dict (List M)) → has k (cut d) ≡ has k d
  unfolding cut has
  has-cut k [] = refl
  has-cut k ((j, ms) ∷ d) = ground (arith, has-cut k d)

  cut-IsUnique : (d : Dict (List M)) → IsUnique d → IsUnique (cut d)
  unfolding cut
  cut-IsUnique [] u = u
  cut-IsUnique ((j, ms) ∷ d) u = (has-cut j d ∙ u.0, cut-IsUnique d u.1)

  -- What `get` finds in the cut log.
  cut_option : Option (List M) → Option (List M)
  cut_option none = none
  cut_option (some ms) = some (last_n max_messages ms)

  get-cut : (k : ℕ) (d : Dict (List M)) → get k (cut d) ≡ cut_option (get k d)
  unfolding cut get cut_option
  get-cut k [] = refl
  get-cut k ((j, ms) ∷ d) = ground (arith, get-cut k d)

  append_first : (m : M) → append_max max_messages m [] ≡ last_n max_messages (m ∷ [])
  append_first m =
      ap (append_max max_messages m) (sym (last_n_short max_messages [] (omega arith)))
      ∙ append_max-last_n max_messages m []

  adjust-cut :
      (k : ℕ) (m : M) (d : Dict (List M)) (old : List M)
      → get k d ≡ some old
      → adjust k (append_max max_messages m) (cut d) ≡ cut (put k (old ++ m ∷ []) d)
  unfolding cut get put adjust
  adjust-cut k m [] old e = cc
  adjust-cut k m ((j, ms) ∷ d) old e =
      ground (arith, adjust-cut k m d old, append_max-last_n max_messages m ms)

  adjust-put-cut :
      (k : ℕ) (m : M) (d : Dict (List M))
      → get k d ≡ none
      → adjust k (append_max max_messages m) (put k [] (cut d)) ≡ cut (put k (m ∷ []) d)
  unfolding cut get put adjust
  adjust-put-cut k m [] e = ground (arith, append_first m)
  adjust-put-cut k m ((j, ms) ∷ d) e = ground (arith, adjust-put-cut k m d)

  -- While the keys fit, writing a new key is a plain write.
  set_item_fits :
      (k : ℕ) (ms : List M) (d : Dict (List M))
      → IsUnique d
      → length (put k ms d) ≤ max_keys
      → set_item max_keys k ms d ≡ put k ms d
  unfolding set_item
  set_item_fits k ms d u h =
      trim-eq-last_n max_keys (put k ms d) (omega arith) (put-IsUnique k ms d u)
      ∙ last_n_short max_keys (put k ms d) h

  length-put-cut :
      (k : ℕ) (ms ns : List M) (d : Dict (List M)) → length (put k ms (cut d)) ≡ length (put k ns d)
  length-put-cut k ms ns d =
      ground (arith, length-put k ms (cut d), length-put k ns d, has-cut k d, length-cut d)

  -- One write to the cut log, while the keys fit, is the cut of the write to the log.
  write_cut :
      (k : ℕ) (m : M) (d : Dict (List M))
      → IsUnique d
      → length (remember k m d) ≤ max_keys
      → adjust k (append_max max_messages m) (get_item max_keys [] k (cut d)).1
        ≡ cut (remember k m d)
  unfolding remember
  write_cut k m d u h = elim (Option-cases (get k d)) [
    | inl e ↦
        let g : get k (cut d) ≡ none = get-cut k d ∙ (unfold cut_option in ap cut_option e) in
        rw (get_item-none max_keys [] k (cut d) g, e)
          (rw
            (set_item_fits k [] (cut d) (cut-IsUnique d u)
              (omega (arith, length-put-cut k [] (or_empty (get k d) ++ m ∷ []) d, h)))
            (adjust-put-cut k m d e))
    | inr (old, e) ↦
        let g : get k (cut d) ≡ some (last_n max_messages old) =
          get-cut k d ∙ (unfold cut_option in ap cut_option e) in
        rw (get_item-some max_keys [] k (cut d) g, e) (adjust-cut k m d old e)
  ]

  remember-IsUnique : (k : ℕ) (m : M) (d : Dict (List M)) → IsUnique d → IsUnique (remember k m d)
  unfolding remember
  remember-IsUnique k m d u = put-IsUnique k (or_empty (get k d) ++ m ∷ []) d u

  length-remember_all :
      (ms : List (ℕ × M)) (d : Dict (List M)) → length d ≤ length (remember_all ms d)
  unfolding remember_all remember
  length-remember_all [] d = omega arith
  length-remember_all ((k, m) ∷ ms) d = ground (
    arith,
    length-remember_all ms (remember k m d),
    length-put k (or_empty (get k d) ++ m ∷ []) d,
  )

  read_cut :
      (k : ℕ) (d : Dict (List M))
      → (get_item max_keys [] k (cut d)).0 ≡ last_n max_messages (or_empty (get k d))
  read_cut k d = elim (Option-cases (get k d)) [
    | inl e ↦
        let g : get k (cut d) ≡ none = get-cut k d ∙ (unfold cut_option in ap cut_option e) in
        rw (get_item-none max_keys [] k (cut d) g, e)
          (sym (last_n_short max_messages [] (omega arith)))
    | inr (old, e) ↦
        let g : get k (cut d) ≡ some (last_n max_messages old) =
          get-cut k d ∙ (unfold cut_option in ap cut_option e) in
        rw (get_item-some max_keys [] k (cut d) g, e)
  ]

module _ {M L : Type 0} where
  abbrev pub add_all : List (ℕ × M) → Holder M L → Holder M L
  add_all [] h = h
  add_all ((k, m) ∷ ms) h = add_all ms (add k m h).1

  add_all-refines :
      (ms : List (ℕ × M)) (h : Holder M L) (d : Dict (List M))
      → h.messages ≡ cut d
      → IsUnique d
      → length (remember_all ms d) ≤ max_keys
      → (add_all ms h).messages ≡ cut (remember_all ms d)
  unfolding remember_all
  add_all-refines [] h d e u b = e
  add_all-refines ((k, m) ∷ ms) h d e u b =
      add_all-refines ms (add k m h).1 (remember k m d)
        (unfold add in
          rw e (write_cut k m d u (omega (arith, length-remember_all ms (remember k m d), b))))
        (remember-IsUnique k m d u) b

-- While no more than 256 keys have been used, a read of a key from a fresh holder returns the
-- last 1024 of all messages added under that key, in order, and none for a key never used.
pub get_by_key-add_all :
    {M : Type 0} (L : Type 0) (ms : List (ℕ × M)) (k : ℕ)
    → length (remember_all ms []) ≤ max_keys
    → (get_by_key k none (add_all ms (init {L = L}))).0
      ≡ last_n max_messages (or_empty (get k (remember_all ms [])))
unfolding get_by_key select
get_by_key-add_all L ms k b =
    rw (add_all-refines ms (init {L = L}) [] (unfold cut in refl) tt b)
      (read_cut k (remember_all ms []))
