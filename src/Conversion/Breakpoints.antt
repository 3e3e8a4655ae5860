-- ===== src/Conversion/Breakpoints.antt =====
-- Where `_from` of `src/com/conversion/openai_completions.py` marks blocks for the cache.
use agentica_server.Base.{
  ℕ, suc, ◌+◌, ◌-◌, ◌/◌, ◌%◌, ◌≤◌, ◌<◌, ◌≡◌, ◌≢◌, refl, sym, ap, ◌∙◌, Bool, true, false, ◌&&◌, ◌||◌,
  Bool-cases, inl, inr, List, [], ◌∷◌, ◌++◌, ◌==◌, leb, ltb, ltb→lt, leb→le, if◌then◌else◌, length,
  length-append, arith,
}
use agentica_server.Conversion.Anthropic.{Block}
use agentica_server.Conversion.Completions.{
  Marked, RequestMessage, text_message, block_message, Counters, mark_block, mark_blocks,
  mark_message, mark_messages, start_counters,
}

-- The block with `n` blocks after it: every twentieth from the end, four at most.
abbrev pub is_breakpoint : ℕ → Bool
is_breakpoint n = n % 20 == 0 && ltb n 80

-- Marks by their place alone, with `n` more blocks after the list.
abbrev pub mark_by_place : List Marked → ℕ → List Marked
mark_by_place [] n = []
mark_by_place ((b, f) ∷ bs) n = (b, f || is_breakpoint (length bs + n)) ∷ mark_by_place bs n

abbrev pub blocks_of : RequestMessage → List Marked
blocks_of (text_message m) = []
blocks_of (block_message r t bs) = bs

abbrev pub all_blocks : List RequestMessage → List Marked
all_blocks [] = []
all_blocks (m ∷ ms) = blocks_of m ++ all_blocks ms

capped : ℕ → ℕ
capped n = if leb n 61 then n else 61

-- The counters after `n` blocks.
abbrev after_blocks : ℕ → Counters
after_blocks n = record { num_blocks = capped n; num_breakpoints = 4 - (capped n + 19) / 20 }

or_true : (f : Bool) → (f || true) ≡ true
or_true true = refl
or_true false = refl

or_false : (f : Bool) → (f || false) ≡ f
or_false true = refl
or_false false = refl

counters_eq :
    (a b c d : ℕ)
    → a ≡ c
    → b ≡ d
    → ◌≡◌ {A = Counters}
        (record { num_blocks = a; num_breakpoints = b })
        (record { num_blocks = c; num_breakpoints = d })
counters_eq a b c d p q = cc (p, q)

marked_eq :
    (b : Block) (f g : Bool) (c d : Counters)
    → f ≡ g
    → c ≡ d
    → ◌≡◌ {A = Marked × Counters} ((b, f), c) ((b, g), d)
marked_eq b f g c d p q = cc (p, q)

-- One block, by the counters.
mark_counted :
    (b : Block) (f : Bool) (k p : ℕ)
    → mark_block (b, f) (record { num_blocks = k; num_breakpoints = p }) ≡ (
        if p == 0
        then ((b, f), record { num_blocks = k; num_breakpoints = p })
        else if k % 20 == 0
        then ((b, true), record { num_blocks = k + 1; num_breakpoints = p - 1 })
        else ((b, f), record { num_blocks = k + 1; num_breakpoints = p }))
unfolding mark_block
mark_counted b f k p = refl

marks :
    (b : Block) (f : Bool) (k p : ℕ)
    → 0 < p
    → k % 20 ≡ 0
    → mark_block (b, f) (record { num_blocks = k; num_breakpoints = p })
      ≡ ((b, true), record { num_blocks = k + 1; num_breakpoints = p - 1 })
marks b f k p h e =
    let u : (p == 0) ≡ false = ground arith in
    let v : (k % 20 == 0) ≡ true = ground arith in mark_counted b f k p ∙ rw (u, v) refl

passes :
    (b : Block) (f : Bool) (k p : ℕ)
    → 0 < p
    → k % 20 ≢ 0
    → mark_block (b, f) (record { num_blocks = k; num_breakpoints = p })
      ≡ ((b, f), record { num_blocks = k + 1; num_breakpoints = p })
passes b f k p h e =
    let u : (p == 0) ≡ false = ground arith in
    let v : (k % 20 == 0) ≡ false = ground arith in mark_counted b f k p ∙ rw (u, v) refl

stops :
    (b : Block) (f : Bool) (k p : ℕ)
    → p ≡ 0
    → mark_block (b, f) (record { num_blocks = k; num_breakpoints = p })
      ≡ ((b, f), record { num_blocks = k; num_breakpoints = p })
stops b f k p e = let u : (p == 0) ≡ true = ground arith in mark_counted b f k p ∙ rw u refl

capped_low : (n : ℕ) → n ≤ 61 → capped n ≡ n
unfolding capped
capped_low n h = ground arith

capped_high : (n : ℕ) → 61 ≤ n → capped n ≡ 61
unfolding capped
capped_high n h = ground arith

is_breakpoint_lem : (n : ℕ) → n ≤ 60 → n % 20 ≡ 0 → is_breakpoint n ≡ true
is_breakpoint_lem n h e = ground arith

no_breakpoint : (n : ℕ) → n % 20 ≢ 0 → is_breakpoint n ≡ false
no_breakpoint n e = ground arith

no_breakpoint_late : (n : ℕ) → 61 ≤ n → is_breakpoint n ≡ false
no_breakpoint_late n h = elim (Bool-cases (ltb n 80)) [
  | inl e ↦
      let l = ltb→lt n 80 e in
      let q : n % 20 ≢ 0 = λ z. absurd (omega (arith, h, l, z)) in no_breakpoint n q
  | inr e ↦ rw e (ground arith)
]

low :
    (b : Block) (f : Bool) (n : ℕ)
    → n ≤ 60
    → mark_block (b, f) (after_blocks n) ≡ ((b, f || is_breakpoint n), after_blocks (suc n))
low b f n h =
    let c = capped_low n (omega (arith, h)) in
    let c' = capped_low (suc n) (omega (arith, h)) in
    elim (Bool-cases (n % 20 == 0)) [
      | inl e ↦
          let z : n % 20 ≡ 0 = ground arith in
          marks b f (capped n) (4 - (capped n + 19) / 20) (omega (arith, c, h))
            (ap (λ (t : ℕ). t % 20) c ∙ z)
          ∙ marked_eq b true (f || is_breakpoint n) _ _
              (sym (ap (λ t. f || t) (is_breakpoint_lem n h z) ∙ or_true f))
              (counters_eq _ _ _ _ (omega (arith, c, c')) (omega (arith, c, c', z, h)))
      | inr e ↦
          let z : n % 20 ≢ 0 = λ q. absurd (ground (arith, q, e)) in
          passes b f (capped n) (4 - (capped n + 19) / 20) (omega (arith, c, h))
            (λ q. z (ap (λ (t : ℕ). t % 20) (sym c) ∙ q))
          ∙ marked_eq b f (f || is_breakpoint n) _ _
              (sym (ap (λ t. f || t) (no_breakpoint n z) ∙ or_false f))
              (counters_eq _ _ _ _ (omega (arith, c, c')) (omega (arith, c, c', z, h)))
    ]

late :
    (b : Block) (f : Bool) (n : ℕ)
    → 61 ≤ n
    → mark_block (b, f) (after_blocks n) ≡ ((b, f || is_breakpoint n), after_blocks (suc n))
late b f n h =
    let c = capped_high n h in
    let c' = capped_high (suc n) (omega (arith, h)) in
    stops b f (capped n) (4 - (capped n + 19) / 20) (omega (arith, c))
    ∙ marked_eq b f (f || is_breakpoint n) _ _
        (sym (ap (λ t. f || t) (no_breakpoint_late n h) ∙ or_false f))
        (counters_eq _ _ _ _ (omega (arith, c, c')) (omega (arith, c, c')))

mark_block_lem :
    (b : Block) (f : Bool) (n : ℕ)
    → mark_block (b, f) (after_blocks n) ≡ ((b, f || is_breakpoint n), after_blocks (suc n))
mark_block_lem b f n = elim (Bool-cases (leb n 60)) [
  | inl e ↦ low b f n (leb→le n 60 e)
  | inr e ↦ late b f n (ground (arith, e))
]

mark_blocks_lem :
    (bs : List Marked) (n : ℕ)
    → mark_blocks bs (after_blocks n) ≡ (mark_by_place bs n, after_blocks (length bs + n))
unfolding mark_blocks
mark_blocks_lem [] n = ap (λ (k : ℕ). ([], after_blocks k)) {x = n} {y = 0 + n} (omega arith)
mark_blocks_lem ((b, f) ∷ bs) n =
    ap
      (λ (x : List Marked × Counters). ((mark_block (b, f) x.1).0 ∷ x.0, (mark_block (b, f) x.1).1))
      (mark_blocks_lem bs n)
    ∙ ap (λ (y : Marked × Counters). (y.0 ∷ mark_by_place bs n, y.1))
        (mark_block_lem b f (length bs + n))
    ∙ ap (λ (k : ℕ). (mark_by_place ((b, f) ∷ bs) n, after_blocks k)) {x = suc (length bs + n)}
        {y = suc (length bs) + n} (omega arith)

mark_by_place-append :
    (xs ys : List Marked) (n : ℕ)
    → mark_by_place (xs ++ ys) n ≡ mark_by_place xs (length ys + n) ++ mark_by_place ys n
mark_by_place-append [] ys n = refl
mark_by_place-append ((b, f) ∷ xs) ys n =
    let e : length (xs ++ ys) + n ≡ length xs + (length ys + n) =
      omega (arith, length-append xs ys) in
    ap (λ (k : ℕ). (b, f || is_breakpoint k) ∷ mark_by_place (xs ++ ys) n) e
    ∙ ap (λ r. (b, f || is_breakpoint (length xs + (length ys + n))) ∷ r)
        (mark_by_place-append xs ys n)

mark_message_lem :
    (m : RequestMessage) (n : ℕ)
    → (blocks_of (mark_message m (after_blocks n)).0 ≡ mark_by_place (blocks_of m) n)
      × ((mark_message m (after_blocks n)).1 ≡ after_blocks (length (blocks_of m) + n))
unfolding mark_message
mark_message_lem (text_message m) n = (refl, ap after_blocks {x = n} {y = 0 + n} (omega arith))
mark_message_lem (block_message r t bs) n =
    let e = mark_blocks_lem bs n in (ap (λ x. x.0) e, ap (λ x. x.1) e)

mark_messages_lem :
    (ms : List RequestMessage) (n : ℕ)
    → (all_blocks (mark_messages ms (after_blocks n)).0 ≡ mark_by_place (all_blocks ms) n)
      × ((mark_messages ms (after_blocks n)).1 ≡ after_blocks (length (all_blocks ms) + n))
unfolding mark_messages
mark_messages_lem [] n = (refl, ap after_blocks {x = n} {y = 0 + n} (omega arith))
mark_messages_lem (m ∷ ms) n =
    let (p, q) = mark_messages_lem ms n in
    let k = length (all_blocks ms) + n in
    let (u, v) = mark_message_lem m k in
    let c = (mark_messages ms (after_blocks n)).1 in
    let rest = all_blocks (mark_messages ms (after_blocks n)).0 in
    (
      ap (λ x. blocks_of (mark_message m x).0 ++ rest) q
          ∙ ap (λ x. x ++ rest) u
          ∙ ap (λ x. mark_by_place (blocks_of m) k ++ x) p
          ∙ sym (mark_by_place-append (blocks_of m) (all_blocks ms) n),
      ap (λ x. (mark_message m x).1) q
          ∙ v
          ∙ ap after_blocks {x = length (blocks_of m) + k}
              {y = length (blocks_of m ++ all_blocks ms) + n}
              (omega (arith, length-append (blocks_of m) (all_blocks ms))),
    )

-- The loops that count blocks and breakpoints from the end of the last message mark the same blocks
-- as the rule by place: each twentieth block from the end, the last among them, and four at most.
pub mark_messages_by_place :
    (ms : List RequestMessage)
    → all_blocks (mark_messages ms start_counters).0 ≡ mark_by_place (all_blocks ms) 0
unfolding capped
mark_messages_by_place ms = (mark_messages_lem ms 0).0
