-- ===== src/Conversion/Turns.antt =====
-- The messages that `add_block` builds in
-- `src/com/conversion/openai_chat_completions/anthropic.py`: their blocks and the turns of their roles.
use agentica_server.Base.{
  ◌≡◌, refl, sym, ap, subst, ◌∙◌, Bool, true, false, Bool-cases, inl, inr, Option, none, some, List,
  [], ◌∷◌, ◌++◌, if◌then◌else◌, append-nil, append_assoc, arith,
}
use agentica_server.Conversion.{ChatRole, as_system, as_user, as_assistant}
use agentica_server.Conversion.Anthropic.{
  Block, BlockMessage, same_chat_role, Chat, append_block, new_message, append_system, add_message,
  add_block, together,
}

abbrev pub Tagged : Type 0
Tagged = List (ChatRole × Block)

abbrev pub with_role : ChatRole → List Block → Tagged
with_role r [] = []
with_role r (b ∷ bs) = (r, b) ∷ with_role r bs

-- All blocks in their order, each with the role of its message.
abbrev pub tagged : List BlockMessage → List (ChatRole × Block)
tagged [] = []
tagged (m ∷ ms) = with_role m.role m.content ++ tagged ms

abbrev pub roles : List BlockMessage → List ChatRole
roles [] = []
roles (m ∷ ms) = m.role ∷ roles ms

-- Neighbours differ, and only the first can be the system.
abbrev pub IsTurns : List ChatRole → Type 0
IsTurns [] = Unit
IsTurns (r ∷ []) = same_chat_role as_system r ≡ false
IsTurns (r ∷ q ∷ rs) =
    (same_chat_role as_system r ≡ false) × (same_chat_role r q ≡ false) × IsTurns (q ∷ rs)

abbrev pub IsAlternating : List ChatRole → Type 0
IsAlternating [] = Unit
IsAlternating (r ∷ []) = Unit
IsAlternating (r ∷ q ∷ rs) =
    (same_chat_role r q ≡ false) × (same_chat_role as_system q ≡ false) × IsAlternating (q ∷ rs)

with_role-append :
    (r : ChatRole) (bs cs : List Block) → with_role r (bs ++ cs) ≡ with_role r bs ++ with_role r cs
with_role-append r [] cs = refl
with_role-append r (b ∷ bs) cs = ap (λ t. (r, b) ∷ t) (with_role-append r bs cs)

tagged-snoc :
    (ms : List BlockMessage) (m : BlockMessage)
    → tagged (ms ++ m ∷ []) ≡ tagged ms ++ with_role m.role m.content
tagged-snoc [] m = append-nil (with_role m.role m.content)
tagged-snoc (n ∷ ms) m =
    ap (λ t. with_role n.role n.content ++ t) (tagged-snoc ms m)
    ∙ sym (append_assoc (with_role n.role n.content) (tagged ms) (with_role m.role m.content))

roles-snoc :
    (ms : List BlockMessage) (m : BlockMessage) → roles (ms ++ m ∷ []) ≡ roles ms ++ m.role ∷ []
roles-snoc [] m = refl
roles-snoc (n ∷ ms) m = ap (λ t. n.role ∷ t) (roles-snoc ms m)

snoc-IsTurns :
    (rs : List ChatRole) (r q : ChatRole)
    → IsTurns (rs ++ r ∷ [])
    → same_chat_role r q ≡ false
    → same_chat_role as_system q ≡ false
    → IsTurns ((rs ++ r ∷ []) ++ q ∷ [])
snoc-IsTurns [] r q h d s = (h, d, s)
snoc-IsTurns (t ∷ []) r q (a, b, c) d s = (a, b, snoc-IsTurns [] r q c d s)
snoc-IsTurns (t ∷ u ∷ rs) r q (a, b, c) d s = (a, b, snoc-IsTurns (u ∷ rs) r q c d s)

pub turns-IsAlternating : (rs : List ChatRole) → IsTurns rs → IsAlternating rs
turns-IsAlternating [] h = tt
turns-IsAlternating (r ∷ []) h = tt
turns-IsAlternating (r ∷ q ∷ []) (a, b, c) = (b, c, tt)
turns-IsAlternating (r ∷ q ∷ t ∷ rs) (a, b, c) = (b, c.0, turns-IsAlternating (q ∷ t ∷ rs) c)

same_chat_role_lem : (r q : ChatRole) → same_chat_role r q ≡ true → r ≡ q
same_chat_role_lem as_system as_system h = refl
same_chat_role_lem as_system as_user h = absurd (ground arith)
same_chat_role_lem as_system as_assistant h = absurd (ground arith)
same_chat_role_lem as_user as_system h = absurd (ground arith)
same_chat_role_lem as_user as_user h = refl
same_chat_role_lem as_user as_assistant h = absurd (ground arith)
same_chat_role_lem as_assistant as_system h = absurd (ground arith)
same_chat_role_lem as_assistant as_user h = absurd (ground arith)
same_chat_role_lem as_assistant as_assistant h = refl

-- A block more at the end, and turns as before.
add_message_lem :
    (r : ChatRole) (b : Block) (ms : List BlockMessage) (cur : Option BlockMessage)
    → same_chat_role as_system r ≡ false
    → (cur ≡ none → ms ≡ [])
    → IsTurns (roles (together ms cur))
    → (tagged (together (add_message r b ms cur).0 (some (add_message r b ms cur).1))
        ≡ tagged (together ms cur) ++ (r, b) ∷ [])
      × IsTurns (roles (together (add_message r b ms cur).0 (some (add_message r b ms cur).1)))
unfolding add_message append_block
add_message_lem r b ms none s e h = rw (e refl) (refl, s)
add_message_lem r b ms (some m) s e h = elim (Bool-cases (same_chat_role m.role r)) [
  | inl q ↦
      rw (q, add_message)
        (
          tagged-snoc ms (append_block r b m)
              ∙ ap (λ t. tagged ms ++ t) (with_role-append m.role m.content (b ∷ []))
              ∙ sym (append_assoc (tagged ms) (with_role m.role m.content) ((m.role, b) ∷ []))
              ∙ ap (λ t. t ++ (m.role, b) ∷ []) (sym (tagged-snoc ms m))
              ∙ ap (λ t. tagged (ms ++ m ∷ []) ++ (t, b) ∷ []) (same_chat_role_lem m.role r q),
          subst IsTurns (roles-snoc ms m ∙ sym (roles-snoc ms (append_block r b m))) h,
        )
  | inr q ↦
      rw (q, add_message)
        (
          tagged-snoc (ms ++ m ∷ []) (new_message r b),
          subst IsTurns
              (ap (λ t. t ++ r ∷ []) (sym (roles-snoc ms m))
                ∙ sym (roles-snoc (ms ++ m ∷ []) (new_message r b)))
              (snoc-IsTurns (roles ms) m.role r (subst IsTurns (roles-snoc ms m) h) q s),
        )
]

abbrev pub system_part : Option (List Block) → Tagged
system_part none = []
system_part (some bs) = with_role as_system bs

-- The blocks of the system, and those of the others.
abbrev pub Holds : Tagged → Tagged → Chat → Type 0
Holds ss os c =
    (system_part c.system_message ≡ ss)
    × (tagged (together c.messages c.current_message) ≡ os)
    × IsTurns (roles (together c.messages c.current_message))
    × (c.current_message ≡ none → c.messages ≡ [])

system_part-append :
    (o : Option (List Block)) (b : Block)
    → system_part (some (append_system o b)) ≡ system_part o ++ (as_system, b) ∷ []
system_part-append none b = refl
system_part-append (some bs) b = with_role-append as_system bs (b ∷ [])

pub add_if :
    (b : Bool) (x : ChatRole × Block) (ss rest : Tagged)
    → (ss ++ (if b then x ∷ [] else [])) ++ rest ≡ ss ++ (if b then x ∷ rest else rest)
add_if true x ss rest = append_assoc ss (x ∷ []) rest
add_if false x ss rest = ap (λ z. z ++ rest) (append-nil ss)

pub add_unless :
    (b : Bool) (x : ChatRole × Block) (ss rest : Tagged)
    → (ss ++ (if b then [] else x ∷ [])) ++ rest ≡ ss ++ (if b then rest else x ∷ rest)
add_unless true x ss rest = ap (λ z. z ++ rest) (append-nil ss)
add_unless false x ss rest = append_assoc ss (x ∷ []) rest

pub add_block-Holds :
    (r : ChatRole) (b : Block) (ss os : Tagged) (c : Chat)
    → Holds ss os c
    → Holds
        (ss ++ (if same_chat_role as_system r then (as_system, b) ∷ [] else []))
        (os ++ (if same_chat_role as_system r then [] else (r, b) ∷ []))
        (add_block r b c)
unfolding add_block
add_block-Holds as_system b ss os c (h, k, t, n) = (
  system_part-append c.system_message b ∙ ap (λ z. z ++ (as_system, b) ∷ []) h,
  k ∙ sym (append-nil os),
  t,
  n,
)
add_block-Holds as_user b ss os c (h, k, t, n) =
    let (p, q) = add_message_lem as_user b c.messages c.current_message refl n t in
    (
      h ∙ sym (append-nil ss),
      p ∙ ap (λ z. z ++ (as_user, b) ∷ []) k,
      q,
      λ e. absurd (ground (arith, e)),
    )
add_block-Holds as_assistant b ss os c (h, k, t, n) =
    let (p, q) = add_message_lem as_assistant b c.messages c.current_message refl n t in
    (
      h ∙ sym (append-nil ss),
      p ∙ ap (λ z. z ++ (as_assistant, b) ∷ []) k,
      q,
      λ e. absurd (ground (arith, e)),
    )
