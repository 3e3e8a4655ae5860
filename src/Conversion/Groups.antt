-- ===== src/Conversion/Groups.antt =====
-- How `convert_from_deltas` of `src/com/conversion/openai_chat_completions/anthropic.py` groups blocks.
use agentica_server.Base.{
  ◌≡◌, refl, sym, ap, subst, ◌∙◌, Bool, true, false, ◌&&◌, Option, none, some, List, [], ◌∷◌, ◌++◌,
  if◌then◌else◌, append-nil, arith,
}
use agentica_server.Inference.Deltas.{
  Text, user, agent, system, End, eos, max_tokens_reached, stop_token_reached, object_types,
  callable_types,
}
use agentica_server.Conversion.{
  Delta, plain, generated, ChatRole, as_system, converted, and_then, content_of, check_calls,
  require,
}
use agentica_server.Conversion.Anthropic.{
  Block, BlockMessage, same_chat_role, convert_from_role, make_block, make_system_block,
  make_user_block, refuse_name, Chat, add_block, convert_blocks, together, insert_system,
  convert_deltas,
}
use agentica_server.Conversion.Turns.{
  Tagged, IsTurns, turns-IsAlternating, system_part, Holds, add_block-Holds, add_if, add_unless,
  tagged, roles, IsAlternating,
}

module _ {J : Type 0} where
  abbrev pub system_blocks : List (Delta J) → List (ChatRole × Block)
  system_blocks [] = []
  system_blocks (d ∷ ds) =
      let rest = system_blocks ds in
      if same_chat_role as_system (convert_from_role d)
      then (as_system, content_of d) ∷ rest
      else rest

  abbrev pub chat_blocks : List (Delta J) → List (ChatRole × Block)
  chat_blocks [] = []
  chat_blocks (d ∷ ds) =
      let rest = chat_blocks ds in
      if same_chat_role as_system (convert_from_role d)
      then rest
      else (convert_from_role d, content_of d) ∷ rest

abbrev pub has_text : Option Text → Bool
has_text none = false
has_text (some t) = true

abbrev is_nameless : Option Text → Bool
is_nameless none = true
is_nameless (some []) = true
is_nameless (some (c ∷ cs)) = false

abbrev pub makes_no_calls : End → Bool
makes_no_calls eos = true
makes_no_calls (max_tokens_reached c) = true
makes_no_calls (stop_token_reached c b) = true
makes_no_calls object_types = true
makes_no_calls callable_types = false

module _ {J : Type 0} where
  -- Texts of the system and of nameless users, and what the agent says without calls.
  abbrev pub is_sendable : Delta J → Bool
  is_sendable (generated g) = makes_no_calls g.end
  is_sendable (plain (user username) content) = has_text content && is_nameless username
  is_sendable (plain agent content) = true
  is_sendable (plain system content) = has_text content

  abbrev pub all_sendable : List (Delta J) → Bool
  all_sendable [] = true
  all_sendable (d ∷ ds) = is_sendable d && all_sendable ds

pub check_calls_lem :
    {A : Type 0} (e : End) (a : A) → makes_no_calls e ≡ true → check_calls e a ≡ converted a
unfolding check_calls
check_calls_lem eos a h = refl
check_calls_lem (max_tokens_reached c) a h = refl
check_calls_lem (stop_token_reached c b) a h = refl
check_calls_lem object_types a h = refl
check_calls_lem callable_types a h = absurd (ground arith)

make_user_block_lem :
    (u content : Option Text)
    → (has_text content && is_nameless u) ≡ true
    → make_user_block u content ≡ converted content
unfolding make_user_block require refuse_name
make_user_block_lem u none h = absurd (ground arith)
make_user_block_lem none (some t) h = refl
make_user_block_lem (some []) (some t) h = refl
make_user_block_lem (some (c ∷ cs)) (some t) h = absurd (ground arith)

insert_system_lem :
    (o : Option (List Block)) (ms : List BlockMessage)
    → IsTurns (roles ms)
    → (tagged (insert_system o ms) ≡ system_part o ++ tagged ms)
      × IsAlternating (roles (insert_system o ms))
insert_system_lem none ms t = (refl, turns-IsAlternating (roles ms) t)
insert_system_lem (some bs) [] t = (refl, tt)
insert_system_lem (some bs) (m ∷ []) t = (refl, (t, t, tt))
insert_system_lem (some bs) (m ∷ n ∷ ms) t =
    (refl, (t.0, t.0, turns-IsAlternating (roles (m ∷ n ∷ ms)) t))

module _ {J : Type 0} where
  make_block_lem : (d : Delta J) → is_sendable d ≡ true → make_block d ≡ converted (content_of d)
  unfolding make_block make_system_block require
  make_block_lem (generated g) h = check_calls_lem g.end g.content h
  make_block_lem (plain (user u) content) h = make_user_block_lem u content h
  make_block_lem (plain agent content) h = refl
  make_block_lem (plain system (some t)) h = refl
  make_block_lem (plain system none) h = absurd (ground arith)

  convert_blocks-Holds :
      (ds : List (Delta J)) (ss os : Tagged) (c : Chat)
      → all_sendable ds ≡ true
      → Holds ss os c
      → (c' : Chat) × (convert_blocks ds c ≡ converted c')
        × Holds (ss ++ system_blocks ds) (os ++ chat_blocks ds) c'
  unfolding convert_blocks
  convert_blocks-Holds [] ss os c a h = (
    c,
    refl,
    subst (λ z. Holds z (os ++ []) c) (sym (append-nil ss))
        (subst (λ z. Holds ss z c) (sym (append-nil os)) h),
  )
  convert_blocks-Holds (d ∷ ds) ss os c a h =
      let r = convert_from_role d in
      let b = content_of d in
      let s = same_chat_role as_system r in
      let (c', p, q) =
        convert_blocks-Holds ds (ss ++ (if s then (as_system, b) ∷ [] else []))
          (os ++ (if s then [] else (r, b) ∷ [])) (add_block r b c) (ground (arith, a))
          (add_block-Holds r b ss os c h) in
      (
        c',
        ap (λ z. and_then z (λ y. convert_blocks ds (add_block r y c)))
              (make_block_lem d (ground (arith, a)))
            ∙ p,
        subst (λ z. Holds z (os ++ chat_blocks (d ∷ ds)) c')
            (add_if s (as_system, b) ss (system_blocks ds))
            (subst
              (λ z.
                Holds ((ss ++ (if s then (as_system, b) ∷ [] else [])) ++ system_blocks ds) z c')
              (add_unless s (r, b) os (chat_blocks ds)) q),
      )

  -- Deltas of the system and of nameless users that have a text, and what the agent says without
  -- calls, are converted: the blocks are those of the system and then the others, each with the text
  -- and role of its delta and in their order; neighbouring messages have different roles, and only
  -- the first can be the system's.
  pub convert_deltas_grouped :
      (ds : List (Delta J))
      → all_sendable ds ≡ true
      → (ms : List BlockMessage) × (convert_deltas ds ≡ converted ms)
        × (tagged ms ≡ system_blocks ds ++ chat_blocks ds)
        × IsAlternating (roles ms)
  unfolding convert_deltas
  convert_deltas_grouped ds a =
      let start : Chat = record { system_message = none; messages = []; current_message = none } in
      let (c, p, (h, k, t, n)) =
        convert_blocks-Holds ds [] [] start a (refl, refl, tt, λ e. refl) in
      let ms = together c.messages c.current_message in
      let (u, v) = insert_system_lem c.system_message ms t in
      (
        insert_system c.system_message ms,
        ap
            (λ z. and_then z (λ (c : Chat).
              converted (insert_system c.system_message (together c.messages c.current_message))))
            p,
        u ∙ ap (λ z. z ++ tagged ms) h ∙ ap (λ z. system_blocks ds ++ z) k,
        v,
      )
