-- ===== src/Conversion/Texts.antt =====
-- The texts that `convert_from_deltas` of `src/com/conversion/openai_chat_completions/openai.py` sends.
use agentica_server.Base.{
  ◌≡◌, refl, sym, ap, ◌∙◌, Bool, true, false, ◌&&◌, Bool-cases, inl, inr, Option, none, some, List,
  [], ◌∷◌, ◌++◌, append-nil, append_assoc, arith,
}
use agentica_server.Inference.Deltas.{Text, Role, user, agent, system, Json, Generated}
use agentica_server.Conversion.{
  Delta, plain, generated, Converted, converted, and_then, as_assistant, name_of, check_calls,
  require,
}
use agentica_server.Conversion.OpenAi.{
  ChatMessage, same_role, or_empty_text, make_system, make_user, with_reasoning, with_content,
  make_audio, make_assistant, convert_from_delta, glue_message, Progress, all_messages,
  begin_message, convert_next, convert_all, convert_from_deltas,
}
use agentica_server.Conversion.Groups.{makes_no_calls, has_text, check_calls_lem}

-- The texts of all messages, one after the other.
abbrev pub texts : List ChatMessage → Text
texts [] = []
texts (m ∷ ms) = or_empty_text m.content ++ texts ms

module _ {J : Type 0} where
  -- The content of a delta and then its reasoning.
  abbrev pub text_of : Delta J → Text
  text_of (plain name content) = or_empty_text content
  text_of (generated g) = or_empty_text g.content ++ or_empty_text g.reasoning_content

  abbrev pub all_texts : List (Delta J) → Text
  all_texts [] = []
  all_texts (d ∷ ds) = text_of d ++ all_texts ds

texts-snoc :
    (ms : List ChatMessage) (m : ChatMessage)
    → texts (ms ++ m ∷ []) ≡ texts ms ++ or_empty_text m.content
texts-snoc [] m = append-nil (or_empty_text m.content)
texts-snoc (n ∷ ms) m =
    ap (λ t. or_empty_text n.content ++ t) (texts-snoc ms m)
    ∙ sym (append_assoc (or_empty_text n.content) (texts ms) (or_empty_text m.content))

with_reasoning_lem :
    (c r : Option Text) → or_empty_text (with_reasoning c r) ≡ or_empty_text c ++ or_empty_text r
unfolding with_reasoning
with_reasoning_lem c none = sym (append-nil (or_empty_text c))
with_reasoning_lem c (some r) = refl

with_content_lem :
    (p c : Option Text) → or_empty_text (with_content p c) ≡ or_empty_text p ++ or_empty_text c
unfolding with_content
with_content_lem p none = sym (append-nil (or_empty_text p))
with_content_lem p (some []) = sym (append-nil (or_empty_text p))
with_content_lem p (some (c ∷ cs)) = refl

abbrev is_absent : {A : Type 0} → Option A → Bool
is_absent none = true
is_absent (some a) = false

module _ {J : Type 0} where
  abbrev said : Generated J → Option Text → ChatMessage
  said g audio = record {
    role = as_assistant;
    content = with_reasoning g.content g.reasoning_content;
    name = none;
    refusal = g.refusal;
    audio = audio;
  }

  glue_message_lem :
      (d : Delta J) (m : ChatMessage)
      → or_empty_text (glue_message d m).content ≡ or_empty_text m.content ++ text_of d
  unfolding glue_message
  glue_message_lem (plain name c) m = with_content_lem m.content c
  glue_message_lem (generated g) m =
      with_reasoning_lem (with_content m.content g.content) g.reasoning_content
      ∙ ap (λ t. t ++ or_empty_text g.reasoning_content) (with_content_lem m.content g.content)
      ∙ append_assoc (or_empty_text m.content) (or_empty_text g.content)
          (or_empty_text g.reasoning_content)

  -- A plain delta of the agent may lack a text, and there is no sound nor call in a generated one.
  abbrev pub is_speakable : Delta J → Bool
  is_speakable (plain (user username) content) = has_text content
  is_speakable (plain agent content) = true
  is_speakable (plain system content) = has_text content
  is_speakable (generated g) = is_absent g.audio && makes_no_calls g.end

  abbrev pub all_speakable : List (Delta J) → Bool
  all_speakable [] = true
  all_speakable (d ∷ ds) = is_speakable d && all_speakable ds

  module _ (j : Json J) (audio_id : J → Option Text) where
    -- One message that has the text of the delta.
    abbrev Speaks : Delta J → Converted ChatMessage → Type 0
    Speaks d c = (m : ChatMessage) × (c ≡ converted m) × (or_empty_text m.content ≡ text_of d)

    make_audio_lem : (o : Option J) → is_absent o ≡ true → make_audio j audio_id o ≡ converted none
    unfolding make_audio
    make_audio_lem none h = refl
    make_audio_lem (some a) h = absurd (ground arith)

    make_user_lem :
        (u c : Option Text)
        → has_text c ≡ true
        → (m : ChatMessage) × (make_user u c ≡ converted m)
          × (or_empty_text m.content ≡ or_empty_text c)
    unfolding make_user require
    make_user_lem u none h = absurd (ground arith)
    make_user_lem u (some t) h = (_, refl, refl)

    make_system_lem :
        (c : Option Text)
        → has_text c ≡ true
        → (m : ChatMessage) × (make_system c ≡ converted m)
          × (or_empty_text m.content ≡ or_empty_text c)
    unfolding make_system require
    make_system_lem none h = absurd (ground arith)
    make_system_lem (some t) h = (_, refl, refl)

    convert_from_delta-Speaks :
        (d : Delta J) → is_speakable d ≡ true → Speaks d (convert_from_delta j audio_id d)
    unfolding convert_from_delta make_assistant make_audio
    convert_from_delta-Speaks (plain (user u) c) h = make_user_lem u c h
    convert_from_delta-Speaks (plain agent c) h = (_, refl, refl)
    convert_from_delta-Speaks (plain system c) h = make_system_lem c h
    convert_from_delta-Speaks (generated g) h = (
      said g none,
      ap (λ z. and_then z (λ (a : Option Text). check_calls g.end (said g a)))
            (make_audio_lem g.audio (ground (arith, h)))
          ∙ check_calls_lem g.end (said g none) (ground (arith, h)),
      with_reasoning_lem g.content g.reasoning_content,
    )

    -- All texts so far, and then that of the delta.
    Adds : Delta J → List ChatMessage → Option (Role × ChatMessage) → Type 0
    Adds d ms cur =
        (t : Progress) × (convert_next j audio_id d ms cur ≡ converted t)
        × (texts (all_messages t)
            ≡ texts (all_messages (record { messages = ms; current = cur })) ++ text_of d)

    begin_message_lem :
        (d : Delta J) (ms : List ChatMessage)
        → is_speakable d ≡ true
        → (t : Progress) × (begin_message j audio_id d ms ≡ converted t)
          × (texts (all_messages t) ≡ texts ms ++ text_of d)
    unfolding begin_message
    begin_message_lem d ms h =
        let (m, e, q) = convert_from_delta-Speaks d h in
        (
          record { messages = ms; current = some (name_of d, m) },
          ap
              (λ z. and_then z (λ (m : ChatMessage).
                converted (record { messages = ms; current = some (name_of d, m) })))
              e,
          texts-snoc ms m ∙ ap (λ t. texts ms ++ t) q,
        )

    convert_next-Adds :
        (d : Delta J) (ms : List ChatMessage) (cur : Option (Role × ChatMessage))
        → is_speakable d ≡ true
        → Adds d ms cur
    unfolding Adds convert_next
    convert_next-Adds d ms none h = begin_message_lem d ms h
    convert_next-Adds d ms (some (r, m)) h = elim (Bool-cases (same_role r (name_of d))) [
      | inl e ↦ (
        record { messages = ms; current = some (r, glue_message d m) },
        rw e refl,
        texts-snoc ms (glue_message d m)
            ∙ ap (λ t. texts ms ++ t) (glue_message_lem d m)
            ∙ sym (append_assoc (texts ms) (or_empty_text m.content) (text_of d))
            ∙ ap (λ t. t ++ text_of d) (sym (texts-snoc ms m)),
      )
      | inr e ↦ rw e (begin_message_lem d (ms ++ m ∷ []) h)
    ]

    convert_all_lem :
        (ds : List (Delta J)) (s : Progress)
        → all_speakable ds ≡ true
        → (t : Progress) × (convert_all j audio_id ds s ≡ converted t)
          × (texts (all_messages t) ≡ texts (all_messages s) ++ all_texts ds)
    unfolding convert_all Adds
    convert_all_lem [] s h = (s, refl, sym (append-nil (texts (all_messages s))))
    convert_all_lem (d ∷ ds) s h =
        let (t, e, q) = convert_next-Adds d s.messages s.current (ground (arith, h)) in
        let (u, e', q') = convert_all_lem ds t (ground (arith, h)) in
        (
          u,
          ap (λ z. and_then z (convert_all j audio_id ds)) e ∙ e',
          q'
              ∙ ap (λ z. z ++ all_texts ds) q
              ∙ append_assoc (texts (all_messages s)) (text_of d) (all_texts ds),
        )

    -- Deltas with the texts that their roles ask for, and no sound and no calls, are converted, and
    -- the messages have all their contents and reasonings, in order.
    pub convert_from_deltas-texts :
        (ds : List (Delta J))
        → all_speakable ds ≡ true
        → (ms : List ChatMessage) × (convert_from_deltas j audio_id ds ≡ converted ms)
          × (texts ms ≡ all_texts ds)
    unfolding convert_from_deltas
    convert_from_deltas-texts ds h =
        let (t, e, q) = convert_all_lem ds (record { messages = []; current = none }) h in
        (all_messages t, ap (λ z. and_then z (λ (s : Progress). converted (all_messages s))) e, q)
