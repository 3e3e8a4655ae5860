-- ===== src/Conversion/Answers.antt =====
-- What an answer becomes when it is sent back, by `_to` and `_from` of
-- `src/com/conversion/openai_completions.py`.
use agentica_server.Base.{
  ◌≡◌, refl, ap, subst, ◌∙◌, Bool, true, Option, none, some, List, [], ◌∷◌, if_both,
}
use agentica_server.ModelNames.{codes, same_text}
use agentica_server.Inference.Deltas.{Text, End, Generated}
use agentica_server.Inference.Model.{Constraint}
use agentica_server.Conversion.{
  generated, as_assistant, Converted, failed, converted, and_then, Gives,
}
use agentica_server.Conversion.Anthropic.{
  Block, BlockMessage, new_message, convert_deltas, convert_blocks, make_block, add_block,
  add_message, convert_from_role, Chat, insert_system, together,
}
use agentica_server.Conversion.Choices.{
  Choice, other_reason, match_reason, finish, make_end, convert_to_role, convert_to_delta,
}
use agentica_server.Conversion.Completions.{to_delta}
use agentica_server.Conversion.Groups.{makes_no_calls, check_calls_lem}

and_then-Gives :
    {A B : Type 0} (P : B → Type 0) (Q : A → Type 0) (x : Converted A) (f : A → Converted B)
    → Gives Q x
    → ((a : A) → Q a → Gives P (f a))
    → Gives P (and_then x f)
and_then-Gives P Q (failed e) f h k = tt
and_then-Gives P Q (converted a) f h k = k a h

any-Gives : {A : Type 0} (x : Converted A) → Gives (λ a. Unit) x
any-Gives (failed e) = tt
any-Gives (converted a) = tt

abbrev Callless : Converted End → Type 0
Callless = Gives (λ e. makes_no_calls e ≡ true)

abbrev deliver : Converted Block → Converted (List BlockMessage)
deliver z =
    and_then
      (and_then z λ b. converted (record {
        system_message = none;
        messages = [];
        current_message = some (new_message as_assistant b);
      }))
      λ (c : Chat).
        converted (insert_system c.system_message (together c.messages c.current_message))

module _ {J : Type 0} (streaming : Bool) (cs : List Constraint) (c : Choice J) where
  match_reason-Callless : (r : Text) → Callless (match_reason streaming cs c r)
  unfolding match_reason other_reason
  match_reason-Callless r = if_both Callless (same_text r (codes "tool_calls")) _ _ tt (
      if_both Callless (same_text r (codes "length")) _ _ refl (
        if_both Callless (same_text r (codes "stop")) _ _ refl (
          if_both Callless (same_text r (codes "content_filter")) _ _ refl (
            if_both Callless (same_text r (codes "filter_content")) _ _ refl (
              if_both Callless (same_text r (codes "error")) _ _ tt
                (if_both Callless streaming _ _ refl tt))))))

  finish-Callless : (o : Option Text) → Callless (finish streaming cs c o)
  unfolding finish
  finish-Callless none = refl
  finish-Callless (some []) = refl
  finish-Callless (some (x ∷ xs)) = match_reason-Callless (x ∷ xs)

  make_end-Callless : Callless (make_end streaming cs c)
  unfolding make_end
  make_end-Callless = if_both Callless c.has_tool_calls _ _ tt (finish-Callless c.finish_reason)

  abbrev Said : Generated J → Type 0
  Said g = (makes_no_calls g.end ≡ true) × (g.content ≡ c.content)

  to_delta-Said : (usage : Option J) → Gives Said (to_delta streaming cs c usage)
  unfolding to_delta convert_to_delta
  to_delta-Said usage =
      and_then-Gives Said (λ r. Unit) (convert_to_role c.role c.name) _ (any-Gives _)
        λ role _.
          and_then-Gives Said (λ e. makes_no_calls e ≡ true) (make_end streaming cs c) _
            make_end-Callless λ end h. (h, refl)

  -- Whatever role an answer has, its delta is sent to Anthropic as one message of the assistant, with
  -- the content of the answer as its block.
  pub convert_deltas-to_delta :
      (usage : Option J) (g : Generated J)
      → to_delta streaming cs c usage ≡ converted g
      → convert_deltas (generated g ∷ []) ≡ converted (new_message as_assistant c.content ∷ [])
  unfolding convert_deltas convert_blocks make_block add_block add_message convert_from_role
  convert_deltas-to_delta usage g e =
      let (h, q) : Said g = subst (Gives Said) e (to_delta-Said usage) in
      ap deliver (check_calls_lem g.end g.content h)
      ∙ ap (λ t. converted (new_message as_assistant t ∷ [])) q
