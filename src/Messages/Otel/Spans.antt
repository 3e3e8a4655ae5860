-- ===== src/Messages/Otel/Spans.antt =====
-- Opening and ending a span of `src/messages/otel_notifier.py`: what each keeps.
use agentica_server.Base.{
  ℕ, ◌+◌, ◌≤◌, ◌≡◌, refl, ap, ◌∙◌, Bool, true, false, Option, none, some, [], ◌∷◌, arith, ◌==◌,
  if◌then◌else◌, Dict, get, put, get-put, get-erase, Bool-cases, inl, inr,
}
use agentica_server.Messages.Otel.{
  Role, session, invocation, llm, tool, Status, Span, OTelNotifier, start_span, modify, set_status,
  end_span, tracked, track, untrack, open_span,
}

abbrev pub role_in : Option Span → Option Role
role_in none = none
role_in (some s) = some s.role

abbrev pub ends_in : Option Span → ℕ
ends_in none = 0
ends_in (some s) = s.ends

abbrev pub same : Role → Role → Bool
same session session = true
same (invocation i) (invocation k) = i == k
same (llm i) (llm k) = i == k
same (tool i) (tool k) = i == k
same _ _ = false

same_iff : (a b : Role) → same a b ≡ true → a ≡ b
same_iff session session h = refl
same_iff (invocation i) (invocation k) h = ap invocation {x = i} {y = k} (ground arith)
same_iff (llm i) (llm k) h = ap llm {x = i} {y = k} (ground arith)
same_iff (tool i) (tool k) h = ap tool {x = i} {y = k} (ground arith)
same_iff _ _ h = absurd (cc)

pub same_refl : (r : Role) → same r r ≡ true
same_refl session = refl
same_refl (invocation i) = ground arith
same_refl (llm i) = ground arith
same_refl (tool i) = ground arith

pub get-modify :
    (k j : ℕ) (f : Span → Span) (d : Dict Span)
    → get j (modify k f d)
      ≡ (if k == j then elim (get j d) [ none ↦ none | some s ↦ some (f s) ] else get j d)
unfolding get modify
get-modify k j f [] = ground arith
get-modify k j f ((i, s) ∷ d) = ground (arith, get-modify k j f d)

tracked-track :
    (a b : Role) (s : ℕ) (n : OTelNotifier)
    → tracked a (track b s n) ≡ (if same b a then some s else tracked a n)
unfolding tracked track
tracked-track session session s n = refl
tracked-track (invocation i) (invocation k) s n = get-put k i s n.invocation_spans
tracked-track (llm i) (llm k) s n = get-put k i s n.llm_spans
tracked-track (tool i) (tool k) s n = get-put k i s n.tool_spans
tracked-track _ _ s n = refl

tracked-untrack :
    (a b : Role) (n : OTelNotifier)
    → tracked a (untrack b n) ≡ (if same b a then none else tracked a n)
unfolding tracked untrack
tracked-untrack session session n = refl
tracked-untrack (invocation i) (invocation k) n = get-erase k i n.invocation_spans
tracked-untrack (llm i) (llm k) n = get-erase k i n.llm_spans
tracked-untrack (tool i) (tool k) n = get-erase k i n.tool_spans
tracked-untrack _ _ n = refl

spans-track :
    (r : Role) (s : ℕ) (n : OTelNotifier)
    → ((track r s n).spans ≡ n.spans) × ((track r s n).next ≡ n.next)
unfolding track
spans-track session s n = (refl, refl)
spans-track (invocation i) s n = (refl, refl)
spans-track (llm i) s n = (refl, refl)
spans-track (tool i) s n = (refl, refl)

spans-untrack :
    (r : Role) (n : OTelNotifier) → ((untrack r n).spans ≡ n.spans) × ((untrack r n).next ≡ n.next)
unfolding untrack
spans-untrack session n = (refl, refl)
spans-untrack (invocation i) n = (refl, refl)
spans-untrack (llm i) n = (refl, refl)
spans-untrack (tool i) n = (refl, refl)

-- What a notifier holds does not depend on what the tracer knows.
pub tracked-spans :
    (r : Role) (n : OTelNotifier) (d : Dict Span) (k : ℕ)
    → tracked r (record n { spans = d; next = k }) ≡ tracked r n
unfolding tracked
tracked-spans session n d k = refl
tracked-spans (invocation i) n d k = refl
tracked-spans (llm i) n d k = refl
tracked-spans (tool i) n d k = refl

-- A span that is held is known under its role and not ended, no span is ended twice, and the
-- numbers from `next` on are free.
pub record IsOnce (n : OTelNotifier) : Type 0 where
  pub known : (r : Role) (s : ℕ) → tracked r n ≡ some s → role_in (get s n.spans) ≡ some r
  pub live : (r : Role) (s : ℕ) → tracked r n ≡ some s → ends_in (get s n.spans) ≡ 0
  pub once : (s : ℕ) → ends_in (get s n.spans) ≤ 1
  pub fresh : (s : ℕ) → n.next ≤ s → get s n.spans ≡ none

abbrev new_span : Role → Option ℕ → Span
new_span role parent = record { role = role; parent = parent; status = Status.unset; ends = 0 }

module _ (role : Role) (parent : Option ℕ) (n : OTelNotifier) (h : IsOnce n) where
  tracked-open :
      (r : Role)
      → tracked r (open_span role parent n) ≡ (if same role r then some n.next else tracked r n)
  unfolding open_span start_span
  tracked-open r =
      tracked-track r role n.next (start_span role parent n)
      ∙ ap (λ (o : Option ℕ). if same role r then some n.next else o)
          (tracked-spans r n (put n.next (new_span role parent) n.spans) (n.next + 1))

  spans-open :
      (s : ℕ)
      → get s (open_span role parent n).spans
        ≡ (if n.next == s then some (new_span role parent) else get s n.spans)
  unfolding open_span start_span
  spans-open s =
      ap (get s) (spans-track role n.next (start_span role parent n)).0
      ∙ get-put n.next s (new_span role parent) n.spans

  next-open : (open_span role parent n).next ≡ n.next + 1
  unfolding open_span start_span
  next-open = (spans-track role n.next (start_span role parent n)).1

  known-open :
      (r : Role) (s : ℕ)
      → tracked r (open_span role parent n) ≡ some s
      → role_in (get s (open_span role parent n).spans) ≡ some r
  known-open r s e = elim (Bool-cases (same role r)) [
    | inl b ↦ ground (arith, tracked-open r, spans-open s, same_iff role r b)
    | inr b ↦ ground (arith, tracked-open r, spans-open s, h.known r s, h.fresh s)
  ]

  pub open_span-IsOnce : IsOnce (open_span role parent n)
  open_span-IsOnce = record {
    known = known-open;
    live =
        λ r s e. ground (arith, tracked-open r, spans-open s, h.live r s, h.known r s, h.fresh s);
    once = λ s. ground (arith, spans-open s, h.once s);
    fresh = λ s l. ground (arith, spans-open s, next-open, h.fresh s);
  }

module _ (role : Role) (status : Status) (s : ℕ) (n : OTelNotifier) (h : IsOnce n) where
  abbrev pub ended : OTelNotifier
  ended = end_span s (set_status status s (untrack role n))

  pub tracked-ended : (r : Role) → tracked r ended ≡ (if same role r then none else tracked r n)
  unfolding end_span set_status
  tracked-ended r =
      tracked-spans r (untrack role n) ended.spans ended.next ∙ tracked-untrack r role n

  abbrev pub ended_span : Option Span → Option Span
  ended_span none = none
  ended_span (some sp) = some (record sp { status = status; ends = sp.ends + 1 })

  pub spans-ended :
      (x : ℕ) → get x ended.spans ≡ (if s == x then ended_span (get x n.spans) else get x n.spans)
  unfolding end_span set_status
  spans-ended x =
      let q : (untrack role n).spans ≡ n.spans = (spans-untrack role n).0 in
      ground (
        arith,
        q,
        get-modify s x (λ sp. record sp { ends = sp.ends + 1 })
            (modify s (λ sp. record sp { status = status }) (untrack role n).spans),
        get-modify s x (λ sp. record sp { status = status }) (untrack role n).spans,
      )

  next-ended : ended.next ≡ n.next
  unfolding end_span set_status
  next-ended = (spans-untrack role n).1

  pub ended-IsOnce : tracked role n ≡ some s → IsOnce ended
  ended-IsOnce e = record {
    known = λ r x g. ground (arith, tracked-ended r, spans-ended x, h.known r x);
    live = λ r x g. ground (
      arith,
      tracked-ended r,
      spans-ended x,
      h.live r x,
      h.known r x,
      h.known role s e,
      same_refl role,
      same_refl r,
    );
    once = λ x. ground (arith, spans-ended x, h.once x, h.live role s e);
    fresh = λ x l. ground (arith, spans-ended x, next-ended, h.fresh x);
  }
