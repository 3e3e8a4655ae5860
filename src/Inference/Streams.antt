-- ===== src/Inference/Streams.antt =====
-- What `ModelInference.infer_streaming` of `src/com/actions_model.py` makes of a stream.
use agentica_server.Base.{
  ◌≡◌, refl, sym, ap, ◌∙◌, Option, none, some, List, [], ◌∷◌, ◌++◌, map, append-nil, append_assoc,
}
use agentica_server.Inference.Deltas.{
  Text, End, eos, Json, Generated, glue_text, glue_end, glue_refusal, glue, glue_all, glue_stream,
}

abbrev pub text_of : Option Text → Text
text_of none = []
text_of (some t) = t

abbrev pub texts : List (Option Text) → Text
texts [] = []
texts (t ∷ ts) = text_of t ++ texts ts

-- The last end that is not the end of the stream.
abbrev pub last_end : End → List End → End
last_end e [] = e
last_end e (eos ∷ es) = last_end e es
last_end e (f ∷ es) = last_end f es

-- The first refusal; one that is empty counts only in the first delta.
abbrev pub first_refusal : Option Text → List (Option Text) → Option Text
first_refusal (some r) rs = some r
first_refusal none [] = none
first_refusal none (none ∷ rs) = first_refusal none rs
first_refusal none (some [] ∷ rs) = first_refusal none rs
first_refusal none (some (c ∷ cs) ∷ rs) = some (c ∷ cs)

glue_text_lem : (a b : Option Text) → text_of (glue_text a b) ≡ text_of a ++ text_of b
unfolding glue_text
glue_text_lem a none = sym (append-nil (text_of a))
glue_text_lem a (some []) = sym (append-nil (text_of a))
glue_text_lem none (some (c ∷ cs)) = refl
glue_text_lem (some t) (some (c ∷ cs)) = refl

last_end-glue : (a b : End) (es : List End) → last_end (glue_end a b) es ≡ last_end a (b ∷ es)
unfolding glue_end
last_end-glue a eos es = refl
last_end-glue a _ es = refl

refusal-glue :
    (a b : Option Text) (rs : List (Option Text))
    → first_refusal (glue_refusal a b) rs ≡ first_refusal a (b ∷ rs)
unfolding glue_refusal
refusal-glue (some r) b rs = refl
refusal-glue none none rs = refl
refusal-glue none (some []) rs = refl
refusal-glue none (some (c ∷ cs)) rs = refl

first_refusal_nil : (r : Option Text) → r ≡ first_refusal r []
first_refusal_nil none = refl
first_refusal_nil (some r) = refl

module _ {J : Type 0} (j : Json J) where
  content-glue_all :
      (g : Generated J) (ds : List (Generated J))
      → text_of (glue_all j g ds).content ≡ text_of g.content ++ texts (map (λ d. d.content) ds)
  unfolding glue_all glue
  content-glue_all g [] = sym (append-nil (text_of g.content))
  content-glue_all g (d ∷ ds) =
      content-glue_all (glue j g d) ds
      ∙ ap (λ (t : Text). t ++ texts (map (λ (x : Generated J). x.content) ds))
          (glue_text_lem g.content d.content)
      ∙ append_assoc (text_of g.content) (text_of d.content)
          (texts (map (λ (x : Generated J). x.content) ds))

  reasoning-glue_all :
      (g : Generated J) (ds : List (Generated J))
      → text_of (glue_all j g ds).reasoning_content
        ≡ text_of g.reasoning_content ++ texts (map (λ d. d.reasoning_content) ds)
  unfolding glue_all glue
  reasoning-glue_all g [] = sym (append-nil (text_of g.reasoning_content))
  reasoning-glue_all g (d ∷ ds) =
      reasoning-glue_all (glue j g d) ds
      ∙ ap (λ (t : Text). t ++ texts (map (λ (x : Generated J). x.reasoning_content) ds))
          (glue_text_lem g.reasoning_content d.reasoning_content)
      ∙ append_assoc (text_of g.reasoning_content) (text_of d.reasoning_content)
          (texts (map (λ (x : Generated J). x.reasoning_content) ds))

  end-glue_all :
      (g : Generated J) (ds : List (Generated J))
      → (glue_all j g ds).end ≡ last_end g.end (map (λ d. d.end) ds)
  unfolding glue_all glue
  end-glue_all g [] = refl
  end-glue_all g (d ∷ ds) =
      end-glue_all (glue j g d) ds ∙ last_end-glue g.end d.end (map (λ (x : Generated J). x.end) ds)

  refusal-glue_all :
      (g : Generated J) (ds : List (Generated J))
      → (glue_all j g ds).refusal ≡ first_refusal g.refusal (map (λ d. d.refusal) ds)
  unfolding glue_all glue
  refusal-glue_all g [] = first_refusal_nil g.refusal
  refusal-glue_all g (d ∷ ds) =
      refusal-glue_all (glue j g d) ds
      ∙ refusal-glue g.refusal d.refusal (map (λ (x : Generated J). x.refusal) ds)

  same-glue_all :
      (g : Generated J) (ds : List (Generated J))
      → ((glue_all j g ds).id ≡ g.id) × ((glue_all j g ds).name ≡ g.name)
  unfolding glue_all glue
  same-glue_all g [] = (refl, refl)
  same-glue_all g (d ∷ ds) = same-glue_all (glue j g d) ds

  -- From a stream that is not empty comes one delta: with the id and the role of the first, the
  -- contents and the reasonings of all in order, the last end that is not the end of the stream,
  -- and the first refusal.
  pub glue_stream_lem :
      (d : Generated J) (ds : List (Generated J))
      → (g : Generated J) × (glue_stream j (d ∷ ds) ≡ some g)
        × ((g.id ≡ d.id) × (g.name ≡ d.name))
        × (text_of g.content ≡ texts (map (λ x. x.content) (d ∷ ds)))
        × (text_of g.reasoning_content ≡ texts (map (λ x. x.reasoning_content) (d ∷ ds)))
        × (g.end ≡ last_end d.end (map (λ x. x.end) ds))
        × (g.refusal ≡ first_refusal d.refusal (map (λ x. x.refusal) ds))
  unfolding glue_stream
  glue_stream_lem d ds = (
    glue_all j d ds,
    refl,
    same-glue_all d ds,
    content-glue_all d ds,
    reasoning-glue_all d ds,
    end-glue_all d ds,
    refusal-glue_all d ds,
  )
