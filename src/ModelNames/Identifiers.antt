-- ===== src/ModelNames/Identifiers.antt =====
-- The identifiers that `ProviderModel.parse` of `src/agentic/models.py` gives.
use agentica_server.Base.{
  ℕ, ◌≡◌, refl, ap, subst, ◌∙◌, ◌⊎◌, inl, inr, Bool, false, ◌||◌, ◌==◌, Bool-cases, Option, none,
  some, List, [], ◌∷◌, ◌++◌, arith,
}
use agentica_server.Tags.{Text, strip, first_of, after_char, find}
use agentica_server.ModelNames.{
  codes, openrouter_prefix, ProviderModel, Parsed, bad_model, parsed, lookup, parse_split,
  parse_openrouter, to_openrouter, parse_model, parse_provider, parse_direct, parse_rest, parse,
}

abbrev pub has_char : ℕ → Text → Bool
has_char c [] = false
has_char c (d ∷ s) = (c == d) || has_char c s

-- Before and after stand around the first place of the character in the text.
abbrev pub AroundFirst : ℕ → Text → Text → Text → Type 0
AroundFirst c before after t = (before ++ c ∷ after ≡ t) × (has_char c before ≡ false)

-- Provider and model stand around the first slash of the identifier at the endpoint, which is the
-- identifier less its prefix, or around the first colon of an identifier that has no slash.
abbrev pub IsSpelled : ProviderModel → Type 0
IsSpelled m =
    (AroundFirst b'/' m.provider m.model m.endpoint_identifier
      × (m.identifier ≡ openrouter_prefix ++ m.endpoint_identifier))
    ⊎ (AroundFirst b':' m.provider m.model m.identifier × (has_char b'/' m.identifier ≡ false))

-- What `find` gives for a character: nothing where it does not stand, else its first place.
abbrev FindsFirst : ℕ → Text → Option (Text × Text) → Type 0
FindsFirst c s none = has_char c s ≡ false
FindsFirst c s (some (b, a)) = AroundFirst c b a s

after_char-FindsFirst :
    (c d : ℕ) (s : Text) (o : Option (Text × Text))
    → c == d ≡ false
    → FindsFirst c s o
    → FindsFirst c (d ∷ s) (after_char d o)
unfolding after_char
after_char-FindsFirst c d s none n h = rw n h
after_char-FindsFirst c d s (some (b, a)) n (h, g) = (ap (λ (t : Text). d ∷ t) h, rw n g)

find-FindsFirst : (c : ℕ) (s : Text) → FindsFirst c s (find (c ∷ []) s)
unfolding find strip first_of
find-FindsFirst c [] = refl
find-FindsFirst c (d ∷ s) = elim (Bool-cases (c == d)) [
  | inl e ↦ rw (e, strip, first_of) (ground arith, refl)
  | inr e ↦
      rw (e, strip, first_of)
        (after_char-FindsFirst c d s (find (c ∷ []) s) e (find-FindsFirst c s))
]

abbrev Reparses : Parsed → Type 0
Reparses (bad_model e) = Unit
Reparses (parsed m) = (parse m.identifier ≡ parsed m) × IsSpelled m

prefixed_lem : (r : Text) → parse (openrouter_prefix ++ r) ≡ parse_openrouter r
unfolding parse parse_rest strip
prefixed_lem r = refl

split-Reparses :
    (r : Text) (o : Option (Text × Text))
    → parse_openrouter r ≡ parse_split r o
    → FindsFirst b'/' r o
    → Reparses (parse_split r o)
unfolding parse_split
split-Reparses r none e c = tt
split-Reparses r (some (b, a)) e c = (prefixed_lem r ∙ e, inl (c, refl))

openrouter-Reparses : (r : Text) → Reparses (parse_openrouter r)
unfolding parse_openrouter
openrouter-Reparses r = split-Reparses r (find (codes "/") r) refl (find-FindsFirst b'/' r)

model-Reparses :
    (s p m : Text) (o : Option Text)
    → parse s ≡ parse_model s p m o
    → AroundFirst b':' p m s
    → has_char b'/' s ≡ false
    → Reparses (parse_model s p m o)
unfolding parse_model
model-Reparses s p m none e c n = tt
model-Reparses s p m (some id) e c n = (e, inr (c, n))

provider-Reparses :
    (s p m : Text) (o : Option (List (Text × Text)))
    → parse s ≡ parse_provider s p m o
    → AroundFirst b':' p m s
    → has_char b'/' s ≡ false
    → Reparses (parse_provider s p m o)
unfolding parse_provider
provider-Reparses s p m none e c n = tt
provider-Reparses s p m (some models) e c n = model-Reparses s p m (lookup m models) e c n

direct-Reparses :
    (s : Text) (colon slash : Option (Text × Text))
    → parse s ≡ parse_direct s colon slash
    → FindsFirst b':' s colon
    → FindsFirst b'/' s slash
    → Reparses (parse_direct s colon slash)
unfolding parse_direct
direct-Reparses s none slash e c n = openrouter-Reparses s
direct-Reparses s (some (p, m)) (some cut) e c n = openrouter-Reparses s
direct-Reparses s (some (p, m)) none e c n = provider-Reparses s p m (lookup p to_openrouter) e c n

rest-Reparses : (s : Text) (o : Option Text) → parse s ≡ parse_rest s o → Reparses (parse_rest s o)
unfolding parse_rest
rest-Reparses s (some r) e = openrouter-Reparses r
rest-Reparses s none e =
    direct-Reparses s (find (codes ":") s) (find (codes "/") s) e (find-FindsFirst b':' s)
      (find-FindsFirst b'/' s)

-- The identifier of a model that was parsed is itself accepted and gives the same model. Either the
-- identifier is the prefix and the identifier at the endpoint, and provider and name stand around the
-- first slash of the latter; or the identifier has no slash, and they stand around its first colon.
pub parse-identifier :
    (s : Text) (m : ProviderModel)
    → parse s ≡ parsed m
    → (parse m.identifier ≡ parsed m) × IsSpelled m
unfolding parse
parse-identifier s m e = subst Reparses e (rest-Reparses s (strip openrouter_prefix s) refl)
