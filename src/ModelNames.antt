-- ===== src/ModelNames.antt =====
-- `ProviderModel` of `src/agentic/models.py`. `validate_openrouter_model` takes the answers of the
-- endpoint.
pub mod Identifiers
mod Tests
use Prim.Native.Char.{code}
use Prim.Native.String.{String}
use agentica_server.Base.{
  ℕ, Bool, true, false, ◌&&◌, Option, none, some, List, [], ◌∷◌, ◌++◌, ◌==◌, if◌then◌else◌,
}
use agentica_server.Tags.{Text, strip, find}

abbrev pub codes : String → Text
codes String.[] = []
codes (String.◌∷◌ c s) = code c ∷ codes s

abbrev pub openrouter_prefix : Text
openrouter_prefix = codes "openrouter:"

pub record ProviderModel : Type 0 where
  pub provider : Text
  pub model : Text
  pub identifier : Text
  pub endpoint_identifier : Text

-- The message of `BadModel`, with the text that it shows.
pub data BadModel : Type 0 where
  invalid_openrouter_model invalid_provider : Text → BadModel
  invalid_model : Text → Text → BadModel

pub data Parsed : Type 0 where
  bad_model : BadModel → Parsed
  parsed : ProviderModel → Parsed

unfoldable pub same_text : Text → Text → Bool
same_text [] [] = true
same_text [] (y ∷ ys) = false
same_text (x ∷ xs) [] = false
same_text (x ∷ xs) (y ∷ ys) = let rest = same_text xs ys in x == y && rest

unfoldable pub lookup {ℓ} : {A : Type ℓ} → Text → List (Text × A) → Option A
unfolding same_text
lookup k [] = none
lookup k ((l, a) ∷ d) = let rest = lookup k d in if same_text k l then some a else rest

-- `provider` and `model` are what stands before and after the first "/".
unfoldable pub parse_split : Text → Option (Text × Text) → Parsed
parse_split pro_mod none = bad_model (invalid_openrouter_model pro_mod)
parse_split pro_mod (some (provider, model)) = parsed (record {
  provider = provider;
  model = model;
  identifier = openrouter_prefix ++ pro_mod;
  endpoint_identifier = pro_mod;
})

unfoldable pub parse_openrouter : Text → Parsed
unfolding parse_split
parse_openrouter pro_mod = parse_split pro_mod (find (codes "/") pro_mod)

unfoldable pub to_openrouter : List (Text × List (Text × Text))
to_openrouter =
    (
      codes "openai",
      (codes "gpt-3.5-turbo", codes "openai/gpt-3.5-turbo-instruct")
          ∷ (codes "gpt-4o", codes "openai/gpt-4o")
          ∷ (codes "gpt-4.1", codes "openai/gpt-4.1")
          ∷ (codes "gpt-5", codes "openai/gpt-5")
          ∷ [],
    )
    ∷ (
      codes "anthropic",
      (codes "claude-sonnet-4", codes "anthropic/claude-sonnet-4")
          ∷ (codes "claude-opus-4.1", codes "anthropic/claude-opus-4.1")
          ∷ (codes "claude-sonnet-4.5", codes "anthropic/claude-sonnet-4.5")
          ∷ (codes "claude-opus-4.5", codes "anthropic/claude-opus-4.5")
          ∷ [],
    )
    ∷ []

unfoldable pub parse_model : Text → Text → Text → Option Text → Parsed
parse_model pro_mod provider model none = bad_model (invalid_model provider model)
parse_model pro_mod provider model (some endpoint_identifier) = parsed (record {
  provider = provider;
  model = model;
  identifier = pro_mod;
  endpoint_identifier = endpoint_identifier;
})

unfoldable pub parse_provider : Text → Text → Text → Option (List (Text × Text)) → Parsed
unfolding parse_model lookup
parse_provider pro_mod provider model none = bad_model (invalid_provider provider)
parse_provider pro_mod provider model (some models) =
    parse_model pro_mod provider model (lookup model models)

-- What stands around the first ":", and around the first "/".
unfoldable pub parse_direct : Text → Option (Text × Text) → Option (Text × Text) → Parsed
unfolding parse_openrouter parse_provider lookup to_openrouter
parse_direct pro_mod none slash = parse_openrouter pro_mod
parse_direct pro_mod (some (provider, model)) (some cut) = parse_openrouter pro_mod
parse_direct pro_mod (some (provider, model)) none =
    parse_provider pro_mod provider model (lookup provider to_openrouter)

unfoldable pub parse_rest : Text → Option Text → Parsed
unfolding parse_openrouter parse_direct
parse_rest pro_mod (some rest) = parse_openrouter rest
parse_rest pro_mod none = parse_direct pro_mod (find (codes ":") pro_mod) (find (codes "/") pro_mod)

unfoldable pub parse : Text → Parsed
unfolding parse_rest
parse pro_mod = parse_rest pro_mod (strip openrouter_prefix pro_mod)

-- `none` where the check passes.
unfoldable pub validate_openrouter_model : Bool → (Text → Bool) → ProviderModel → Option BadModel
validate_openrouter_model is_openrouter openrouter_model_exists m =
    if is_openrouter
    then if openrouter_model_exists m.endpoint_identifier
      then none
      else some (invalid_openrouter_model m.endpoint_identifier)
    else none
