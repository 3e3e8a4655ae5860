-- ===== src/ModelNames/Tests.antt =====
-- Tests of `src/agentic/models.py`.
use agentica_server.Base.{◌≡◌, refl, true, false, some}
use agentica_server.ModelNames.{
  codes, ProviderModel, bad_model, parsed, invalid_provider, invalid_openrouter_model,
  invalid_model, parse, validate_openrouter_model,
}
use agentica_server.ModelNames.Identifiers.{IsSpelled, parse-identifier}

abbrev gpt : ProviderModel
gpt = record {
  provider = codes "openai";
  model = codes "gpt-5";
  identifier = codes "openai:gpt-5";
  endpoint_identifier = codes "openai/gpt-5";
}

abbrev other : ProviderModel
other = record {
  provider = codes "meta";
  model = codes "llama/3";
  identifier = codes "openrouter:meta/llama/3";
  endpoint_identifier = codes "meta/llama/3";
}

parses_gpt : parse (codes "openai:gpt-5") ≡ parsed gpt
unfolding parse agentica_server.Tags.strip agentica_server.Tags.find
parses_gpt = refl

parses_other : parse (codes "meta/llama/3") ≡ parsed other
unfolding parse agentica_server.Tags.strip agentica_server.Tags.find
parses_other = refl

parse-identifier_example :
    (parse (codes "openrouter:meta/llama/3") ≡ parsed other) × IsSpelled other
parse-identifier_example = parse-identifier (codes "meta/llama/3") other parses_other

unknown_provider_test : parse (codes "groq:gpt-5") ≡ bad_model (invalid_provider (codes "groq"))
unfolding parse agentica_server.Tags.strip agentica_server.Tags.find
unknown_provider_test = refl

unknown_model_test :
    parse (codes "openai:gpt-6") ≡ bad_model (invalid_model (codes "openai") (codes "gpt-6"))
unfolding parse agentica_server.Tags.strip agentica_server.Tags.find
unknown_model_test = refl

no_slash_test : parse (codes "gpt-5") ≡ bad_model (invalid_openrouter_model (codes "gpt-5"))
unfolding parse agentica_server.Tags.strip agentica_server.Tags.find
no_slash_test = refl

unreachable_test :
    validate_openrouter_model true (λ t. false) gpt
    ≡ some (invalid_openrouter_model (codes "openai/gpt-5"))
unfolding validate_openrouter_model
unreachable_test = refl
