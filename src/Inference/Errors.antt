-- ===== src/Inference/Errors.antt =====
-- `generation_error_from_http` of `src/com/exceptions.py`, with the status codes of a converter,
-- `src/com/conversion/abstract.py`. A status is a number, as its decimal text is to the code.
use agentica_server.Base.{ℕ, Bool, false, Option, none, some, ◌==◌, if◌then◌else◌}

pub data InferenceError : Type 0 where
  overloaded service_unavailable deadline_exceeded insufficient_credits permission_denied :
      InferenceError
  rate_limit bad_request unauthorized not_found conflict unprocessable_entity : InferenceError
  request_too_large internal_server api_timeout api_connection : InferenceError

-- The exceptions of `httpx`: a status, a timeout, or another error.
pub data HttpError : Type 0 where
  status : ℕ → HttpError
  timed_out other_error : HttpError

pub record Converter : Type 0 where
  pub no_model_provider_available : Option ℕ
  pub model_down_or_invalid_response : Option ℕ
  pub timeout : Option ℕ
  pub insufficient_credits : Option ℕ
  pub moderation : Option ℕ
  pub rate_limit : ℕ
  pub bad_request : ℕ
  pub unauthorized : ℕ
  pub permission_denied : ℕ
  pub not_found : ℕ
  pub conflict : ℕ
  pub unprocessable_entity : ℕ
  pub request_too_large : ℕ
  pub overloaded : ℕ
  pub service_unavailable : ℕ

-- The class attributes of `Converter`.
abbrev pub default_codes : Converter
default_codes = record {
  no_model_provider_available = none;
  model_down_or_invalid_response = none;
  timeout = none;
  insufficient_credits = some 402;
  moderation = none;
  rate_limit = 429;
  bad_request = 400;
  unauthorized = 401;
  permission_denied = 403;
  not_found = 404;
  conflict = 409;
  unprocessable_entity = 422;
  request_too_large = 413;
  overloaded = 529;
  service_unavailable = 503;
}

-- code and status == code
unfoldable pub matches : Option ℕ → ℕ → Bool
matches none s = false
matches (some code) s = s == code

unfoldable pub generic_error : Converter → ℕ → InferenceError
generic_error c s =
    if s == c.rate_limit
    then InferenceError.rate_limit
    else if s == c.bad_request
    then InferenceError.bad_request
    else if s == c.unauthorized
    then InferenceError.unauthorized
    else if s == c.permission_denied
    then InferenceError.permission_denied
    else if s == c.not_found
    then InferenceError.not_found
    else if s == c.conflict
    then InferenceError.conflict
    else if s == c.unprocessable_entity
    then InferenceError.unprocessable_entity
    else if s == c.request_too_large
    then InferenceError.request_too_large
    else if s == c.overloaded
    then InferenceError.overloaded
    else if s == c.service_unavailable
    then InferenceError.service_unavailable
    else internal_server

-- The codes that a provider may set come first.
unfoldable pub status_error : Converter → ℕ → InferenceError
unfolding matches generic_error
status_error c s =
    if matches c.no_model_provider_available s
    then InferenceError.overloaded
    else if matches c.model_down_or_invalid_response s
    then InferenceError.service_unavailable
    else if matches c.timeout s
    then deadline_exceeded
    else if matches c.insufficient_credits s
    then InferenceError.insufficient_credits
    else if matches c.moderation s
    then InferenceError.permission_denied
    else generic_error c s

unfoldable pub generation_error_from_http : Converter → HttpError → InferenceError
unfolding status_error
generation_error_from_http c (status s) = status_error c s
generation_error_from_http c timed_out = api_timeout
generation_error_from_http c other_error = api_connection
