-- ===== src/Inference/Statuses.antt =====
-- Which errors `generation_error_from_http` of `src/com/exceptions.py` makes of a status.
use agentica_server.Base.{ℕ, ◌≡◌, ◌↔◌, Bool, true, false, arith}
use agentica_server.Inference.Errors.{
  InferenceError, deadline_exceeded, Converter, matches, generic_error, status_error,
}

abbrev pub is_deadline : InferenceError → Bool
is_deadline deadline_exceeded = true
is_deadline _ = false

generic_not_deadline : (c : Converter) (s : ℕ) → is_deadline (generic_error c s) ≡ false
unfolding generic_error
generic_not_deadline c s = ground arith

-- A status is reported as an exceeded deadline exactly when the provider has set a timeout code
-- that it equals and neither of the two codes that come first equals it.
pub deadline_exceeded_iff :
    (c : Converter) (s : ℕ)
    → (is_deadline (status_error c s) ≡ true) ↔ (
        (matches c.timeout s ≡ true)
        × (matches c.no_model_provider_available s ≡ false)
        × (matches c.model_down_or_invalid_response s ≡ false))
unfolding status_error
deadline_exceeded_iff c s = ground (arith, generic_not_deadline c s)
