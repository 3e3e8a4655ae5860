-- ===== src/Inference.antt =====
-- A round of inference: `src/com/deltas.py`, `gen_model.py`, `actions_model.py` and `exceptions.py`.
pub mod Deltas
pub mod Errors
pub mod Statuses
pub mod Model
pub mod Rounds
pub mod Streams
pub mod Limits
pub mod Kept
pub mod Retries
pub mod Tests
