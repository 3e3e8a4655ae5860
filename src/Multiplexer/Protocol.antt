-- ===== src/Multiplexer/Protocol.antt =====
-- The messages that `src/server_session_manager/multiplexer.py` matches on and sends, as far as it
-- reads or fills their fields. Payloads, prompts and ids are numbers.
use agentica_server.Base.{ℕ, Bool, Option}

pub record Invoke : Type 0 where
  pub match_id : ℕ
  pub uid : ℕ
  pub warp_locals_payload : ℕ
  pub prompt : Option ℕ
  pub streaming : Bool
  pub parent_uid : Option ℕ
  pub parent_iid : Option ℕ

pub data ClientMessage : Type 0 where
  message_invoke : Invoke → ClientMessage
  message_cancel : ℕ → ℕ → ClientMessage
  message_data : ℕ → ℕ → ℕ → ClientMessage

pub data ErrorName : Type 0 where
  malformed_invoke too_many_invocations not_running internal_server_error : ErrorName

pub record ErrorMessage : Type 0 where
  pub iid : ℕ
  pub name : ErrorName
  pub uid : Option ℕ
  pub session_id : Option ℕ
  pub session_manager_id : Option ℕ

pub data Event : Type 0 where
  enter error exit : Event

pub data ServerMessage : Type 0 where
  error_message : ErrorMessage → ServerMessage
  new_iid : ℕ → ℕ → ℕ → ServerMessage
  invocation_event : ℕ → ℕ → Event → ServerMessage

-- The connection's own transport, or that of the notifier which all connections share.
pub data Channel : Type 0 where
  own_channel server_channel : Channel
