-- ===== src/WebSocket/ErrorCode.antt =====
-- `boost::system::error_code`, with the codes that the WebSocket objects make up themselves.
use cxx_util.Prelude.{ℕ, Bool, true, false}

-- `other n` is any further code of an error.
pub data ErrorCode : Type 0 where
  success operation_aborted message_size network_down : ErrorCode
  other : ℕ → ErrorCode

-- The conversion of an `error_code` to `bool`.
abbrev pub is_error : ErrorCode → Bool
is_error success = false
is_error _ = true
