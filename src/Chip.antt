-- ===== src/Chip.antt =====
-- What the components take from the Matter SDK: error codes and a connected device. The codes that
-- src/main/ names itself are constructors, every other code of the SDK is `other`.
use matter_hub.Prelude.{ℕ, Option, Bool, true, false}

-- CHIP_ERROR; `no_error` is CHIP_NO_ERROR.
pub data ChipError : Type 0 where
  no_error invalid_argument incorrect_state no_memory internal : ChipError
  other : ℕ → ChipError

-- `DeviceProxy`: the node, and the session that `GetSecureSession` returns.
pub record Device : Type 0 where
  pub node_id : ℕ
  pub secure_session : Option ℕ

-- The test of ReturnErrorOnFailure, and of `CHIP_NO_ERROR != error`.
unfoldable pub failed : ChipError → Bool
failed no_error = false
failed e = true
