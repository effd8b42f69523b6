-- ===== src/BackendSdk/Failure.antt =====
-- packages/backend/src/index.ts: why a connection attempt failed, as the SDK's user sees it.
use zclaudia_gateway.Prelude.{
  ℕ, String, ◌<>◌, includes, if◌then◌else◌, Option, none, some, [], ◌∷◌, List,
}

pub data BackendErrorCode : Type 0 where
  auth_failed gateway_rejected gateway_unreachable handshake_timeout protocol_error connect_failed
        replaced :
      BackendErrorCode

pub record BackendErrorInfo : Type 0 where
  pub code : BackendErrorCode
  pub message : String
  pub gateway_code : Option String
  pub occurred_at : ℕ

-- What a step of an attempt throws: an `AttemptError` with its code and the gateway's, or any other
-- error. The message that the caller of `connect` sees is left out.
pub data Thrown : Type 0 where
  attempt_error : BackendErrorCode → (gateway_code : Option String) → Thrown
  other_error : Thrown

abbrev pub known_gateway_error_codes : List String
known_gateway_error_codes =
    "INVALID_MESSAGE" ∷ "PROTOCOL_VERSION_MISMATCH" ∷ "UNAUTHORIZED" ∷ "BACKEND_OFFLINE"
    ∷ "RATE_LIMITED" ∷ []

unfoldable pub error_message : BackendErrorCode → String
error_message auth_failed = "The gateway refused the credential."
error_message gateway_rejected = "The gateway rejected the handshake."
error_message gateway_unreachable = "The gateway could not be reached."
error_message handshake_timeout = "The gateway did not complete the handshake in time."
error_message protocol_error = "The gateway sent an unexpected handshake response."
error_message connect_failed = "Connecting to the gateway failed."
error_message replaced = "Another connection using the same backend credential replaced this one."

-- the message of a code, and of a known code of the gateway
abbrev describe_code : BackendErrorCode → String → String
unfolding error_message
describe_code gateway_rejected known = "The gateway rejected the handshake (" <> known <> ")."
describe_code code known = error_message code

unfoldable pub describe_failure : Thrown → ℕ → BackendErrorInfo
unfolding error_message
describe_failure other_error now = record {
  code = connect_failed;
  message = error_message connect_failed;
  gateway_code = none;
  occurred_at = now;
}
describe_failure (attempt_error code none) now = record {
  code = code;
  message = error_message code;
  gateway_code = none;
  occurred_at = now;
}
describe_failure (attempt_error code (some g)) now =
    if includes known_gateway_error_codes g
    then record {
      code = code;
      message = describe_code code g;
      gateway_code = some g;
      occurred_at = now;
    }
    else record {
      code = code;
      message = error_message code;
      gateway_code = none;
      occurred_at = now;
    }
