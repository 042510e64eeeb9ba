-- ===== src/Auth/Errors.antt =====
-- app/app/application/errors/exceptions.py: what the application raises, with its HTTP status.
use tpl_backend.Base.{ℕ, Text, codes}

pub record AppException : Type 0 where
  pub status_code : ℕ
  pub code : Text
  pub msg : Text

-- Another Python exception than an `AppException`: the caller sees an internal error. `crashed` is a
-- `ValueError`, which some callers catch, and `library_error` any other.
pub data Failure : Type 0 where
  raised : AppException → Failure
  crashed library_error : Failure

abbrev pub bad_request_error : Text → Text → Failure
bad_request_error msg code = raised (record { status_code = 400; code = code; msg = msg })

abbrev pub unauthorized_error : Text → Text → Failure
unauthorized_error msg code = raised (record { status_code = 401; code = code; msg = msg })

abbrev pub auth_required : Failure
auth_required = unauthorized_error (codes "Authentication is required") (codes "auth_required")

-- `forbidden` has the default code.
abbrev pub forbidden_error : Text → Text → Failure
forbidden_error msg code = raised (record { status_code = 403; code = code; msg = msg })

abbrev pub forbidden : Text → Failure
forbidden msg = forbidden_error msg (codes "forbidden")

abbrev pub not_found_error : Text → Text → Failure
not_found_error msg code = raised (record { status_code = 404; code = code; msg = msg })

abbrev pub concurrency_conflict_error : Text → Text → Failure
concurrency_conflict_error msg code = raised (record { status_code = 409; code = code; msg = msg })

abbrev pub validation_error : Text → Text → Failure
validation_error msg code = raised (record { status_code = 422; code = code; msg = msg })

abbrev pub server_error : Text → Failure
server_error msg = raised (record { status_code = 500; code = codes "internal_error"; msg = msg })

abbrev pub bad_gateway_error : Text → Text → Failure
bad_gateway_error msg code = raised (record { status_code = 502; code = code; msg = msg })

abbrev pub service_unavailable_error : Text → Text → Failure
service_unavailable_error msg code = raised (record { status_code = 503; code = code; msg = msg })
