-- ===== src/Core/Errors.antt =====
-- app/core/exceptions.py, the exceptions of the libraries that the program lets through or catches,
-- and the exception handlers of app/main.py.
use Prim.Native.String.{◌++◌}
use fastapi_url_shortener.Base.{ℕ, String}

-- The `AppException` classes with the arguments of their constructors; then `HTTPException`, and
-- what SQLAlchemy, redis-py and Python raise. `dbapi_error` is SQLAlchemy's DBAPIError with its
-- subclasses: IntegrityError where a constraint refuses a row, another where a text is too long for
-- its column. Nothing in the program tells them apart.
pub data Error : Type 0 where
  not_found_error conflict_error authentication_error authorization_error : String → Error
  validation_error rate_limit_error : String → Error
  url_expired_error url_not_found_error short_code_collision_error : Error
  http_exception : ℕ → String → Error
  multiple_results_found dbapi_error redis_error value_error key_error : Error

-- `JSONResponse` with its status code and the message of its body.
pub record ErrorResponse : Type 0 where
  pub status_code : ℕ
  pub message : String

-- `status_code` and `message` of an `AppException`, and the three handlers of `main.py`: one for
-- `AppException`, one for `HTTPException`, and one for all else.
unfoldable pub exception_handler : Error → ErrorResponse
exception_handler (not_found_error resource) = record {
  status_code = 404;
  message = resource ++ " not found";
}
exception_handler (conflict_error m) = record { status_code = 409; message = m }
exception_handler (authentication_error m) = record { status_code = 401; message = m }
exception_handler (authorization_error m) = record { status_code = 403; message = m }
exception_handler (validation_error m) = record { status_code = 422; message = m }
exception_handler (rate_limit_error m) = record { status_code = 429; message = m }
exception_handler url_expired_error = record {
  status_code = 410;
  message = "This short link has expired";
}
exception_handler url_not_found_error = record {
  status_code = 404;
  message = "Short URL" ++ " not found";
}
exception_handler short_code_collision_error = record {
  status_code = 500;
  message = "Failed to generate unique short code";
}
exception_handler (http_exception status detail) = record { status_code = status; message = detail }
exception_handler multiple_results_found = record {
  status_code = 500;
  message = "Internal server error";
}
exception_handler dbapi_error = record { status_code = 500; message = "Internal server error" }
exception_handler redis_error = record { status_code = 500; message = "Internal server error" }
exception_handler value_error = record { status_code = 500; message = "Internal server error" }
exception_handler key_error = record { status_code = 500; message = "Internal server error" }
