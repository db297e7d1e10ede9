-- ===== src/Common/Error.antt =====
-- app/common/exceptions.py and app/payment/errors.py: the exceptions that the services raise, and
-- those of SQLAlchemy that they catch. A domain error carries its message.
use vyapar_ai.Prelude.{ℕ, String, Bool, true, false}

pub data Error : Type 0 where
  not_found_error : String → Error
  validation_error : String → Error
  authentication_error : String → Error
  authorization_error : String → Error
  tenant_isolation_error : String → Error
  conflict_error : String → Error
  insufficient_stock_error : String → Error
  payment_mismatch_error : String → Error
  payment_provider_unavailable_error : String → Error
  payment_state_error : String → Error
  ai_generation_error : String → Error
  -- Python's ValueError
  value_error : String → Error
  -- sqlalchemy.exc.IntegrityError
  integrity_error : Error
  -- `one_or_none` found several rows, or `refresh` found none
  multiple_results_found : Error
  invalid_request_error : Error
  -- an exception of the object storage or of the PDF renderer
  storage_error : String → Error
  -- any other exception of the database or its driver
  database_error : ℕ → Error

-- `except ConflictError`: the class and its subclasses.
abbrev pub is_conflict : Error → Bool
is_conflict (conflict_error _) = true
is_conflict (insufficient_stock_error _) = true
is_conflict (payment_state_error _) = true
is_conflict _ = false

-- `except IntegrityError`
abbrev pub is_integrity : Error → Bool
is_integrity integrity_error = true
is_integrity _ = false

-- `except DomainError`
abbrev pub is_domain : Error → Bool
is_domain (value_error _) = false
is_domain integrity_error = false
is_domain (storage_error _) = false
is_domain multiple_results_found = false
is_domain invalid_request_error = false
is_domain (database_error _) = false
is_domain _ = true

-- The class attribute `status_code`, which a subclass inherits unless it sets its own; 500 is what
-- the handler answers for an exception that is no `DomainError`.
pub status_code : Error → ℕ
status_code (not_found_error _) = 404
status_code (validation_error _) = 422
status_code (authentication_error _) = 401
status_code (authorization_error _) = 403
status_code (tenant_isolation_error _) = 403
status_code (conflict_error _) = 409
status_code (insufficient_stock_error _) = 409
status_code (payment_mismatch_error _) = 422
status_code (payment_provider_unavailable_error _) = 502
status_code (payment_state_error _) = 409
status_code (ai_generation_error _) = 502
status_code _ = 500

-- The class attribute `code`.
pub error_code : Error → String
error_code (not_found_error _) = "not_found"
error_code (validation_error _) = "validation_error"
error_code (authentication_error _) = "authentication_error"
error_code (authorization_error _) = "authorization_error"
error_code (tenant_isolation_error _) = "tenant_isolation_error"
error_code (conflict_error _) = "conflict"
error_code (insufficient_stock_error _) = "insufficient_stock"
error_code (payment_mismatch_error _) = "payment_mismatch"
error_code (payment_provider_unavailable_error _) = "payment_provider_unavailable"
error_code (payment_state_error _) = "payment_state_error"
error_code (ai_generation_error _) = "ai_generation_failed"
error_code _ = "internal_error"
