-- ===== src/Errors/Recognition.antt =====
-- The functions `IsXError` of errors.go together.
use manipulate.Prelude.{◌≡◌, ◌↔◌, Bool, true, arith}
use manipulate.Errors.{Kind, Error, typed}
use manipulate.Errors.{
  is_cannot_unmarshal_error, is_cannot_marshal_error, is_object_not_found_error,
  is_multiple_objects_found_error, is_cannot_build_query_error, is_cannot_execute_query_error,
  is_cannot_commit_error, is_not_implemented_error, is_cannot_communicate_error, is_locked_error,
  is_transaction_not_found_error, is_constraint_violation_error, is_disconnected_error,
  is_too_many_requests_error, is_tls_error,
}

-- The function that the package offers for each error type.
unfoldable pub recogniser : Kind → Error → Bool
recogniser Kind.cannot_unmarshal e = is_cannot_unmarshal_error e
recogniser Kind.cannot_marshal e = is_cannot_marshal_error e
recogniser Kind.object_not_found e = is_object_not_found_error e
recogniser Kind.multiple_objects_found e = is_multiple_objects_found_error e
recogniser Kind.cannot_build_query e = is_cannot_build_query_error e
recogniser Kind.cannot_execute_query e = is_cannot_execute_query_error e
recogniser Kind.cannot_commit e = is_cannot_commit_error e
recogniser Kind.not_implemented e = is_not_implemented_error e
recogniser Kind.cannot_communicate e = is_cannot_communicate_error e
recogniser Kind.locked e = is_locked_error e
recogniser Kind.transaction_not_found e = is_transaction_not_found_error e
recogniser Kind.constraint_violation e = is_constraint_violation_error e
recogniser Kind.disconnected e = is_disconnected_error e
recogniser Kind.too_many_requests e = is_too_many_requests_error e
recogniser Kind.tls e = is_tls_error e

-- Each function `IsXError` answers `true` for the errors of its own type, whatever they hold, and
-- for no other: not for another type, not for ErrInvalidQuery, and not for an error that wraps
-- one of its type.
recogniser_exact :
    (k : Kind) (e : Error) → (recogniser k e ≡ true) ↔ ((inner : Error) × (e ≡ typed k inner))
unfolding recogniser is_cannot_unmarshal_error is_cannot_marshal_error is_object_not_found_error
    is_multiple_objects_found_error is_cannot_build_query_error is_cannot_execute_query_error
    is_cannot_commit_error is_not_implemented_error is_cannot_communicate_error is_locked_error
    is_transaction_not_found_error is_constraint_violation_error is_disconnected_error
    is_too_many_requests_error is_tls_error
recogniser_exact Kind.cannot_unmarshal e = ground arith
recogniser_exact Kind.cannot_marshal e = ground arith
recogniser_exact Kind.object_not_found e = ground arith
recogniser_exact Kind.multiple_objects_found e = ground arith
recogniser_exact Kind.cannot_build_query e = ground arith
recogniser_exact Kind.cannot_execute_query e = ground arith
recogniser_exact Kind.cannot_commit e = ground arith
recogniser_exact Kind.not_implemented e = ground arith
recogniser_exact Kind.cannot_communicate e = ground arith
recogniser_exact Kind.locked e = ground arith
recogniser_exact Kind.transaction_not_found e = ground arith
recogniser_exact Kind.constraint_violation e = ground arith
recogniser_exact Kind.disconnected e = ground arith
recogniser_exact Kind.too_many_requests e = ground arith
recogniser_exact Kind.tls e = ground arith
