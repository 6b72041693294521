-- ===== src/Kernel/Errors.antt =====
-- domain/kernel/errors.go. `error` is an interface: a `*DomainError`, with or without a cause, an
-- error that wraps another, or any other error value. A nil error is `none` of an `Option Error`.
use mall.Base.{ℕ, String, Bool, false, Option, none, some, ◌==◌}

pub data ErrorCode : Type 0 where
  not_found already_exists invalid_argument unauthenticated : ErrorCode
  permission_denied internal unavailable conflict : ErrorCode

pub data Error : Type 0 where
  domain : ErrorCode → String → Error
  caused : ErrorCode → String → Error → Error
  wrapped : String → Error → Error
  foreign : String → Error

-- The code's place in the `const` block.
abbrev pub code_number : ErrorCode → ℕ
code_number not_found = 0
code_number already_exists = 1
code_number invalid_argument = 2
code_number unauthenticated = 3
code_number permission_denied = 4
code_number internal = 5
code_number unavailable = 6
code_number conflict = 7

abbrev pub code_eq : ErrorCode → ErrorCode → Bool
code_eq a b = code_number a == code_number b

-- `NewDomainError` and `NewDomainErrorWithCause`.
abbrev pub new_domain_error : ErrorCode → String → Error
new_domain_error code msg = domain code msg

abbrev pub new_domain_error_with_cause : ErrorCode → String → Error → Error
new_domain_error_with_cause code msg cause = caused code msg cause

-- `(*DomainError).Unwrap`, and of the standard library's wrapping errors.
unfoldable pub unwrap : Error → Option Error
unwrap (domain c m) = none
unwrap (caused c m e) = some e
unwrap (wrapped m e) = some e
unwrap (foreign m) = none

-- `errors.As` stops at the first `*DomainError` of the chain.
unfoldable pub has_code : Error → ErrorCode → Bool
has_code (domain c m) code = code_eq c code
has_code (caused c m e) code = code_eq c code
has_code (wrapped m e) code = has_code e code
has_code (foreign m) code = false

unfoldable pub is_not_found : Error → Bool
unfolding has_code
is_not_found e = has_code e not_found

-- A failed check of an argument, by far the most frequent error.
abbrev pub invalid : String → Option Error
invalid msg = some (new_domain_error invalid_argument msg)
