-- ===== src/Exception.antt =====
-- Errors as values (pkg/exception/util.go, and the chains that `fmt.Errorf("...: %w", err)` and
-- `errors.Wrap` build). The text of an error that Go's library makes is abridged.
pub mod Laws
use Prim.Native.String.{◌++◌ as ◌<>◌}
use oci_native_ingress_contr.Common.{
  ℕ, String, Bool, true, false, ◌||◌, Option, none, some, List, [], ◌∷◌, ◌==◌, nat_eq,
}

pub data Error : Type 0 where
  -- `errors.New`, and `fmt.Errorf` with no verb `%w`
  plain : String → Error
  -- a message in front of the error that it wraps
  wrapped : String → Error → Error
  -- `TransientError`, which does not unwrap
  transient : Error → Error
  -- a `common.ServiceError`: its status code and its code
  service : ℕ → String → Error
  -- a `*strconv.NumError` for the text that does not parse
  num_error : String → Error
  -- `multiCertificateCapabilityError`, which has a text of its own and unwraps to its cause
  multi_certificate : Error → Error

pub data Result {ℓ} (A : Type ℓ) : Type ℓ where
  ok : A → Result A
  err : Error → Result A

-- `if err != nil { return errors.Wrap(err, message) }`
abbrev pub wrap {ℓ} : {A : Type ℓ} → String → Result A → Result A
wrap message (ok a) = ok a
wrap message (err e) = err (wrapped message e)

-- An early return with the error.
abbrev pub guard : Bool → Error → Result (Unit {0})
guard false failure = err failure
guard true failure = ok tt

infixl 5 ◌>>=◌ ◌>>◌
-- A block stops at the first error.
abbrev pub ◌>>=◌ {κ ℓ} : {B : Type κ} {A : Type ℓ} → Result A → (A → Result B) → Result B
err failure >>= rest = err failure
ok value >>= rest = rest value

abbrev pub ◌>>◌ {κ} : {B : Type κ} → Result (Unit {0}) → Result B → Result B
first >> second = first >>= (λ _. second)

-- `NotFoundServiceError`
abbrev pub not_found : Error
not_found = service 404 "NotFound"

-- `ConflictServiceError`
abbrev pub conflict : Error
conflict = service 409 "Conflict"

-- `multiCertificateCapabilityErrorMessage` (pkg/loadbalancer/loadbalancer.go)
abbrev multi_certificate_message : String
multi_certificate_message =
    "OCI Load Balancer multi-certificate listeners may not be supported in this tenancy or region; "
    <> "verify enablement or use one certificate"

-- `Error()`
unfoldable pub message : Error → String
message (plain m) = m
message (wrapped m e) = m <> (": " <> message e)
message (transient e) = message e
message (service status code) = code
message (num_error text) = "strconv: parsing " <> text
message (multi_certificate e) = multi_certificate_message

-- `HasTransientError`: `errors.As` walks the chain.
unfoldable pub has_transient_error : Error → Bool
has_transient_error (plain m) = false
has_transient_error (wrapped m e) = has_transient_error e
has_transient_error (transient e) = true
has_transient_error (service status code) = false
has_transient_error (num_error text) = false
has_transient_error (multi_certificate e) = has_transient_error e

-- `GetWrappedError`
unfoldable pub get_wrapped_error : Error → Option Error
get_wrapped_error (transient e) = some e
get_wrapped_error _ = none

-- The status of an error that is itself a `ServiceError` (`common.IsServiceError` does not unwrap).
unfoldable pub service_status : Error → Option ℕ
service_status (service status code) = some status
service_status _ = none

-- `IsServiceError` (pkg/util/util.go)
unfoldable pub is_service_error : Error → ℕ → Bool
unfolding service_status
is_service_error e status = elim (service_status e) [ none ↦ false | some s ↦ s == status ]

-- `AsServiceError` (pkg/util/util.go), without its text
unfoldable pub as_service_error : Error → List ℕ → Bool
unfolding is_service_error
as_service_error e [] = false
as_service_error e (status ∷ codes) = is_service_error e status || as_service_error e codes
