-- ===== src/Codec/Errors.antt =====
-- crates/hmcl-plugin-sdk/src/error.rs: the redacted error categories and their wire codes.
use aura_rust_runtime_host.Base.{
  ℕ, ◌≡◌, refl, Option, none, some, List, bytes_eq, bytes_eq_sound, utf8_bytes, arith,
  if◌then◌else◌,
}

pub data BridgeErrorKind : Type 0 where
  invalid_argument invalid_result permission_denied stale_handle type_mismatch : BridgeErrorKind
  cancelled callback_failed unavailable internal : BridgeErrorKind

pub record Error : Type 0 where
  pub code : BridgeErrorKind

abbrev pub Error_new : BridgeErrorKind → Error
Error_new k = record { code = k }

unfoldable pub wire_code : BridgeErrorKind → List ℕ
wire_code invalid_argument = utf8_bytes "invalid-argument"
wire_code invalid_result = utf8_bytes "invalid-result"
wire_code permission_denied = utf8_bytes "permission-denied"
wire_code stale_handle = utf8_bytes "stale-handle"
wire_code type_mismatch = utf8_bytes "type-mismatch"
wire_code cancelled = utf8_bytes "cancelled"
wire_code callback_failed = utf8_bytes "callback-failed"
wire_code unavailable = utf8_bytes "unavailable"
wire_code internal = utf8_bytes "internal"

unfoldable pub from_wire_code : List ℕ → Option BridgeErrorKind
from_wire_code value =
    if bytes_eq value (utf8_bytes "invalid-argument")
    then some invalid_argument
    else if bytes_eq value (utf8_bytes "invalid-result")
    then some invalid_result
    else if bytes_eq value (utf8_bytes "permission-denied")
    then some permission_denied
    else if bytes_eq value (utf8_bytes "stale-handle")
    then some stale_handle
    else if bytes_eq value (utf8_bytes "type-mismatch")
    then some type_mismatch
    else if bytes_eq value (utf8_bytes "cancelled")
    then some cancelled
    else if bytes_eq value (utf8_bytes "callback-failed")
    then some callback_failed
    else if bytes_eq value (utf8_bytes "unavailable")
    then some unavailable
    else if bytes_eq value (utf8_bytes "internal")
    then some internal
    else none

-- Every category is read back from its code.
pub from_wire_code-wire_code : (k : BridgeErrorKind) → from_wire_code (wire_code k) ≡ some k
unfolding from_wire_code wire_code bytes_eq
from_wire_code-wire_code invalid_argument = refl
from_wire_code-wire_code _ = refl

-- Nothing else is read as that category.
pub from_wire_code_sound :
    (value : List ℕ) (k : BridgeErrorKind) → from_wire_code value ≡ some k → value ≡ wire_code k
unfolding from_wire_code wire_code
from_wire_code_sound value k h = ground (
  arith,
  bytes_eq_sound value (utf8_bytes "invalid-argument"),
  bytes_eq_sound value (utf8_bytes "invalid-result"),
  bytes_eq_sound value (utf8_bytes "permission-denied"),
  bytes_eq_sound value (utf8_bytes "stale-handle"),
  bytes_eq_sound value (utf8_bytes "type-mismatch"),
  bytes_eq_sound value (utf8_bytes "cancelled"),
  bytes_eq_sound value (utf8_bytes "callback-failed"),
  bytes_eq_sound value (utf8_bytes "unavailable"),
  bytes_eq_sound value (utf8_bytes "internal"),
)
