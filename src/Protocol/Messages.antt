-- ===== src/Protocol/Messages.antt =====
-- crates/hmcl-runtime-protocol/src/lib.rs: message bodies and their scalar constraints.
use aura_rust_runtime_host.Base.{
  ℕ, Bool, true, false, not, ◌&&◌, ◌||◌, List, [], ◌∷◌, String, Result, ok, err, ◌>>◌, ltb, ◌==◌,
  if◌then◌else◌, length,
}
use aura_rust_runtime_host.Codec.Values.{Text, i64_max}
use aura_rust_runtime_host.Codec.Utf8.{is_blank, is_ascii_lowercase, is_ascii_digit}

-- `io::ErrorKind`, as far as the program tells the kinds apart.
pub data IoErrorKind : Type 0 where
  interrupted unexpected_eof : IoErrorKind
  other : ℕ → IoErrorKind

pub data ProtocolError : Type 0 where
  io : IoErrorKind → ProtocolError
  invalid_data : String → ProtocolError

abbrev pub invalid {ℓ} : {A : Type ℓ} → String → Result ProtocolError A
invalid message = err (invalid_data message)

pub data MessageBody : Type 0 where
  hello : MessageBody
  load : (package_root entrypoint : Text) (plugin_id session : ℕ) → MessageBody
  enable : MessageBody
  invoke : (operation : Text) (input : List ℕ) (callback_id : ℕ) → MessageBody
  disable shutdown done : MessageBody
  result : (output : List ℕ) → MessageBody
  error : (code message : Text) → MessageBody
  bridge_invoke : (operation : Text) (input : List ℕ) → MessageBody
  retain_handle release_handle : (object_id generation : ℕ) → MessageBody
  callback_result : (output : List ℕ) → MessageBody
  callback_error : (code : Text) → MessageBody

unfoldable pub uses_even_request_id : MessageBody → Bool
uses_even_request_id (bridge_invoke operation input) = true
uses_even_request_id (retain_handle object_id generation) = true
uses_even_request_id (release_handle object_id generation) = true
uses_even_request_id (callback_result output) = true
uses_even_request_id (callback_error code) = true
uses_even_request_id _ = false

abbrev pub Checked : Type 0
Checked = Result ProtocolError (Unit {0})

unfoldable pub require_text : Text → String → Checked
require_text value message = if is_blank value then invalid message else ok tt

unfoldable pub require_positive : ℕ → String → Checked
require_positive identifier message =
    if identifier == 0 || ltb i64_max identifier then invalid message else ok tt

unfoldable pub require_nonnegative : ℕ → String → Checked
require_nonnegative identifier message = if ltb i64_max identifier then invalid message else ok tt

-- The loop of `require_code` over the bytes behind the first; its value is `separator` at the end,
-- or nothing where the loop returned its error.
unfoldable pub kebab_rest : Bool → List ℕ → Bool
kebab_rest separator [] = not separator
kebab_rest separator (b ∷ bs) =
    let after_separator = kebab_rest true bs in
    let after_letter = kebab_rest false bs in
    if b == b'-'
    then (if separator then false else after_separator)
    else if is_ascii_lowercase b || is_ascii_digit b
    then after_letter
    else false

unfoldable pub is_code : Text → Bool
unfolding kebab_rest
is_code [] = false
is_code (b ∷ bs) = is_ascii_lowercase b && kebab_rest false bs && not (ltb 128 (length (b ∷ bs)))

unfoldable pub require_code : Text → Checked
require_code code =
    if is_code code then ok tt else invalid "error code must be lower-case kebab text"

unfoldable pub validate : MessageBody → Checked
validate (load package_root entrypoint plugin_id session) =
    require_text package_root "package root must not be blank"
    >> require_text entrypoint "entrypoint must not be blank"
    >> require_positive plugin_id "plugin ID must be positive"
    >> require_positive session "session ID must be positive"
validate (invoke operation input callback_id) =
    require_text operation "operation must not be blank"
    >> require_nonnegative callback_id "callback ID exceeds signed-64 range"
validate (error code message) =
    require_code code
    >> require_text message "error message must not be blank"
    >> (if ltb 4096 (length message)
        then invalid "error message exceeds 4096 UTF-8 bytes"
        else ok tt)
validate (bridge_invoke operation input) =
    require_text operation "Bridge operation must not be blank"
validate (retain_handle object_id generation) =
    require_positive object_id "object ID must be positive"
    >> require_positive generation "handle generation must be positive"
validate (release_handle object_id generation) =
    require_positive object_id "object ID must be positive"
    >> require_positive generation "handle generation must be positive"
validate (callback_error code) = require_code code
validate _ = ok tt
