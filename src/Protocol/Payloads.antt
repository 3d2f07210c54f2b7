-- ===== src/Protocol/Payloads.antt =====
-- crates/hmcl-runtime-protocol/src/lib.rs: the kind and the payload map of each message body.
use aura_rust_runtime_host.Base.{
  ℕ, Bool, true, false, List, [], ◌∷◌, Result, ok, ◌>>=◌, ◌>>◌, bytes_eq, utf8_bytes, if◌then◌else◌,
}
use aura_rust_runtime_host.Codec.Values.{Text, Value, string, bytes, map}
use aura_rust_runtime_host.Protocol.Messages.{
  ProtocolError, invalid, MessageBody, hello, load, enable, invoke, disable, shutdown, done, result,
  error, bridge_invoke, retain_handle, release_handle, callback_result, callback_error, validate,
}
use aura_rust_runtime_host.Protocol.Fields.{
  fields_of, exact_map, get_field, positive_id, nonnegative_id, get_string, get_bytes, id_value,
}

abbrev empty_payload : Value
empty_payload = map (fields_of [])

unfoldable pub handle_payload : ℕ → ℕ → Result ProtocolError Value
handle_payload object_id generation = do
  object ← id_value object_id
  generation_value ← id_value generation
  ok (
      map (
        fields_of
          ((utf8_bytes "objectId", object) ∷ (utf8_bytes "generation", generation_value) ∷ [])))

unfoldable pub to_value : MessageBody → Result ProtocolError (Text × Value)
to_value hello = validate hello >> ok (utf8_bytes "hello", empty_payload)
to_value (load package_root entrypoint plugin_id session) = do
  validate (load package_root entrypoint plugin_id session)
  plugin ← id_value plugin_id
  session_value ← id_value session
  ok (
    utf8_bytes "load",
    map (
        fields_of (
          (utf8_bytes "packageRoot", string package_root)
          ∷ (utf8_bytes "entrypoint", string entrypoint)
          ∷ (utf8_bytes "pluginId", plugin)
          ∷ (utf8_bytes "session", session_value)
          ∷ [])),
  )
to_value enable = validate enable >> ok (utf8_bytes "enable", empty_payload)
to_value (invoke operation input callback_id) = do
  validate (invoke operation input callback_id)
  callback ← id_value callback_id
  ok (
    utf8_bytes "invoke",
    map (
        fields_of (
          (utf8_bytes "operation", string operation)
          ∷ (utf8_bytes "input", bytes input)
          ∷ (utf8_bytes "callbackId", callback)
          ∷ [])),
  )
to_value disable = validate disable >> ok (utf8_bytes "disable", empty_payload)
to_value shutdown = validate shutdown >> ok (utf8_bytes "shutdown", empty_payload)
to_value done = validate done >> ok (utf8_bytes "ok", empty_payload)
to_value (result output) =
    validate (result output)
    >> ok (utf8_bytes "result", map (fields_of ((utf8_bytes "output", bytes output) ∷ [])))
to_value (error code message) =
    validate (error code message)
    >> ok (
      utf8_bytes "error",
      map (
          fields_of
            ((utf8_bytes "code", string code) ∷ (utf8_bytes "message", string message) ∷ [])),
    )
to_value (bridge_invoke operation input) =
    validate (bridge_invoke operation input)
    >> ok (
      utf8_bytes "bridge-invoke",
      map (
          fields_of
            ((utf8_bytes "operation", string operation) ∷ (utf8_bytes "input", bytes input) ∷ [])),
    )
to_value (retain_handle object_id generation) = do
  validate (retain_handle object_id generation)
  payload ← handle_payload object_id generation
  ok (utf8_bytes "retain-handle", payload)
to_value (release_handle object_id generation) = do
  validate (release_handle object_id generation)
  payload ← handle_payload object_id generation
  ok (utf8_bytes "release-handle", payload)
to_value (callback_result output) =
    validate (callback_result output)
    >> ok (utf8_bytes "callback-result", map (fields_of ((utf8_bytes "output", bytes output) ∷ [])))
to_value (callback_error code) =
    validate (callback_error code)
    >> ok (utf8_bytes "callback-error", map (fields_of ((utf8_bytes "code", string code) ∷ [])))

-- A kind whose payload is the empty map.
unfoldable pub decode_empty : MessageBody → Value → Result ProtocolError MessageBody
decode_empty body payload = do fields ← exact_map payload []; ok body

unfoldable pub decode_load : Value → Result ProtocolError MessageBody
decode_load payload = do
  fields ← exact_map payload (
      utf8_bytes "packageRoot"
      ∷ utf8_bytes "entrypoint"
      ∷ utf8_bytes "pluginId"
      ∷ utf8_bytes "session"
      ∷ [])
  root_field ← get_field fields (utf8_bytes "packageRoot")
  package_root ← get_string root_field
  entrypoint_field ← get_field fields (utf8_bytes "entrypoint")
  entrypoint ← get_string entrypoint_field
  plugin_field ← get_field fields (utf8_bytes "pluginId")
  plugin_id ← positive_id plugin_field
  session_field ← get_field fields (utf8_bytes "session")
  session ← positive_id session_field
  ok (load package_root entrypoint plugin_id session)

unfoldable pub decode_invoke : Value → Result ProtocolError MessageBody
decode_invoke payload = do
  fields ←
      exact_map payload (utf8_bytes "operation" ∷ utf8_bytes "input" ∷ utf8_bytes "callbackId" ∷ [])
  operation_field ← get_field fields (utf8_bytes "operation")
  operation ← get_string operation_field
  input_field ← get_field fields (utf8_bytes "input")
  input ← get_bytes input_field
  callback_field ← get_field fields (utf8_bytes "callbackId")
  callback_id ← nonnegative_id callback_field
  ok (invoke operation input callback_id)

-- `result` and `callback-result`
unfoldable pub decode_output : (List ℕ → MessageBody) → Value → Result ProtocolError MessageBody
decode_output body payload = do
  fields ← exact_map payload (utf8_bytes "output" ∷ [])
  output_field ← get_field fields (utf8_bytes "output")
  output ← get_bytes output_field
  ok (body output)

unfoldable pub decode_error : Value → Result ProtocolError MessageBody
decode_error payload = do
  fields ← exact_map payload (utf8_bytes "code" ∷ utf8_bytes "message" ∷ [])
  code_field ← get_field fields (utf8_bytes "code")
  code ← get_string code_field
  message_field ← get_field fields (utf8_bytes "message")
  message ← get_string message_field
  ok (error code message)

unfoldable pub decode_bridge_invoke : Value → Result ProtocolError MessageBody
decode_bridge_invoke payload = do
  fields ← exact_map payload (utf8_bytes "operation" ∷ utf8_bytes "input" ∷ [])
  operation_field ← get_field fields (utf8_bytes "operation")
  operation ← get_string operation_field
  input_field ← get_field fields (utf8_bytes "input")
  input ← get_bytes input_field
  ok (bridge_invoke operation input)

unfoldable pub decode_handle : Value → Bool → Result ProtocolError MessageBody
decode_handle payload retain = do
  fields ← exact_map payload (utf8_bytes "objectId" ∷ utf8_bytes "generation" ∷ [])
  object_field ← get_field fields (utf8_bytes "objectId")
  object_id ← positive_id object_field
  generation_field ← get_field fields (utf8_bytes "generation")
  generation ← positive_id generation_field
  ok (if retain then retain_handle object_id generation else release_handle object_id generation)

unfoldable pub decode_callback_error : Value → Result ProtocolError MessageBody
decode_callback_error payload = do
  fields ← exact_map payload (utf8_bytes "code" ∷ [])
  code_field ← get_field fields (utf8_bytes "code")
  code ← get_string code_field
  ok (callback_error code)

-- The `match` on the kind.
unfoldable pub decode_kind : Text → Value → Result ProtocolError MessageBody
decode_kind kind payload =
    if bytes_eq kind (utf8_bytes "hello")
    then decode_empty hello payload
    else if bytes_eq kind (utf8_bytes "load")
    then decode_load payload
    else if bytes_eq kind (utf8_bytes "enable")
    then decode_empty enable payload
    else if bytes_eq kind (utf8_bytes "invoke")
    then decode_invoke payload
    else if bytes_eq kind (utf8_bytes "disable")
    then decode_empty disable payload
    else if bytes_eq kind (utf8_bytes "shutdown")
    then decode_empty shutdown payload
    else if bytes_eq kind (utf8_bytes "ok")
    then decode_empty done payload
    else if bytes_eq kind (utf8_bytes "result")
    then decode_output result payload
    else if bytes_eq kind (utf8_bytes "error")
    then decode_error payload
    else if bytes_eq kind (utf8_bytes "bridge-invoke")
    then decode_bridge_invoke payload
    else if bytes_eq kind (utf8_bytes "retain-handle")
    then decode_handle payload true
    else if bytes_eq kind (utf8_bytes "release-handle")
    then decode_handle payload false
    else if bytes_eq kind (utf8_bytes "callback-result")
    then decode_output callback_result payload
    else if bytes_eq kind (utf8_bytes "callback-error")
    then decode_callback_error payload
    else invalid "unsupported message kind"

unfoldable pub from_value : Text → Value → Result ProtocolError MessageBody
from_value kind payload = do body ← decode_kind kind payload; validate body; ok body
