-- ===== src/Protocol/Envelope.antt =====
-- crates/hmcl-runtime-protocol/src/lib.rs: messages and their envelope.
use aura_rust_runtime_host.Base.{
  ℕ, ◌%◌, Bool, false, not, ◌||◌, List, [], ◌∷◌, Result, ok, or_err, ◌>>=◌, ◌>>◌, utf8_bytes, ltb,
  ◌==◌, if◌then◌else◌,
}
use mathlib.Core.Bool.{xor}
use aura_rust_runtime_host.Base.Int.{ℤ, pos, negsuc}
use aura_rust_runtime_host.Codec.Encoder.{to_wire}
use aura_rust_runtime_host.Codec.Decoder.{from_wire}
use aura_rust_runtime_host.Codec.Values.{Value, Text, integer, string, map, i64_max}
use aura_rust_runtime_host.Protocol.Messages.{
  ProtocolError, invalid, invalid_data, MessageBody, uses_even_request_id, validate,
}
use aura_rust_runtime_host.Protocol.Fields.{
  fields_of, exact_map, get_field, get_integer, positive_id, get_string,
}
use aura_rust_runtime_host.Protocol.Payloads.{to_value, from_value}

abbrev pub protocol_version : ℕ
protocol_version = 1

pub record Message : Type 0 where
  pub request_id : ℕ
  pub body : MessageBody

-- `request_id.is_multiple_of(2)`
abbrev pub is_even : ℕ → Bool
is_even n = n % 2 == 0

unfoldable pub Message_new : ℕ → MessageBody → Result ProtocolError Message
Message_new request_id body =
    if request_id == 0 || ltb i64_max request_id
    then invalid "request ID must be a positive signed-64 integer"
    else if xor (is_even request_id) (uses_even_request_id body)
    then invalid "request ID belongs to the other protocol direction"
    else validate body >> ok (record { request_id = request_id; body = body })

-- The envelope's map.
abbrev pub envelope : Text → Value → ℕ → Value
envelope kind payload request_id = map (
    fields_of (
      (utf8_bytes "protocolVersion", integer (pos protocol_version))
      ∷ (utf8_bytes "requestId", integer (pos request_id))
      ∷ (utf8_bytes "kind", string kind)
      ∷ (utf8_bytes "payload", payload)
      ∷ []))

unfoldable pub message_to_wire : Message → Result ProtocolError (List ℕ)
message_to_wire m = do
  (kind, payload) ← to_value m.body
  if ltb i64_max m.request_id
      then invalid "request ID overflow"
      else or_err (invalid_data "message cannot be encoded as Bridge Value v1")
          (to_wire (envelope kind payload m.request_id))

abbrev is_version : ℤ → Bool
is_version (pos n) = n == protocol_version
is_version (negsuc n) = false

-- What `Message::from_wire` does with the decoded value.
unfoldable pub from_envelope : Value → Result ProtocolError Message
from_envelope value = do
  fields ← exact_map value (
      utf8_bytes "protocolVersion"
      ∷ utf8_bytes "requestId"
      ∷ utf8_bytes "kind"
      ∷ utf8_bytes "payload"
      ∷ [])
  version_field ← get_field fields (utf8_bytes "protocolVersion")
  version ← get_integer version_field
  let rest : Result ProtocolError Message = do
    id_field ← get_field fields (utf8_bytes "requestId")
    request_id ← positive_id id_field
    kind_field ← get_field fields (utf8_bytes "kind")
    kind ← get_string kind_field
    payload ← get_field fields (utf8_bytes "payload")
    body ← from_value kind payload
    Message_new request_id body
  if not (is_version version) then invalid "unsupported protocol version" else rest

unfoldable pub message_from_wire : List ℕ → Result ProtocolError Message
message_from_wire input = do
  value ← or_err (invalid_data "invalid Bridge Value v1 message") (from_wire input)
  from_envelope value
