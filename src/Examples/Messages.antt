-- ===== src/Examples/Messages.antt =====
-- crates/hmcl-runtime-protocol/src/lib.rs: one message, its frame, and streams that end.
use aura_rust_runtime_host.Base.{
  ℕ, ◌+◌, ◌%◌, ◌^◌, ◌<◌, ◌≤◌, take, ltb, if◌then◌else◌, ◌≡◌, ◌↔◌, refl, List, [], ◌∷◌, ◌++◌, All,
  ◌∙◌, ap, length, some, none, Result, ok, err, arith,
}
use aura_rust_runtime_host.Codec.Bytes.{are_bytes-All, to_be_bytes}
use aura_rust_runtime_host.Codec.Utf8.{is_utf8, is_blank}
use aura_rust_runtime_host.Codec.Encoder.{to_wire}
use mathlib.Core.Bool.{xor}
use aura_rust_runtime_host.Codec.Values.{i64_max}
use aura_rust_runtime_host.Protocol.Messages.{
  ProtocolError, invalid_data, bridge_invoke, callback_result, interrupted, validate,
  uses_even_request_id, require_text,
}
use aura_rust_runtime_host.Protocol.Envelope.{
  Message, Message_new, message_to_wire, message_from_wire,
}
use aura_rust_runtime_host.Protocol.Payloads.{to_value}
use aura_rust_runtime_host.Protocol.Typing.{TypedBody}
use aura_rust_runtime_host.Protocol.MessageRoundTrip.{
  ValidMessage, message_from_wire-message_to_wire, message_from_wire-ValidMessage,
}
use aura_rust_runtime_host.Protocol.Validity.{IsValidBody, parity, Message_new_lem}
use aura_rust_runtime_host.Protocol.Frames.{
  Reader, failure, as_some, read_frame, write_frame, vec_write_all,
}
use aura_rust_runtime_host.Protocol.FrameRoundTrip.{
  delivers, read_frame-write_frame, read_frame-frame_of,
}
use aura_rust_runtime_host.Protocol.FrameEnds.{Interrupted, read_frame-none_iff}
use aura_rust_runtime_host.Protocol.FrameCuts.{read_frame-cut}
use aura_rust_runtime_host.Host.Bridge.{
  Streams, ProcessBridge, ProcessBridge_new, check_response, await_response, exchange, call,
}
use aura_rust_runtime_host.Host.Calls.{Exchanged, call-answered}

abbrev request : Message
request = record { request_id = 2; body = bridge_invoke (97 ∷ []) (1 ∷ 2 ∷ []) }

abbrev bytes_of : Result ProtocolError (List ℕ) → List ℕ
bytes_of (ok bs) = bs
bytes_of (err e) = []

abbrev request_bytes : List ℕ
unfolding message_to_wire to_value validate require_text is_blank to_wire
request_bytes = bytes_of (message_to_wire request)

request_typed : TypedBody request.body
unfolding TypedBody is_utf8
request_typed = ((are_bytes-All (97 ∷ []) refl, refl), are_bytes-All (1 ∷ 2 ∷ []) refl)

request_valid : ValidMessage request.request_id request.body
unfolding ValidMessage uses_even_request_id validate require_text is_blank
request_valid = (omega arith, omega arith, refl, refl)

request_encodes : message_to_wire request ≡ ok request_bytes
unfolding message_to_wire to_value validate require_text is_blank to_wire
request_encodes = refl

message_from_wire-message_to_wire_example : message_from_wire request_bytes ≡ ok request
message_from_wire-message_to_wire_example =
    message_from_wire-message_to_wire request request_bytes request_typed request_valid
      request_encodes

message_from_wire-ValidMessage_example : ValidMessage 2 request.body
message_from_wire-ValidMessage_example =
    message_from_wire-ValidMessage request_bytes request message_from_wire-message_to_wire_example

Message_new_lem_example : (Message_new 2 (bridge_invoke (97 ∷ []) (1 ∷ 2 ∷ [])) ≡ ok request) ↔ (
    (0 < 2)
    × (2 ≤ i64_max)
    × (2 % 2 ≡ parity (bridge_invoke (97 ∷ []) (1 ∷ 2 ∷ [])))
    × IsValidBody (bridge_invoke (97 ∷ []) (1 ∷ 2 ∷ []))
    × (record { request_id = 2; body = bridge_invoke (97 ∷ []) (1 ∷ 2 ∷ []) } ≡ request))
Message_new_lem_example = Message_new_lem 2 (bridge_invoke (97 ∷ []) (1 ∷ 2 ∷ [])) request

abbrev written : List ℕ
unfolding write_frame message_to_wire to_value validate require_text is_blank to_wire
written = (write_frame vec_write_all request (7 ∷ [])).1

request-written : write_frame vec_write_all request (7 ∷ []) ≡ (ok tt, written)
unfolding write_frame message_to_wire to_value validate require_text is_blank to_wire
request-written = refl

read_frame-write_frame_example :
    (frame : List ℕ) × (written ≡ 7 ∷ frame)
    × ((r : Reader) → read_frame (delivers frame ++ r) ≡ (ok (some request), r))
read_frame-write_frame_example =
    read_frame-write_frame request (7 ∷ []) written request_typed request_valid request-written

-- The frame of the request, and a stream that holds it alone.
abbrev request_frame : List ℕ
request_frame = to_be_bytes 4 (length request_bytes) ++ request_bytes

abbrev request_stream : Reader
request_stream = delivers request_frame ++ []

abbrev at_end : Reader
at_end = []

read_frame-none_iff_example :
    (read_frame (failure interrupted ∷ []) ≡ (ok none, at_end))
    ↔ (All Interrupted (failure interrupted ∷ []) × (at_end ≡ []))
read_frame-none_iff_example = read_frame-none_iff (failure interrupted ∷ []) at_end

read_frame-cut_example : read_frame (delivers (take 5 (to_be_bytes 4 3 ++ 1 ∷ 2 ∷ 3 ∷ []))) ≡ (
  err (invalid_data (if ltb 5 4 then "truncated frame header" else "truncated frame body")),
  [],
)
read_frame-cut_example =
    read_frame-cut 3 5 (1 ∷ 2 ∷ 3 ∷ []) (omega arith, omega arith) (omega arith) (omega arith)

-- A launcher's response to that request.
abbrev response : Message
response = record { request_id = 2; body = callback_result (8 ∷ 9 ∷ []) }

abbrev response_bytes : List ℕ
unfolding message_to_wire to_value validate to_wire
response_bytes = bytes_of (message_to_wire response)

response_typed : TypedBody response.body
unfolding TypedBody
response_typed = are_bytes-All (8 ∷ 9 ∷ []) refl

response_valid : ValidMessage response.request_id response.body
unfolding ValidMessage uses_even_request_id validate
response_valid = (omega arith, omega arith, refl, refl)

response_encodes : message_to_wire response ≡ ok response_bytes
unfolding message_to_wire to_value validate to_wire
response_encodes = refl

abbrev response_stream : Reader
response_stream = delivers (to_be_bytes 4 (length response_bytes) ++ response_bytes) ++ []

response_reads : read_frame response_stream ≡ (ok (some response), [])
unfolding response_bytes
response_reads =
    read_frame-frame_of response_bytes [] (omega arith, omega arith)
    ∙ ap (λ x. (as_some x, []))
        (message_from_wire-message_to_wire response response_bytes response_typed response_valid
          response_encodes)

abbrev streams_at : Reader → List ℕ → Streams
streams_at r w = record { reader = r; writer = w }

abbrev asking : ProcessBridge
asking = ProcessBridge_new 1 2

call_answers :
    call asking (streams_at response_stream (7 ∷ [])) request.body
    ≡ ((ok response.body, streams_at [] written), record asking { next_callback_id = 4 })
unfolding call exchange await_response check_response Message_new write_frame message_to_wire
    to_value validate require_text is_blank to_wire uses_even_request_id xor
call_answers =
    ap
      (λ x.
        (check_response 2 (x.0, streams_at x.1 written), record asking { next_callback_id = 4 }))
      response_reads

call-answered_example :
    (0 < 2)
    × (2 ≤ i64_max)
    × (record asking { next_callback_id = 4 }
        ≡ record asking { next_callback_id = (2 + 2) % 2 ^ 64 })
    × Exchanged request (streams_at response_stream (7 ∷ [])) response.body (streams_at [] written)
call-answered_example =
    call-answered asking (record asking { next_callback_id = 4 })
      (streams_at response_stream (7 ∷ [])) (streams_at [] written) request.body response.body
      call_answers
