-- ===== src/Host/Bridge.antt =====
-- crates/hmcl-rust-host-process/src/server.rs: the bridge from a payload back to the parent process.
use aura_rust_runtime_host.Base.{
  ℕ, ◌+◌, ◌%◌, ◌^◌, not, ◌||◌, Option, none, some, List, [], Result, ok, err, ltb, ◌==◌,
  if◌then◌else◌,
}
use aura_rust_runtime_host.Codec.Values.{Text, i64_max}
use aura_rust_runtime_host.Protocol.Messages.{
  ProtocolError, invalid_data, MessageBody, bridge_invoke, retain_handle, release_handle,
  callback_result, callback_error,
}
use aura_rust_runtime_host.Protocol.Envelope.{Message, Message_new}
use aura_rust_runtime_host.Protocol.Frames.{Reader, read_frame, write_frame, vec_write_all}
use aura_rust_runtime_host.Host.Transport.{BridgeTransport}
use aura_rust_runtime_host.Host.Errors.{HostError, java_bridge, invalid_host_result}

-- The two streams of the process.
pub record Streams : Type 0 where
  pub reader : Reader
  pub writer : List ℕ

-- `ProcessBridge`, but for the streams.
pub record ProcessBridge : Type 0 where
  pub plugin_id : ℕ
  pub session : ℕ
  pub next_callback_id : ℕ

abbrev pub ProcessBridge_new : ℕ → ℕ → ProcessBridge
ProcessBridge_new plugin_id session = record {
  plugin_id = plugin_id;
  session = session;
  next_callback_id = 2;
}

unfoldable pub protocol_as_host : ProtocolError → HostError
protocol_as_host (ProtocolError.io k) = HostError.io k
protocol_as_host (invalid_data message) = invalid_host_result

-- `writer.flush()` has nothing to do on a stream in memory.
abbrev pub send : Message → Streams → Result ProtocolError (Unit {0}) × Streams
send message streams =
    let sent = write_frame vec_write_all message streams.writer in
    (sent.0, record streams { writer = sent.1 })

abbrev pub receive : Streams → Result ProtocolError (Option Message) × Streams
receive streams = let got = read_frame streams.reader in (got.0, record streams { reader = got.1 })

-- `call` behind the response.
unfoldable pub check_response :
    ℕ → Result ProtocolError (Option Message) × Streams → Result HostError MessageBody × Streams
unfolding protocol_as_host
check_response request_id (err e, streams) = (err (protocol_as_host e), streams)
check_response request_id (ok none, streams) = (err invalid_host_result, streams)
check_response request_id (ok (some response), streams) =
    if not (response.request_id == request_id)
    then (err invalid_host_result, streams)
    else (ok response.body, streams)

unfoldable pub await_response :
    ℕ → Result ProtocolError (Unit {0}) × Streams → Result HostError MessageBody × Streams
unfolding check_response
await_response request_id (err e, streams) = (err (protocol_as_host e), streams)
await_response request_id (ok u, streams) = check_response request_id (receive streams)

unfoldable pub exchange :
    Result ProtocolError Message → Streams → Result HostError MessageBody × Streams
unfolding await_response
exchange (err e) streams = (err (protocol_as_host e), streams)
exchange (ok message) streams = await_response message.request_id (send message streams)

-- The answer, the streams, and the bridge with its next identifier.
unfoldable pub call :
    ProcessBridge → Streams → MessageBody → (Result HostError MessageBody × Streams) × ProcessBridge
unfolding exchange
call bridge streams body =
    let request_id = bridge.next_callback_id in
    let after : ProcessBridge = record bridge { next_callback_id = (request_id + 2) % 2 ^ 64 } in
    if request_id == 0 || ltb i64_max request_id
    then ((err invalid_host_result, streams), after)
    else (exchange (Message_new request_id body) streams, after)

abbrev pub invoke_answer : Result HostError MessageBody → Result HostError (List ℕ)
invoke_answer (ok (callback_result output)) = ok output
invoke_answer (ok (callback_error code)) = err java_bridge
invoke_answer (ok _) = err invalid_host_result
invoke_answer (err e) = err e

unfoldable pub ProcessBridge_invoke :
    ProcessBridge
    → Streams
    → ℕ
    → ℕ
    → Text
    → List ℕ
    → (Result HostError (List ℕ) × Streams) × ProcessBridge
unfolding call
ProcessBridge_invoke bridge streams plugin session operation input =
    if not (plugin == bridge.plugin_id) || not (session == bridge.session)
    then ((err invalid_host_result, streams), bridge)
    else let ((answer, behind), after) = call bridge streams (bridge_invoke operation input) in
      ((invoke_answer answer, behind), after)

abbrev pub handle_answer : Result HostError MessageBody → Result HostError (Unit {0})
handle_answer (ok (callback_result [])) = ok tt
handle_answer (ok (callback_error code)) = err java_bridge
handle_answer (ok _) = err invalid_host_result
handle_answer (err e) = err e

unfoldable pub handle_call :
    ProcessBridge
    → Streams
    → ℕ
    → MessageBody
    → (Result HostError (Unit {0}) × Streams) × ProcessBridge
unfolding call
handle_call bridge streams session body =
    if not (session == bridge.session)
    then ((err invalid_host_result, streams), bridge)
    else let ((answer, behind), after) = call bridge streams body in
      ((handle_answer answer, behind), after)

unfoldable pub ProcessBridge_retain_handle :
    ProcessBridge → Streams → ℕ → ℕ → ℕ → (Result HostError (Unit {0}) × Streams) × ProcessBridge
unfolding handle_call
ProcessBridge_retain_handle bridge streams session object_id generation =
    handle_call bridge streams session (retain_handle object_id generation)

unfoldable pub ProcessBridge_release_handle :
    ProcessBridge → Streams → ℕ → ℕ → ℕ → (Result HostError (Unit {0}) × Streams) × ProcessBridge
unfolding handle_call
ProcessBridge_release_handle bridge streams session object_id generation =
    handle_call bridge streams session (release_handle object_id generation)

abbrev pub regroup :
    {A : Type 0}
    → (Result HostError A × Streams) × ProcessBridge
    → Result HostError A × (Streams × ProcessBridge)
regroup ((r, streams), bridge) = (r, (streams, bridge))

-- `impl BridgeTransport for ProcessBridge`, on the streams and the bridge.
unfoldable pub process_transport : BridgeTransport (Streams × ProcessBridge)
unfolding ProcessBridge_invoke ProcessBridge_retain_handle ProcessBridge_release_handle
process_transport = record {
  invoke_bridge = λ plugin session operation input (streams, bridge).
      regroup (ProcessBridge_invoke bridge streams plugin session operation input);
  retain_bridge = λ session object_id generation (streams, bridge).
      regroup (ProcessBridge_retain_handle bridge streams session object_id generation);
  release_bridge = λ session object_id generation (streams, bridge).
      regroup (ProcessBridge_release_handle bridge streams session object_id generation);
}
