-- ===== src/Host/Serve.antt =====
-- crates/hmcl-rust-host-process/src/server.rs: the dispatch of a command, and the serving loop.
use aura_rust_runtime_host.Base.{
  ℕ, zero, suc, Bool, true, false, Option, none, some, List, Result, ok, err, if◌then◌else◌,
}
use aura_rust_runtime_host.Protocol.Messages.{
  ProtocolError, invalid_data, MessageBody, hello, load, enable, invoke, disable, shutdown,
}
use aura_rust_runtime_host.Protocol.Envelope.{Message, Message_new, is_even}
use aura_rust_runtime_host.Host.Errors.{HostError}
use aura_rust_runtime_host.Host.Bridge.{Streams, send, receive}
use aura_rust_runtime_host.Host.Server.{
  World, State, Platform, error_body, or_error_body, acknowledge, as_output, succeeded,
  Server_hello, Server_load, Server_enable, Server_disable, Server_invoke, Server_shutdown,
  close_on_eof,
}

-- A response, whether the server is to close, and the state and the world behind it.
abbrev pub Handled : Type 0 → Type 0
Handled Q = Result ProtocolError (MessageBody × Bool) × (State Q × World Q)

module _ {Q : Type 0} (platform : Platform Q) where
  abbrev respond : Result HostError MessageBody × (State Q × World Q) → Handled Q
  respond (r, behind) = (ok (or_error_body platform.display r, false), behind)

  abbrev respond_done : Result HostError (Unit {0}) × (State Q × World Q) → Handled Q
  respond_done (r, behind) = (ok (or_error_body platform.display (acknowledge r), false), behind)

  abbrev respond_hello : Result HostError MessageBody × State Q → World Q → Handled Q
  respond_hello (r, state) world = respond (r, (state, world))

  abbrev respond_output : Result HostError (List ℕ) × (State Q × World Q) → Handled Q
  respond_output (r, behind) = (ok (or_error_body platform.display (as_output r), false), behind)

  abbrev respond_shutdown : Result HostError (Unit {0}) × (State Q × World Q) → Handled Q
  respond_shutdown (r, behind) =
      (ok (or_error_body platform.display (acknowledge r), succeeded r), behind)

  unfoldable pub handle : State Q → World Q → MessageBody → Handled Q
  unfolding Server_hello Server_load Server_enable Server_invoke Server_disable Server_shutdown
      error_body
  handle state world hello = respond_hello (Server_hello state) world
  handle state world (load package_root entrypoint plugin_id session) =
      respond (Server_load platform state world package_root entrypoint plugin_id session)
  handle state world enable = respond_done (Server_enable state world)
  handle state world (invoke operation input callback_id) =
      respond_output (Server_invoke state world operation input callback_id)
  handle state world disable = respond_done (Server_disable state world)
  handle state world shutdown = respond_shutdown (Server_shutdown state world)
  handle state world _ =
      (err (invalid_data "child-only message arrived as a parent command"), (state, world))

  -- One turn of the loop: the server goes on from a state and a world, or stops with a result.
  pub data Turn : Type 0 where
    goes_on : State Q → World Q → Turn
    stops : Result ProtocolError (Unit {0}) → State Q → World Q → Turn

  abbrev with_streams : World Q → Streams → World Q
  with_streams ((old, bridge), q) streams = ((streams, bridge), q)

  abbrev finish_turn : Bool → State Q → World Q → Result ProtocolError (Unit {0}) × Streams → Turn
  finish_turn close state world (err e, streams) = stops (err e) state (with_streams world streams)
  finish_turn true state world (ok u, streams) = stops (ok tt) state (with_streams world streams)
  finish_turn false state world (ok u, streams) = goes_on state (with_streams world streams)

  abbrev write_response : Bool → State Q → World Q → Result ProtocolError Message → Turn
  write_response close state world (err e) =
      stops (err (invalid_data "invalid process response")) state world
  write_response close state world (ok message) =
      finish_turn close state world (send message world.0.0)

  abbrev answer_with : ℕ → Handled Q → Turn
  answer_with request_id (err e, (state, world)) = stops (err e) state world
  answer_with request_id (ok (response, close), (state, world)) =
      write_response close state world (Message_new request_id response)

  abbrev stops_closed : State Q × World Q → Turn
  stops_closed (state, world) = stops (ok tt) state world

  abbrev on_message : State Q → World Q → Result ProtocolError (Option Message) → Turn
  on_message state world (err e) = stops (err e) state world
  on_message state world (ok none) = stops_closed (close_on_eof state world)
  on_message state world (ok (some message)) =
      if is_even message.request_id
      then stops (err (invalid_data "callback response arrived outside a callback")) state world
      else answer_with message.request_id (handle state world message.body)

  unfoldable pub turn : State Q → World Q → Turn
  unfolding handle close_on_eof
  turn state world =
      let got = receive world.0.0 in on_message state (with_streams world got.1) got.0

  -- A server that stops is dropped, and its engine with it, which closes: `impl Drop for Engine`.
  abbrev next_turn :
      (State Q → World Q → Option (Result ProtocolError (Unit {0}) × (State Q × World Q)))
      → Turn
      → Option (Result ProtocolError (Unit {0}) × (State Q × World Q))
  next_turn go (goes_on state world) = go state world
  next_turn go (stops r state world) = some (r, close_on_eof state world)

  -- `serve`, for at most so many turns.
  unfoldable pub serve :
      ℕ → State Q → World Q → Option (Result ProtocolError (Unit {0}) × (State Q × World Q))
  unfolding turn close_on_eof
  serve zero state world = none
  serve (suc turns) state world = next_turn (serve turns) (turn state world)
