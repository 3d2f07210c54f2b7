-- ===== src/Lib.antt =====
-- Aura Rust Runtime Host: the Rust side of a launcher's plugin runtime.
--
-- The program loads a plugin's dynamic library, in its own process or in an isolated one, and passes
-- values between the plugin and the launcher in a canonical binary form. Its parts, and the files
-- that model them:
--
--   Base      shared names: lists and numbers, `Result`, Boolean tests, texts as bytes.
--   Codec     crates/hmcl-plugin-sdk/src/value.rs and error.rs: Bridge Value v1. `to_wire` and
--             `from_wire` are the methods of `Value`; Encoder and Decoder are records of the two
--             structs' fields, and one function per method. Format is the canonical form as a
--             specification: the bytes of a value and the limits it keeps.
--   Protocol  crates/hmcl-runtime-protocol/src/lib.rs: Messages (`MessageBody`, `validate`), Fields
--             and Payloads (`to_value`, `from_value`), Envelope (`Message::new`, `to_wire`,
--             `from_wire`) and Frames (`read_frame`, `write_frame`). Validity says what a
--             message may be, kind by kind.
--   Futures   crates/hmcl-plugin-sdk/src/future.rs: Registry has the registry, its callbacks and its
--             futures. An `Arc<Entry>` is a reference into a store of entries, so that a callback and
--             its future share one. Each function is one critical section, or the sequence of those
--             that one call takes; History is the relation of calls that follow one another, and
--             Sections that of the critical sections of calls that overlap.
--             Wait has the blocking `wait`, over the states that it is woken up in.
--   Abi       crates/hmcl-runtime-abi/src/lib.rs: Statuses, Buffers and Tables are the types that
--             cross the boundary; Negotiation reads and writes tables as bytes, in either byte
--             order (Words); Prefixes and Agreement say when two sides
--             agree, and what is written.
--   Host      crates/hmcl-rust-host-native/src/embedded.rs and error.rs (Errors, Buffers, Transport,
--             Callbacks, Payload, Paths, Engine; Outcomes has the table of a payload's states;
--             Registry, Upkeep and Histories have the invariant of the engine), bridge.rs and
--             jni_api.rs beside it (Java, Exports, Reports), and
--             crates/hmcl-rust-host-process/src/server.rs (Bridge, Server, Serve).
--   Sdk       crates/hmcl-plugin-sdk/src/lib.rs and handle.rs. Leases has the admission to the Host
--             (`HostState`) with every thread's depth, Sessions the invocation gate with its
--             condition variable and the owners of a session: their steps interleave freely. LeaseGate
--             is what the leases promise without their tables. Context and Calls are the methods of
--             `PluginContext`, Objects the `ObjectHandle`, Runtime and Query the exported entry
--             points. Boxes, Delivery, Answers and Loading join them to the callbacks and the boxes
--             of the Host.
--   Examples  each theorem at a concrete input.
--
-- A server owns an engine, an engine its payloads, and a payload its table of buffers. The payload
-- reaches the parent process through the bridge, which writes and reads frames on the server's own
-- streams; frames hold messages, and messages are values of the codec.
--
-- Numbers are naturals: a word is kept below its bound by the code's own tests, or by the
-- hypotheses IsByte, IsU64 and IsI64. A Rust `String` is its UTF-8 bytes, a float its bit pattern. The
-- decoder recurses on the levels that are left of the depth limit, of which `from_wire` gives one
-- more than the limit, so that the refusal of a value too deep is the code's own. The search for a
-- vacant identifier runs for one candidate more than there are entries, as in the code. The serving
-- loop runs for a given number of turns.
--
-- A reader is a list of bytes and failures. The plugin's code, the library loader, the file system,
-- the jni crate, the allocator's addresses and the texts of failures are parameters. A callback of a
-- table is a function of the world that both sides act on; a call that panics gives nothing.
--
-- Not modelled: calls that the Host makes back into a context from within one of its callbacks, but
-- for their leases; poisoned locks; the command line of the isolated process; and the Java host
-- plugin.
pub mod Base
pub mod Codec
pub mod Protocol
pub mod Futures
pub mod Abi
pub mod Host
pub mod Sdk
pub mod Examples
