-- ===== src/Host/Calls.antt =====
-- crates/hmcl-rust-host-process/src/server.rs: the requests of the bridge and their responses.
use aura_rust_runtime_host.Base.{
  ℕ, ◌+◌, ◌%◌, ◌^◌, ◌<◌, ◌≤◌, ◌≡◌, refl, sym, ap, ◌∙◌, ◌||◌, Option, none, some, Result, ok, err,
  ◌==◌, ltb, arith, Bool-cases, inl, inr, List,
}
use mathlib.Core.Path.{subst}
use aura_rust_runtime_host.Codec.Values.{i64_max}
use aura_rust_runtime_host.Protocol.Messages.{ProtocolError, MessageBody}
use aura_rust_runtime_host.Protocol.Envelope.{Message, Message_new}
use aura_rust_runtime_host.Protocol.Frames.{Reader, read_frame, write_frame, vec_write_all}
use aura_rust_runtime_host.Protocol.MessageRoundTrip.{Message_new-eq-ok_iff}
use aura_rust_runtime_host.Host.Bridge.{
  Streams, ProcessBridge, receive, send, check_response, await_response, exchange, call,
}

-- What lies behind a response: a message of identifier `id` and body `body` was read off the stream,
-- and nothing was written.
abbrev IsResponse : ℕ → Streams → MessageBody → Streams → Type 0
IsResponse id streams body behind =
    (streams.writer ≡ behind.writer)
    × (m : Message) × (read_frame streams.reader ≡ (ok (some m), behind.reader))
    × (m.request_id ≡ id)
    × (m.body ≡ body)

check_response-answers :
    (id : ℕ) (streams behind : Streams) (body : MessageBody)
    → check_response id (receive streams) ≡ (ok body, behind)
    → IsResponse id streams body behind
unfolding check_response
check_response-answers id streams behind body h = by_result (read_frame streams.reader) refl h
  where
    by_result :
        (x : Result ProtocolError (Option Message) × Reader)
        → read_frame streams.reader ≡ x
        → check_response id (x.0, record streams { reader = x.1 }) ≡ (ok body, behind)
        → IsResponse id streams body behind
    by_result (err e, r) p h = cc
    by_result (ok none, r) p h = cc
    by_result (ok (some m), r) p h = elim (Bool-cases (m.request_id == id)) [
      | inr e ↦ let z = rw e at h in absurd cc
      | inl e ↦
          let z = rw e at h in
          let q : r ≡ behind.reader = ap (λ x. x.1.reader) z in
          (ap (λ x. x.1.writer) z, m, p ∙ ap (λ t. (ok (some m), t)) q, ground arith, cc)
    ]

-- What lies behind a call that is answered: `asked` was written, and its response was read.
abbrev pub Exchanged : Message → Streams → MessageBody → Streams → Type 0
Exchanged asked streams answer behind =
    (write_frame vec_write_all asked streams.writer ≡ (ok tt, behind.writer))
    × (m : Message) × (read_frame streams.reader ≡ (ok (some m), behind.reader))
    × (m.request_id ≡ asked.request_id)
    × (m.body ≡ answer)

await_response-answers :
    (asked : Message) (streams behind : Streams) (answer : MessageBody)
    → await_response asked.request_id (send asked streams) ≡ (ok answer, behind)
    → Exchanged asked streams answer behind
unfolding await_response
await_response-answers asked streams behind answer h =
    by_sent (write_frame vec_write_all asked streams.writer) refl h
  where
    by_sent :
        (x : Result ProtocolError (Unit {0}) × List ℕ)
        → write_frame vec_write_all asked streams.writer ≡ x
        → await_response asked.request_id (x.0, record streams { writer = x.1 })
          ≡ (ok answer, behind)
        → Exchanged asked streams answer behind
    by_sent (err e, w) p h = cc
    by_sent (ok u, w) p h =
        let (q, m, r, i, b) =
          check_response-answers asked.request_id (record streams { writer = w }) behind answer h in
        (p ∙ ap (λ t. (ok tt, t)) q, m, r, i, b)

exchange-answers :
    (id : ℕ) (body : MessageBody) (r : Result ProtocolError Message) (streams behind : Streams)
    (answer : MessageBody)
    → Message_new id body ≡ r
    → exchange r streams ≡ (ok answer, behind)
    → Exchanged (record { request_id = id; body = body }) streams answer behind
unfolding exchange
exchange-answers id body (err e) streams behind answer p h = cc
exchange-answers id body (ok asked) streams behind answer p h =
    let (v, same) = (Message_new-eq-ok_iff id body asked).0 p in
    subst (λ m. Exchanged m streams answer behind) (sym same)
      (await_response-answers asked streams behind answer h)

-- A bridge call that is answered wrote the frame of its request, under the bridge's next identifier,
-- which is positive and a signed 64-bit integer, and read one message: that message has the very
-- identifier, and its body is the answer. The bridge's next identifier is two further, modulo 2^64.
pub call-answered :
    (bridge after : ProcessBridge) (streams behind : Streams) (body answer : MessageBody)
    → call bridge streams body ≡ ((ok answer, behind), after)
    → (0 < bridge.next_callback_id)
      × (bridge.next_callback_id ≤ i64_max)
      × (after ≡ record bridge { next_callback_id = (bridge.next_callback_id + 2) % 2 ^ 64 })
      × Exchanged
          (record { request_id = bridge.next_callback_id; body = body })
          streams
          answer
          behind
unfolding call
call-answered bridge after streams behind body answer h =
    let n = bridge.next_callback_id in
    elim (Bool-cases (n == 0 || ltb i64_max n)) [
      | inl e ↦ let z = rw e at h in absurd cc
      | inr e ↦
          let z = rw e at h in
          (
            ground arith,
            ground arith,
            sym (ap (λ x. x.1) z),
            exchange-answers n body (Message_new n body) streams behind answer refl
                (ap (λ x. x.0) z),
          )
    ]
