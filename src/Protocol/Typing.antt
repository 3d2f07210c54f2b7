-- ===== src/Protocol/Typing.antt =====
-- crates/hmcl-runtime-protocol/src/lib.rs: the types of what a message holds.
use aura_rust_runtime_host.Base.{ℕ, ◌≡◌, refl, Bool, true, utf8_bytes, arith, ◌≤◌, All, ◌&&◌}
use aura_rust_runtime_host.Codec.Bytes.{IsByte, are_bytes, are_bytes-All}
use aura_rust_runtime_host.Codec.Utf8.{is_utf8}
use aura_rust_runtime_host.Codec.Values.{Text, i64_max}
use aura_rust_runtime_host.Codec.Format.{WellTyped}
use aura_rust_runtime_host.Protocol.Messages.{
  MessageBody, hello, load, enable, invoke, disable, shutdown, done, result, error, bridge_invoke,
  retain_handle, release_handle, callback_result, callback_error,
}
use aura_rust_runtime_host.Protocol.Bodies.{kind_of, payload_of, IdsInRange}
use aura_rust_runtime_host.Protocol.Envelope.{envelope}

-- A Rust `String`, as the bytes it has.
abbrev pub IsText : Text → Type 0
IsText s = All IsByte s × (is_utf8 s ≡ true)

-- Every body of the Rust type is so.
unfoldable pub TypedBody : MessageBody → Type 0
TypedBody (load root entry plugin session) = IsText root × IsText entry
TypedBody (invoke op input cb) = IsText op × All IsByte input
TypedBody (result output) = All IsByte output
TypedBody (error code message) = IsText code × IsText message
TypedBody (bridge_invoke op input) = IsText op × All IsByte input
TypedBody (callback_result output) = All IsByte output
TypedBody (callback_error code) = IsText code
TypedBody _ = Unit {0}

-- Whether the bytes of a literal are bytes of a string, by running the tests.
unfoldable is_text : Text → Bool
is_text s = are_bytes s && is_utf8 s

literal : (s : Text) → is_text s ≡ true → IsText s
unfolding is_text
literal s h = (are_bytes-All s (ground arith), ground arith)

pub WellTyped-payload_of :
    (body : MessageBody) → TypedBody body → IdsInRange body → WellTyped (payload_of body)
unfolding TypedBody IdsInRange WellTyped is_text is_utf8
WellTyped-payload_of hello t i = tt
WellTyped-payload_of (load root entry plugin session) (r, e) (a, b, c, d) =
    let (k1, u1) = literal (utf8_bytes "packageRoot") refl in
    let (k2, u2) = literal (utf8_bytes "entrypoint") refl in
    let (k3, u3) = literal (utf8_bytes "pluginId") refl in
    let (k4, u4) = literal (utf8_bytes "session") refl in
    (k1, u1, r, (k2, u2, e, (k3, u3, omega arith, (k4, u4, omega arith, tt))))
WellTyped-payload_of enable t i = tt
WellTyped-payload_of (invoke op input cb) (o, n) i =
    let (k1, u1) = literal (utf8_bytes "operation") refl in
    let (k2, u2) = literal (utf8_bytes "input") refl in
    let (k3, u3) = literal (utf8_bytes "callbackId") refl in
    (k1, u1, o, (k2, u2, n, (k3, u3, omega arith, tt)))
WellTyped-payload_of disable t i = tt
WellTyped-payload_of shutdown t i = tt
WellTyped-payload_of done t i = tt
WellTyped-payload_of (result output) t i =
    let (k1, u1) = literal (utf8_bytes "output") refl in (k1, u1, t, tt)
WellTyped-payload_of (error code message) (c, m) i =
    let (k1, u1) = literal (utf8_bytes "code") refl in
    let (k2, u2) = literal (utf8_bytes "message") refl in (k1, u1, c, (k2, u2, m, tt))
WellTyped-payload_of (bridge_invoke op input) (o, n) i =
    let (k1, u1) = literal (utf8_bytes "operation") refl in
    let (k2, u2) = literal (utf8_bytes "input") refl in (k1, u1, o, (k2, u2, n, tt))
WellTyped-payload_of (retain_handle o g) t (a, b, c, d) =
    let (k1, u1) = literal (utf8_bytes "objectId") refl in
    let (k2, u2) = literal (utf8_bytes "generation") refl in
    (k1, u1, omega arith, (k2, u2, omega arith, tt))
WellTyped-payload_of (release_handle o g) t (a, b, c, d) =
    let (k1, u1) = literal (utf8_bytes "objectId") refl in
    let (k2, u2) = literal (utf8_bytes "generation") refl in
    (k1, u1, omega arith, (k2, u2, omega arith, tt))
WellTyped-payload_of (callback_result output) t i =
    let (k1, u1) = literal (utf8_bytes "output") refl in (k1, u1, t, tt)
WellTyped-payload_of (callback_error code) t i =
    let (k1, u1) = literal (utf8_bytes "code") refl in (k1, u1, t, tt)

IsText-kind_of : (body : MessageBody) → IsText (kind_of body)
unfolding is_text is_utf8
IsText-kind_of hello = literal (kind_of hello) refl
IsText-kind_of (load root entry plugin session) =
    literal (kind_of (load root entry plugin session)) refl
IsText-kind_of enable = literal (kind_of enable) refl
IsText-kind_of (invoke op input cb) = literal (kind_of (invoke op input cb)) refl
IsText-kind_of disable = literal (kind_of disable) refl
IsText-kind_of shutdown = literal (kind_of shutdown) refl
IsText-kind_of done = literal (kind_of done) refl
IsText-kind_of (result output) = literal (kind_of (result output)) refl
IsText-kind_of (error code message) = literal (kind_of (error code message)) refl
IsText-kind_of (bridge_invoke op input) = literal (kind_of (bridge_invoke op input)) refl
IsText-kind_of (retain_handle o g) = literal (kind_of (retain_handle o g)) refl
IsText-kind_of (release_handle o g) = literal (kind_of (release_handle o g)) refl
IsText-kind_of (callback_result output) = literal (kind_of (callback_result output)) refl
IsText-kind_of (callback_error code) = literal (kind_of (callback_error code)) refl

pub WellTyped-envelope :
    (body : MessageBody) (n : ℕ)
    → WellTyped (payload_of body)
    → n ≤ i64_max
    → WellTyped (envelope (kind_of body) (payload_of body) n)
unfolding WellTyped is_text is_utf8
WellTyped-envelope body n w h =
    let (k1, u1) = literal (utf8_bytes "protocolVersion") refl in
    let (k2, u2) = literal (utf8_bytes "requestId") refl in
    let (k3, u3) = literal (utf8_bytes "kind") refl in
    let (k4, u4) = literal (utf8_bytes "payload") refl in
    (k1, u1, omega arith, (k2, u2, omega arith, (k3, u3, IsText-kind_of body, (k4, u4, w, tt))))
