-- ===== src/Host/Responses.antt =====
-- crates/hmcl-rust-host-process/src/server.rs: the answers that cross the process boundary.
use aura_rust_runtime_host.Base.{
  ℕ, zero, suc, ◌≡◌, ◌≤◌, refl, sym, ap, true, false, [], ◌∷◌, ok, ltb, length, take, drop,
  length-take, arith, Bool-cases, inl, inr, ◌⊎◌, ltb→lt, not_ltb→le, le→not_ltb, ◌<◌,
}
use aura_rust_runtime_host.Codec.Values.{Text}
use aura_rust_runtime_host.Codec.Utf8.{is_blank}
use aura_rust_runtime_host.Protocol.Messages.{validate, require_code, require_text, is_code}
use aura_rust_runtime_host.Host.Errors.{
  HostError, io, library, entrypoint_escape, missing_query_symbol, query_status,
  unsupported_plugin_abi, invalid_plugin_table, plugin_status, unknown_payload, invalid_state,
  engine_closed, invalid_host_result, java_bridge, jni_panic,
}
use aura_rust_runtime_host.Host.Server.{error_code, boundary_at, truncate, error_body, starts_char}

error_code-is_code : (e : HostError) → is_code (error_code e) ≡ true
unfolding is_code error_code
error_code-is_code (io k) = refl
error_code-is_code library = refl
error_code-is_code entrypoint_escape = refl
error_code-is_code missing_query_symbol = refl
error_code-is_code (query_status status) = refl
error_code-is_code (unsupported_plugin_abi version) = refl
error_code-is_code invalid_plugin_table = refl
error_code-is_code (plugin_status status) = refl
error_code-is_code (unknown_payload id) = refl
error_code-is_code (invalid_state message) = refl
error_code-is_code engine_closed = refl
error_code-is_code invalid_host_result = refl
error_code-is_code java_bridge = refl
error_code-is_code jni_panic = refl

boundary_at-bound : (end : ℕ) (message : Text) → boundary_at end message ≤ end
unfolding boundary_at
boundary_at-bound zero message = omega arith
boundary_at-bound (suc end) message = ground (arith, boundary_at-bound end message)

boundary_at-starts_char :
    (end : ℕ) (message : Text)
    → (boundary_at end message ≡ 0) ⊎ (starts_char (drop (boundary_at end message) message) ≡ true)
unfolding boundary_at
boundary_at-starts_char zero message = inl refl
boundary_at-starts_char (suc end) message =
    elim (Bool-cases (starts_char (drop (suc end) message))) [
      | inl e ↦ inr (rw e e)
      | inr e ↦ rw e (boundary_at-starts_char end message)
    ]

abbrev pub IsCut : ℕ → Text → Text → Type 0
IsCut limit message kept =
    (length kept ≤ limit)
    × ((cut : ℕ) × (kept ≡ take cut message)
        × ((cut ≡ 0) ⊎ (starts_char (drop cut message) ≡ true)))

IsCut-at :
    (limit : ℕ) (message : Text)
    → limit < length message
    → IsCut limit message (take (boundary_at limit message) message)
IsCut-at limit message h =
    let b = boundary_at-bound limit message in
    let l = length-take (boundary_at limit message) message (omega (arith, b)) in
    (omega (arith, b, l), (boundary_at limit message, refl, boundary_at-starts_char limit message))

take_all : (xs : Text) → take (length xs) xs ≡ xs
take_all [] = refl
take_all (x ∷ xs) = ap (λ t. x ∷ t) (take_all xs)

drop_all : (xs : Text) → drop (length xs) xs ≡ []
drop_all [] = refl
drop_all (x ∷ xs) = drop_all xs

-- A text is cut to at most 4096 bytes: to a prefix whose end is the start of the text, the start of a
-- character, or the end of the text.
pub truncate_lem : (message : Text) → IsCut 4096 message (truncate message)
unfolding truncate
truncate_lem message = elim (Bool-cases (ltb 4096 (length message))) [
  | inl e ↦ rw e (IsCut-at 4096 message (ltb→lt 4096 (length message) e))
  | inr e ↦ rw e (
    not_ltb→le 4096 (length message) e,
    (length message, sym (take_all message), inr (ap starts_char (drop_all message))),
  )
]

-- The error body of a failure whose text, once cut, is not blank passes the validation of the protocol.
pub error_body-validate :
    (display : HostError → Text) (e : HostError)
    → is_blank (truncate (display e)) ≡ false
    → validate (error_body display e) ≡ ok tt
unfolding error_body validate require_code require_text
error_body-validate display e h =
    let (short, _) = truncate_lem (display e) in
    let l : ltb 4096 (length (truncate (display e))) ≡ false = le→not_ltb 4096 _ short in
    rw (error_code-is_code e, h, l) refl
