-- ===== src/Sdk/Outcomes.antt =====
-- crates/hmcl-plugin-sdk/src/lib.rs: what the exported entry points leave, whatever the plugin does.
use aura_rust_runtime_host.Base.{
  ℕ, ◌≡◌, ◌≢◌, ◌⊎◌, refl, not, ◌||◌, Option, none, some, List, Result, ok, err, arith, Bool-cases,
  inl, inr,
}
use mathlib.Core.Option.{map}
use aura_rust_runtime_host.Codec.Errors.{Error}
use aura_rust_runtime_host.Codec.Values.{Text, Value}
use aura_rust_runtime_host.Codec.Encoder.{to_wire}
use aura_rust_runtime_host.Codec.Utf8.{is_utf8}
use aura_rust_runtime_host.Codec.Decoder.{from_wire}
use aura_rust_runtime_host.Abi.Statuses.{Status, status_ok, status_invalid_argument}
use aura_rust_runtime_host.Abi.Buffers.{Slice, read_slice, OwnedBuffer, Pointer}
use aura_rust_runtime_host.Sdk.Context.{Context, Call}
use aura_rust_runtime_host.Sdk.Calls.{Memory, allocate_wire}
use aura_rust_runtime_host.Sdk.Runtime.{
  or_invalid, or_invalid_value, with_value, both_slices, decode_slices, Plugin, Session, Runtime,
  decode_arguments, write_output, allocate_output, answer, invoke_session, invoke_decoded,
  invoke_plugin,
}

refused_value :
    (text : Text) (r : Result Error Value) (s : Status)
    → with_value text (or_invalid_value r) ≡ err s
    → s ≡ status_invalid_argument
refused_value text (ok v) s h = cc
refused_value text (err e) s h = cc

refused_slices :
    (r : Option (List ℕ)) (q : Option (List ℕ)) (s : Status)
    → both_slices (or_invalid r) (or_invalid q) ≡ err s
    → s ≡ status_invalid_argument
refused_slices none q s h = cc
refused_slices (some x) none s h = cc
refused_slices (some x) (some y) s h = cc

refused_decoded :
    (r : Result Status (List ℕ × List ℕ)) (s : Status)
    → ((x : Status) → r ≡ err x → x ≡ status_invalid_argument)
    → decode_slices r ≡ err s
    → s ≡ status_invalid_argument
unfolding decode_slices
refused_decoded (err x) s f h = let z = f x refl in cc
refused_decoded (ok (name, bytes)) s f h = elim (Bool-cases (is_utf8 name)) [
  | inl e ↦ refused_value name (from_wire bytes) s (rw e at h)
  | inr e ↦ let z = rw e at h in cc
]

-- Arguments that do not decode are invalid arguments.
decode_arguments-eq_err :
    (operation input : Slice) (s : Status)
    → decode_arguments operation input ≡ err s
    → s ≡ status_invalid_argument
unfolding decode_arguments
decode_arguments-eq_err operation input s h =
    refused_decoded
      (both_slices (or_invalid (read_slice operation)) (or_invalid (read_slice input))) s
      (λ x e. refused_slices (read_slice operation) (read_slice input) x e) h

module _ {P W : Type 0} (plugin : Plugin P W) (memory : Memory W) where
  -- The plugin of the installed session, if there is one.
  abbrev pub plugin_in : Option (Session P W) → Option P
  plugin_in slot = map (λ s. s.plugin) slot

  -- What a call of `invoke` may leave: the plugin that was installed, and either a success, which
  -- takes a plugin, or the output that was there.
  abbrev pub Kept : Option P → OwnedBuffer → (Status × OwnedBuffer) × Runtime P W → Type 0
  Kept there old a =
      (plugin_in a.1.0 ≡ there)
      × ((a.0.0 ≡ status_ok) × (there ≢ none) ⊎ (a.0.0 ≢ status_ok) × (a.0.1 ≡ old))

  write_output-Kept :
      (session : Session P W) (old : OwnedBuffer) (r : Call OwnedBuffer × (Context W × W))
      → Kept (some session.plugin) old (write_output plugin memory session old r)
  unfolding write_output
  write_output-Kept session old (none, s) = (refl, inr ((λ e. absurd (ground arith)), refl))
  write_output-Kept session old (some (err e), s) = (refl, inr ((λ q. absurd (ground arith)), refl))
  write_output-Kept session old (some (ok output), s) = (refl, inl (refl, λ e. absurd cc))

  allocate_output-Kept :
      (thread : ℕ) (session : Session P W) (old : OwnedBuffer) (s : Context W × W)
      (r : Result Error (List ℕ))
      → Kept (some session.plugin) old (allocate_output plugin memory thread session old s r)
  unfolding allocate_output
  allocate_output-Kept thread session old s (err e) =
      (refl, inr ((λ q. absurd (ground arith)), refl))
  allocate_output-Kept thread session old s (ok wire) =
      write_output-Kept session old (allocate_wire memory thread wire s)

  answer-Kept :
      (thread : ℕ) (session : Session P W) (old : OwnedBuffer) (r : Call Value × (Context W × W))
      → Kept (some session.plugin) old (answer plugin memory thread session old r)
  unfolding answer
  answer-Kept thread session old (none, s) = (refl, inr ((λ q. absurd (ground arith)), refl))
  answer-Kept thread session old (some (err e), s) =
      (refl, inr ((λ q. absurd (ground arith)), refl))
  answer-Kept thread session old (some (ok value), s) =
      allocate_output-Kept thread session old s (to_wire value)

  invoke_session-Kept :
      (thread : ℕ) (operation : Text) (input : Value) (callback : ℕ) (old : OwnedBuffer)
      (slot : Option (Session P W)) (w : W)
      → Kept
          (plugin_in slot)
          old
          (invoke_session plugin memory thread operation input callback old (slot, w))
  unfolding invoke_session
  invoke_session-Kept thread operation input callback old none w =
      (refl, inr ((λ q. absurd (ground arith)), refl))
  invoke_session-Kept thread operation input callback old (some session) w =
      answer-Kept thread session old
        (plugin.invoke session.plugin operation input callback (session.context, w))

  invoke_decoded-Kept :
      (thread callback : ℕ) (old : OwnedBuffer) (slot : Option (Session P W)) (w : W)
      (r : Result Status (Text × Value))
      → ((s : Status) → r ≡ err s → s ≡ status_invalid_argument)
      → Kept (plugin_in slot) old (invoke_decoded plugin memory thread callback old (slot, w) r)
  unfolding invoke_decoded
  invoke_decoded-Kept thread callback old slot w (err s) f =
      (refl, inr ((λ q. absurd (let z = f s refl in ground arith)), refl))
  invoke_decoded-Kept thread callback old slot w (ok (operation, input)) f =
      invoke_session-Kept thread operation input callback old slot w

  -- Whatever the plugin's code does, a panic included: behind `invoke_plugin` the runtime's slot holds
  -- a session of the same plugin as before, or none where it held none, and the call either succeeds,
  -- which takes a session, or leaves the caller's output as it was.
  pub invoke_plugin-Kept :
      (thread : ℕ) (context out : Pointer) (operation input : Slice) (callback : ℕ)
      (old : OwnedBuffer) (slot : Option (Session P W)) (w : W)
      → Kept
          (plugin_in slot)
          old
          (invoke_plugin plugin memory thread context operation input callback out old (slot, w))
  unfolding invoke_plugin
  invoke_plugin-Kept thread context out operation input callback old slot w =
      elim (Bool-cases (context.null || out.null || not out.aligned)) [
        | inl e ↦ rw e (refl, inr ((λ q. absurd (ground arith)), refl))
        | inr e ↦ rw e (
            invoke_decoded-Kept thread callback old slot w (decode_arguments operation input)
              (λ s q. decode_arguments-eq_err operation input s q))
      ]
