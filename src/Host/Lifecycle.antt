-- ===== src/Host/Lifecycle.antt =====
-- crates/hmcl-rust-host-native/src/embedded.rs: the states of a payload.
use aura_rust_runtime_host.Base.{ℕ, ◌≡◌, refl, List, inl, inr, ◌⊎◌}
use aura_rust_runtime_host.Codec.Values.{Text}
use aura_rust_runtime_host.Host.Payload.{
  PayloadState, loaded, enabled, disabled, shutdown_failed, shut_down, Payload, Called, enable_at,
  enable, disable_at, disable, invoke_at, invoke_payload, shutdown_for_unload_at,
  shutdown_for_unload, force_shutdown_at, force_shutdown,
}

-- A payload that has shut down, with or without a failure.
abbrev pub Ended : PayloadState → Type 0
Ended s = (s ≡ shut_down) ⊎ (s ≡ shutdown_failed)

module _ {P : Type 0} where
  -- A call that reached neither the Host's buffers nor the world, on an ended payload.
  abbrev pub Untouched : {A : Type 0} → Payload P → P → Called P A → Type 0
  Untouched p world (r, (q, after)) = (q.host ≡ p.host) × (after ≡ world) × Ended q.state

  Ended-at :
      (s : PayloadState) (p : Payload P) (world : P) (operation : Text) (input : List ℕ)
      (callback : ℕ)
      → p.state ≡ s
      → Ended s
      → Untouched p world (enable_at s p world)
        × Untouched p world (disable_at s p world)
        × Untouched p world (invoke_at s p world operation input callback)
        × Untouched p world (shutdown_for_unload_at s p world)
        × Untouched p world (force_shutdown_at s p world)
  unfolding enable_at disable_at invoke_at shutdown_for_unload_at force_shutdown_at
  Ended-at loaded p world o i c e (inl h) = cc
  Ended-at loaded p world o i c e (inr h) = cc
  Ended-at enabled p world o i c e (inl h) = cc
  Ended-at enabled p world o i c e (inr h) = cc
  Ended-at disabled p world o i c e (inl h) = cc
  Ended-at disabled p world o i c e (inr h) = cc
  Ended-at shutdown_failed p world o i c e h = (
    (refl, refl, inr e),
    (refl, refl, inr e),
    (refl, refl, inr e),
    (refl, refl, inl refl),
    (refl, refl, inl refl),
  )
  Ended-at shut_down p world o i c e h = (
    (refl, refl, inl e),
    (refl, refl, inl e),
    (refl, refl, inl e),
    (refl, refl, inl refl),
    (refl, refl, inl refl),
  )

-- Whatever the operation on an ended payload, the buffers of the Host and the world stay as they were,
-- and the payload stays ended.
pub Payload-Ended :
    (P : Type 0) (p : Payload P) (world : P) (operation : Text) (input : List ℕ) (callback : ℕ)
    → Ended p.state
    → Untouched p world (enable p world)
      × Untouched p world (disable p world)
      × Untouched p world (invoke_payload p world operation input callback)
      × Untouched p world (shutdown_for_unload p world)
      × Untouched p world (force_shutdown p world)
unfolding enable disable invoke_payload shutdown_for_unload force_shutdown
Payload-Ended P p world o i c h = Ended-at p.state p world o i c refl h
