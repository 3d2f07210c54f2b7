-- ===== src/Sdk/LeasedCalls.antt =====
-- crates/hmcl-plugin-sdk/src/lib.rs: a call on an active context has its lease, and gives it back.
use aura_rust_runtime_host.Base.{
  ℕ, ◌+◌, ◌-◌, ◌<◌, ◌≡◌, refl, ap, ◌∙◌, true, some, Result, ok, arith,
}
use aura_rust_runtime_host.Codec.Errors.{Error}
use aura_rust_runtime_host.Futures.Table.{lookup}
use aura_rust_runtime_host.Sdk.Leases.{HostState, usize_max, depth_of, grant, lease, drop_lease}
use aura_rust_runtime_host.Sdk.Admission.{
  Sound, grant-Sound, drop_lease-held, drop_lease-eq_some, dropped_state,
}
use aura_rust_runtime_host.Sdk.Context.{Context, Body, with_lease, behind_lease, left_host}

-- A context that is still active, with room for a lease.
pub record Usable (host : HostState) : Type 0 where
  pub sound : Sound host
  pub is_active : host.active ≡ true
  pub room : host.in_flight < usize_max

lease-active : (s : HostState) (thread : ℕ) → Usable s → lease s thread ≡ ok (grant s thread)
unfolding lease
lease-active s thread u = let a = u.is_active in let m = u.room in rw a (ground arith)

grant-holds : (s : HostState) (thread : ℕ) → 0 < depth_of (grant s thread).depths thread
unfolding grant depth_of lookup
grant-holds s thread = ground arith

left_grant :
    (s : HostState) (thread : ℕ)
    → Usable s
    → (t : HostState) × (drop_lease (grant s thread) thread ≡ some t) × Usable t
unfolding dropped_state grant
left_grant s thread u =
    let m = u.room in
    let (t, h, w) =
      drop_lease-held (grant s thread) thread (grant-Sound s thread u.sound (omega arith))
        (grant-holds s thread) in
    let (held, e) = drop_lease-eq_some (grant s thread) t thread h in
    let a : t.active ≡ true = ap (λ x. x.active) e ∙ u.is_active in
    let n : t.in_flight ≡ s.in_flight + 1 - 1 = ap (λ x. x.in_flight) e in
    (t, h, record { sound = w; is_active = a; room = omega arith })

-- A call that has its lease gives what its body gives, and does not panic. Its context may take a
-- lease again.
pub with_lease-Usable :
    {W A : Type 0} (thread : ℕ) (body : Body W A) (c d : Context W) (w v : W) (r : Result Error A)
    → Usable c.host
    → body (record c { host = grant c.host thread }) w ≡ (r, (d, v))
    → d.host ≡ grant c.host thread
    → (host : HostState) × (with_lease thread body (c, w) ≡ (some r, (record d { host = host }, v)))
      × Usable host
unfolding with_lease behind_lease left_host
with_lease-Usable thread body c d w v r u h k =
    let granted = lease-active c.host thread u in
    let (t, left, s) = left_grant c.host thread u in
    let dropped : drop_lease d.host thread ≡ some t = ap (λ x. drop_lease x thread) k ∙ left in
    (t, rw (granted, h, dropped) refl, s)
