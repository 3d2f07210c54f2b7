-- ===== src/Sdk/References.antt =====
-- crates/hmcl-plugin-sdk/src/handle.rs: the references that an owned handle takes and gives back.
use aura_rust_runtime_host.Base.{
  ℕ, ◌≡◌, refl, ap, ◌∙◌, true, not, some, ok, bytes_eq, if◌then◌else◌,
}
use aura_rust_runtime_host.Codec.Values.{Text, HandleValue}
use aura_rust_runtime_host.Abi.Statuses.{Status, status_ok, is_ok}
use aura_rust_runtime_host.Abi.Buffers.{HandleId}
use aura_rust_runtime_host.Sdk.Leases.{HostState, grant}
use aura_rust_runtime_host.Sdk.Context.{Context, or_unavailable, record_cleanup_failure}
use aura_rust_runtime_host.Sdk.Calls.{
  retained, retain_handle, ensure_handle_callbacks, failed_release, release_handle_for_drop,
  or_released, retain_status,
}
use aura_rust_runtime_host.Sdk.Objects.{
  id_of, validate_type, from_borrowed, drop_handle, after_release,
}
use aura_rust_runtime_host.Sdk.LeasedCalls.{Usable, with_lease-Usable}

module _ {W : Type 0} (retain release : HandleId → W → Status × W) where
  abbrev pub HasHandles : Context W → Type 0
  HasHandles c = (c.table.retain_handle ≡ some retain) × (c.table.release_handle ≡ some release)

  ensure_handle_callbacks-found :
      (thread : ℕ) (c : Context W) (w : W)
      → Usable c.host
      → HasHandles c
      → (host : HostState) × (ensure_handle_callbacks thread (c, w)
          ≡ (some (ok tt), (record c { host = host }, w)))
        × Usable host
  unfolding ensure_handle_callbacks
  ensure_handle_callbacks-found thread c w u (a, b) =
      let d = record c { host = grant c.host thread } in
      with_lease-Usable thread
        (λ x y.
          or_unavailable x.table.retain_handle x y
            (λ f. or_unavailable x.table.release_handle x y (λ g. (ok tt, (x, y)))))
        c d w w (ok tt) u
        (ap
            (λ o.
              or_unavailable o d w
                (λ f. or_unavailable d.table.release_handle d w (λ g. (ok tt, (d, w)))))
            a
          ∙ ap (λ o. or_unavailable o d w (λ g. (ok tt, (d, w)))) b)
        refl

  retain_handle-found :
      (thread : ℕ) (c : Context W) (w v : W) (handle : HandleId)
      → Usable c.host
      → HasHandles c
      → retain handle w ≡ (status_ok, v)
      → (host : HostState) × (retain_handle thread handle (c, w)
          ≡ (some (ok tt), (record c { host = host }, v)))
        × Usable host
  unfolding retain_handle retain_status
  retain_handle-found thread c w v handle u (a, b) h =
      let d = record c { host = grant c.host thread } in
      with_lease-Usable thread
        (λ x y.
          or_unavailable x.table.release_handle x y
            (λ g. or_unavailable x.table.retain_handle x y (λ f. retained x (f handle y))))
        c d w v (ok tt) u
        (ap
            (λ o.
              or_unavailable o d w
                (λ g. or_unavailable d.table.retain_handle d w (λ f. retained d (f handle w))))
            b
          ∙ ap (λ o. or_unavailable o d w (λ f. retained d (f handle w))) a
          ∙ ap (retained d) h)
        refl

  release_handle-found :
      (thread : ℕ) (c : Context W) (w v : W) (handle : HandleId) (status : Status)
      → Usable c.host
      → HasHandles c
      → release handle w ≡ (status, v)
      → (host : HostState) × (release_handle_for_drop thread handle (c, w)
          ≡ (some (ok (not (is_ok status))), (record c { host = host }, v)))
        × Usable host
  unfolding release_handle_for_drop failed_release
  release_handle-found thread c w v handle status u (a, b) h =
      let d = record c { host = grant c.host thread } in
      let (host, q, next) =
        with_lease-Usable thread (λ x y. failed_release x.table.release_handle handle x y) c d w v
          (ok (not (is_ok status))) u
          (ap (λ o. failed_release o handle d w) b ∙ ap (λ z. (ok (not (is_ok z.0)), (d, z.1))) h)
          refl in
      (host, ap or_released q, next)

  -- A handle that is made of a borrowed value takes one reference of the Host's, and its drop gives
  -- that reference back: the Host is called to retain the object once, then to release it once. A
  -- release that fails is counted, and nothing else is. The context may take a lease, its table has
  -- both callbacks, the value is of the expected type, and the retain succeeds.
  pub from_borrowed-drop_handle :
      (expected : Text) (thread : ℕ) (c : Context W) (w v u : W) (value : HandleValue)
      (status : Status)
      → Usable c.host
      → HasHandles c
      → bytes_eq value.type_name expected ≡ true
      → retain (id_of value) w ≡ (status_ok, v)
      → release (id_of value) v ≡ (status, u)
      → (made gone : HostState) × (from_borrowed expected thread value (c, w)
          ≡ (some (ok (record { value = value })), (record c { host = made }, v)))
        × (drop_handle thread (record { value = value }) (record c { host = made }, v) ≡ (
          some (ok tt),
          (
            if not (is_ok status)
                then record_cleanup_failure (record c { host = gone })
                else record c { host = gone },
            u,
          ),
        ))
        × Usable gone
  unfolding from_borrowed validate_type drop_handle
  from_borrowed-drop_handle expected thread c w v u value status ready has same taken given =
      let (first, p, r1) = ensure_handle_callbacks-found thread c w ready has in
      let (made, q, r2) =
        retain_handle-found thread (record c { host = first }) w v (id_of value) r1 has taken in
      let (gone, r, r3) =
        release_handle-found thread (record c { host = made }) v u (id_of value) status r2 has
          given in
      (made, gone, rw (p, same, q) refl, ap after_release r, r3)
