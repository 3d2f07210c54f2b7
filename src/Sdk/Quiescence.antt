-- ===== src/Sdk/Quiescence.antt =====
-- crates/hmcl-plugin-sdk/src/lib.rs: what holds once `deactivate` has returned.
use aura_rust_runtime_host.Base.{ℕ, ◌≡◌, refl, sym, ap, ◌∙◌, err}
use mathlib.Core.Path.{subst}
use aura_rust_runtime_host.Codec.Errors.{Error_new, unavailable}
use aura_rust_runtime_host.Sdk.Leases.{HostState, new_host, lease, refuse_leases}
use aura_rust_runtime_host.Sdk.Admission.{
  Sound, Step, leased, dropped, shut, Reaches, start, after, Over, Over-lease, Over-drop_lease,
  Reaches-Sound, Reaches-new_host,
}

Over-Step : {s t : HostState} → Step s t → Sound s → Over s → t ≡ s
unfolding refuse_leases
Over-Step {s} (leased thread h) w o = let z = Over-lease s thread w o in absurd cc
Over-Step {s} (dropped thread h) w o = let z = Over-drop_lease s thread w o in absurd cc
Over-Step {s} shut w (a, q) = ap (λ b. record s { active = b }) (sym a)

Over-Reaches : {s t : HostState} → Reaches s t → Sound s → Over s → t ≡ s
Over-Reaches start w o = refl
Over-Reaches {s} (after {t = m} run step) w o =
    let e = Over-Reaches run w o in Over-Step step (Reaches-Sound run w) (subst Over (sym e) o) ∙ e

-- Once the wait of `deactivate` has ended, no thread is ever admitted to the Host again: whatever
-- the threads do next, the state stays as it is, and every lease is refused as unavailable.
pub Over-final :
    (s t : HostState) (thread : ℕ)
    → Reaches new_host s
    → Over s
    → Reaches s t
    → (t ≡ s) × (lease t thread ≡ err (Error_new unavailable))
Over-final s t thread begun o run =
    let w = Reaches-new_host s begun in
    let e = Over-Reaches run w o in
    (e, subst (λ x. lease x thread ≡ err (Error_new unavailable)) (sym e) (Over-lease s thread w o))
