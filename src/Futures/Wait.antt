-- ===== src/Futures/Wait.antt =====
-- crates/hmcl-plugin-sdk/src/future.rs: `PluginFuture::wait`, over the states that it finds when it is
-- woken up.
use aura_rust_runtime_host.Base.{◌≡◌, ◌≢◌, Option, none, some, List, [], ◌∷◌, Result}
use aura_rust_runtime_host.Codec.Errors.{Error}
use aura_rust_runtime_host.Codec.Values.{Value}
use aura_rust_runtime_host.Futures.Registry.{Registry, Capability, poll, close}
use aura_rust_runtime_host.Futures.States.{Sound, Issued}
use aura_rust_runtime_host.Futures.History.{close-poll}

abbrev pub or_later {ℓ} : {A : Type ℓ} → Option A → Option A → Option A
or_later (some a) later = some a
or_later none later = later

-- Nothing while it still waits.
unfoldable pub wait : List Registry → Capability → Option (Result Error Value)
unfolding poll
wait [] c = none
wait (r ∷ rs) c = or_later (poll r c) (wait rs c)

-- A wait that is woken up by `close` returns.
pub wait-close :
    (r : Registry) (rs : List Registry) (c : Capability)
    → Sound r
    → Issued r c
    → wait (close r ∷ rs) c ≢ none
unfolding wait
wait-close r rs c w k h = close-poll r c w k (first_none (poll (close r) c) (wait rs c) h)
  where
    first_none : (x y : Option (Result Error Value)) → or_later x y ≡ none → x ≡ none
    first_none none y q = λ i. none
    first_none (some a) y q = absurd cc
