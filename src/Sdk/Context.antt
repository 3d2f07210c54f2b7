-- ===== src/Sdk/Context.antt =====
-- crates/hmcl-plugin-sdk/src/lib.rs: the context of one session, and how its calls hold a lease.
-- The Host's table acts on a world `W`; a call made from within a callback of the Host is not
-- modelled here, but in the leases.
use aura_rust_runtime_host.Base.{
  ℕ, ◌+◌, ◌%◌, ◌^◌, not, Option, none, some, Result, ok, err, ltb, ◌==◌, if◌then◌else◌, length,
}
use aura_rust_runtime_host.Base.Int.{pos, negsuc}
use aura_rust_runtime_host.Codec.Errors.{
  Error, Error_new, BridgeErrorKind, invalid_argument, invalid_result, unavailable, internal,
}
use aura_rust_runtime_host.Abi.Statuses.{Status}
use aura_rust_runtime_host.Abi.Tables.{HostTable, bridge_abi_v1, host_api_v1_prefix_size}
use aura_rust_runtime_host.Futures.Registry.{Registry, Registry_new, Capability, pair, close}
use aura_rust_runtime_host.Sdk.Leases.{
  HostState, new_host, lease, drop_lease, refuse_leases, is_quiesced,
}

-- error.rs: `Error::from_host_status`
abbrev pub host_error_kind : ℕ → BridgeErrorKind
host_error_kind raw =
    if raw == 1
    then invalid_argument
    else if raw == 2
    then unavailable
    else if raw == 3
    then invalid_result
    else if raw == 4
    then unavailable
    else if raw == 5
    then internal
    else internal

unfoldable pub from_host_status : Status → Error
from_host_status (pos raw) = Error_new (host_error_kind raw)
from_host_status (negsuc n) = Error_new internal

pub record Context (W : Type 0) : Type 0 where
  pub table : HostTable W
  pub host : HostState
  pub plugin : ℕ
  pub token : ℕ
  pub callbacks : Registry
  pub cleanup_failures : ℕ

-- What a call gives: nothing where it panics.
abbrev pub Call : Type 0 → Type 0
Call A = Option (Result Error A)

-- A call on a context.
abbrev pub M : Type 0 → Type 0 → Type 0
M W A = Context W × W → Call A × (Context W × W)

-- Behind a lease, a call panics no more.
abbrev pub Body : Type 0 → Type 0 → Type 0
Body W A = Context W → W → Result Error A × (Context W × W)

unfoldable pub validate_host_header : ℕ → ℕ → Result Error (Unit {0})
validate_host_header struct_size abi_version =
    if ltb struct_size host_api_v1_prefix_size
    then err (Error_new invalid_argument)
    else if not (abi_version == bridge_abi_v1)
    then err (Error_new unavailable)
    else ok tt

module _ {W : Type 0} where
  abbrev pub pure : {A : Type 0} → A → M W A
  pure a s = (some (ok a), s)

  abbrev pub refuse : {A : Type 0} → Error → M W A
  refuse e s = (some (err e), s)

  abbrev pub resume :
      {A B : Type 0} → Call A × (Context W × W) → (A → M W B) → Call B × (Context W × W)
  resume (none, s) k = (none, s)
  resume (some (err e), s) k = (some (err e), s)
  resume (some (ok a), s) k = k a s

  infixl 5 ◌>>=◌ ◌>>◌
  abbrev pub ◌>>=◌ : {A B : Type 0} → M W A → (A → M W B) → M W B
  (m >>= k) s = resume (m s) k

  abbrev pub ◌>>◌ : {A B : Type 0} → M W A → M W B → M W B
  m >> k = m >>= λ _. k

  unfoldable pub from_copied : HostTable W → ℕ → ℕ → Context W
  unfolding new_host
  from_copied table plugin token = record {
    table = table;
    host = new_host;
    plugin = plugin;
    token = token;
    callbacks = Registry_new;
    cleanup_failures = 0;
  }

  abbrev pub or_context : HostTable W → ℕ → ℕ → Result Error (Unit {0}) → Result Error (Context W)
  or_context table plugin token (err e) = err e
  or_context table plugin token (ok u) = ok (from_copied table plugin token)

  unfoldable pub from_raw : HostTable W → ℕ → ℕ → Result Error (Context W)
  unfolding validate_host_header from_copied
  from_raw table plugin token =
      or_context table plugin token (validate_host_header table.struct_size table.abi_version)

  -- The end of a lease's scope, where the drop did or did not panic.
  unfoldable pub left_host :
      {A : Type 0} → Result Error A → Context W × W → Option HostState → Call A × (Context W × W)
  left_host r s none = (none, s)
  left_host r (c, w) (some host) = (some r, (record c { host = host }, w))

  abbrev pub end_lease :
      {A : Type 0} → ℕ → Result Error A × (Context W × W) → Call A × (Context W × W)
  end_lease thread (r, (c, w)) = left_host r (c, w) (drop_lease c.host thread)

  unfoldable pub behind_lease :
      {A : Type 0}
      → ℕ
      → Body W A
      → Context W × W
      → Result Error HostState
      → Call A × (Context W × W)
  unfolding drop_lease left_host
  behind_lease thread body s (err e) = (some (err e), s)
  behind_lease thread body (c, w) (ok host) = end_lease thread (body (record c { host = host }) w)

  -- `let lease = self.inner.host.lease()?;` and what follows it.
  unfoldable pub with_lease : {A : Type 0} → ℕ → Body W A → M W A
  unfolding lease behind_lease
  with_lease thread body (c, w) = behind_lease thread body (c, w) (lease c.host thread)

  -- A callback that the table may lack.
  abbrev pub or_unavailable :
      {A B : Type 0}
      → Option A
      → Context W
      → W
      → (A → Result Error B × (Context W × W))
      → Result Error B × (Context W × W)
  or_unavailable none c w go = (err (Error_new unavailable), (c, w))
  or_unavailable (some f) c w go = go f

  abbrev pub with_callbacks :
      {A : Type 0} → Context W → W → Result Error A × Registry → Result Error A × (Context W × W)
  with_callbacks c w (r, registry) = (r, (record c { callbacks = registry }, w))

  unfoldable pub callback : ℕ → M W Capability
  unfolding with_lease pair
  callback thread = with_lease thread (λ c w. with_callbacks c w (pair c.callbacks))

  abbrev pub pending_callbacks : Context W → ℕ
  pending_callbacks c = length c.callbacks.entries

  -- `fetch_add` wraps around.
  unfoldable pub record_cleanup_failure : Context W → Context W
  record_cleanup_failure c = record c { cleanup_failures = (c.cleanup_failures + 1) % 2 ^ 64 }

  -- `deactivate`, or nothing while it waits.
  unfoldable pub deactivate : Context W → Option (Context W)
  unfolding refuse_leases is_quiesced close
  deactivate c =
      if is_quiesced (refuse_leases c.host)
      then some (record c { host = refuse_leases c.host; callbacks = close c.callbacks })
      else none
