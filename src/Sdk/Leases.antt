-- ===== src/Sdk/Leases.antt =====
-- crates/hmcl-plugin-sdk/src/lib.rs: the leases that a context takes on the Host, one at a time.
-- A state is one `HostState`'s admission beside its entry in every thread's table of depths; a
-- thread's entry is read and written by that thread only, so an operation is one step.
use aura_rust_runtime_host.Base.{
  ℕ, ◌+◌, ◌-◌, Bool, true, false, not, ◌&&◌, Option, none, some, List, [], Result, ok, err, ◌==◌,
  if◌then◌else◌,
}
use aura_rust_runtime_host.Codec.Errors.{Error, Error_new, unavailable}
use aura_rust_runtime_host.Futures.Table.{lookup, contains_key, remove, insert}

-- The largest `usize`.
abbrev pub usize_max : ℕ
usize_max = 18446744073709551615

pub record HostState : Type 0 where
  pub active : Bool
  pub in_flight : ℕ
  pub depths : List (ℕ × ℕ)

unfoldable pub new_host : HostState
new_host = record { active = true; in_flight = 0; depths = [] }

-- `or_default()`
abbrev pub or_zero : Option ℕ → ℕ
or_zero none = 0
or_zero (some depth) = depth

unfoldable pub depth_of : List (ℕ × ℕ) → ℕ → ℕ
unfolding lookup
depth_of depths thread = or_zero (lookup depths thread)

unfoldable pub grant : HostState → ℕ → HostState
unfolding depth_of insert
grant s thread = record s {
  in_flight = s.in_flight + 1;
  depths = insert s.depths thread (depth_of s.depths thread + 1);
}

unfoldable pub lease : HostState → ℕ → Result Error HostState
unfolding grant contains_key
lease s thread =
    if not s.active && not (contains_key s.depths thread)
    then err (Error_new unavailable)
    else if s.in_flight == usize_max
    then err (Error_new unavailable)
    else ok (grant s thread)

unfoldable pub lower : List (ℕ × ℕ) → ℕ → ℕ → List (ℕ × ℕ)
unfolding remove insert
lower depths thread depth =
    if depth == 1 then remove depths thread else insert depths thread (depth - 1)

-- The drop of a lease, or nothing where the source panics: the thread has no entry, or a count is
-- zero.
unfoldable pub drop_from : HostState → ℕ → Option ℕ → Option HostState
unfolding lower
drop_from s thread none = none
drop_from s thread (some depth) =
    if depth == 0
    then none
    else if s.in_flight == 0
    then none
    else some (record s { in_flight = s.in_flight - 1; depths = lower s.depths thread depth })

unfoldable pub drop_lease : HostState → ℕ → Option HostState
unfolding drop_from lookup
drop_lease s thread = drop_from s thread (lookup s.depths thread)

-- `deactivate` up to its wait.
unfoldable pub refuse_leases : HostState → HostState
refuse_leases s = record s { active = false }

-- The condition under which the wait of `deactivate` ends.
unfoldable pub is_quiesced : HostState → Bool
is_quiesced s = s.in_flight == 0
