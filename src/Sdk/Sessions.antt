-- ===== src/Sdk/Sessions.antt =====
-- crates/hmcl-plugin-sdk/src/lib.rs: one session of a plugin, its invocation gate, and the owners of
-- its `Arc`. A step is what a thread does under one lock, or one drop of a reference.
use aura_rust_runtime_host.Base.{
  ℕ, ◌+◌, ◌-◌, Bool, true, false, not, Option, none, some, ◌==◌, if◌then◌else◌,
}
use aura_rust_runtime_host.Sdk.Leases.{usize_max}

-- How far `shutdown_inner` is with this session.
pub data Stage : Type 0 where
  running waiting unwrapping owned abandoned : Stage

-- `accepting` and `in_flight` are the gate's; `installed` is whether the runtime's slot holds the
-- session; `owners` is the strong count. Of the invocations, `holding` still hold their clone, and
-- `leaving` have dropped it but not yet left the gate. `asleep` is whether the shutdown that waits is
-- blocked on the gate's condition variable.
pub record Session : Type 0 where
  pub accepting : Bool
  pub in_flight : ℕ
  pub installed : Bool
  pub owners : ℕ
  pub holding : ℕ
  pub leaving : ℕ
  pub asleep : Bool
  pub stage : Stage

-- What `initialize_inner` installs.
unfoldable pub new_session : Session
new_session = record {
  accepting = true;
  in_flight = 0;
  installed = true;
  owners = 1;
  holding = 0;
  leaving = 0;
  asleep = false;
  stage = running;
}

-- `InvocationGate::admit`
unfoldable pub admit : Session → Option Session
admit s =
    if not s.accepting
    then none
    else if s.in_flight == usize_max
    then none
    else some (record s { in_flight = s.in_flight + 1 })

-- The clone of the installed session becomes a lease, or is dropped again.
unfoldable pub keep_clone : Option Session → Option Session
keep_clone none = none
keep_clone (some s) = some (record s { owners = s.owners + 1; holding = s.holding + 1 })

-- The admission of `invoke_inner`, under the runtime's lock: nothing where it answers `PluginError`.
unfoldable pub enter : Session → Option Session
unfolding admit keep_clone
enter s = if not s.installed then none else keep_clone (admit s)

-- The drop of an invocation lease, up to `drop(session)`.
unfoldable pub drop_clone : Session → Session
drop_clone s = record s { owners = s.owners - 1; holding = s.holding - 1; leaving = s.leaving + 1 }

-- The rest of that drop: `InvocationGate::leave`, whose `notify_all` wakes the shutdown that waits.
unfoldable pub leave : Session → Session
leave s = record s {
  in_flight = s.in_flight - 1;
  leaving = s.leaving - 1;
  asleep = if s.in_flight - 1 == 0 then false else s.asleep;
}

-- `shutdown_inner` under the runtime's lock, for the right plugin: the slot gives up its reference,
-- and the gate closes.
unfoldable pub take_session : Session → Session
take_session s = record s { installed = false; accepting = false; stage = waiting }

-- `InvocationGate::wait` in its loop: it blocks where invocations are in progress, and gives up the
-- gate's lock with that.
unfoldable pub block : Session → Option Session
block s = if not (s.in_flight == 0) then some (record s { asleep = true }) else none

-- The condition variable may also wake the shutdown for no reason.
unfoldable pub wake : Session → Session
wake s = record s { asleep = false }

-- The end of `InvocationGate::wait`, where its condition holds.
unfoldable pub finish_wait : Session → Option Session
finish_wait s = if s.in_flight == 0 then some (record s { stage = unwrapping }) else none

-- `Arc::try_unwrap`
unfoldable pub try_unwrap : Session → Session
try_unwrap s = record s { stage = if s.owners == 1 then owned else abandoned }
