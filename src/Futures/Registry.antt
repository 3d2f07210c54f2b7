-- ===== src/Futures/Registry.antt =====
-- crates/hmcl-plugin-sdk/src/future.rs: the registry, its callbacks and its futures. Every function
-- is one critical section, or the sequence of those that one call takes; an `Arc<Entry>` is a
-- reference into `states`, the entries that were ever made.
use aura_rust_runtime_host.Base.{
  ℕ, zero, suc, ◌-◌, ◌^◌, Bool, true, false, not, ◌||◌, Option, none, some, List, [], ◌∷◌, Result,
  ok, err, leb, ◌==◌, if◌then◌else◌, length,
}
use aura_rust_runtime_host.Codec.Errors.{Error, Error_new, unavailable, cancelled, callback_failed}
use aura_rust_runtime_host.Codec.Values.{Value}
use aura_rust_runtime_host.Futures.Table.{lookup, contains_key, insert, remove}

abbrev pub max_pending_callbacks : ℕ
max_pending_callbacks = 1024

abbrev pub u64_max : ℕ
u64_max = 2 ^ 64 - 1

pub data EntryState : Type 0 where
  pending : EntryState
  complete : Result Error Value → EntryState
  cancelled_state : EntryState

-- `closed`, `next_id` and `entries` are the fields of `RegistryState`.
pub record Registry : Type 0 where
  pub closed : Bool
  pub next_id : ℕ
  pub entries : List (ℕ × ℕ)
  pub allocated : ℕ
  pub states : ℕ → EntryState

abbrev pub Registry_new : Registry
Registry_new = record {
  closed = false;
  next_id = 1;
  entries = [];
  allocated = 0;
  states = λ r. cancelled_state;
}

-- What a `Callback` and a `PluginFuture` hold.
pub record Capability : Type 0 where
  pub id : ℕ
  pub entry : ℕ

unfoldable pub set_state : (ℕ → EntryState) → ℕ → EntryState → ℕ → EntryState
set_state states entry state other = if entry == other then state else states other

unfoldable pub successor : ℕ → ℕ
successor id = if id == u64_max then 1 else suc id

-- The loop of `vacant_id`.
unfoldable pub vacant_from : ℕ → List (ℕ × ℕ) → ℕ → Option ℕ
unfolding contains_key
vacant_from zero entries candidate = none
vacant_from (suc tries) entries candidate =
    let rest = vacant_from tries entries (successor candidate) in
    if contains_key entries candidate then rest else some candidate

unfoldable pub vacant_id : Registry → Option ℕ
unfolding vacant_from
vacant_id registry =
    vacant_from (suc (length registry.entries)) registry.entries
      (if registry.next_id == 0 then 1 else registry.next_id)

unfoldable pub pair : Registry → Result Error Capability × Registry
unfolding vacant_id
pair registry =
    if registry.closed || leb max_pending_callbacks (length registry.entries)
    then (err (Error_new unavailable), registry)
    else elim (vacant_id registry) [
      | none ↦ (err (Error_new unavailable), registry)
      | some id ↦ (
        ok (record { id = id; entry = registry.allocated }),
        record registry {
          next_id = successor id;
          entries = insert registry.entries id registry.allocated;
          allocated = suc registry.allocated;
          states = set_state registry.states registry.allocated pending;
        },
      )
    ]

-- `if matches!(*state, EntryState::Pending) { *state = EntryState::Cancelled; }`
abbrev pub cancel_pending : EntryState → EntryState
cancel_pending pending = cancelled_state
cancel_pending (complete r) = complete r
cancel_pending cancelled_state = cancelled_state

-- The loop of `close` over the drained entries.
unfoldable pub cancel_all : List (ℕ × ℕ) → (ℕ → EntryState) → ℕ → EntryState
unfolding set_state
cancel_all [] states = states
cancel_all ((id, entry) ∷ t) states =
    cancel_all t (set_state states entry (cancel_pending (states entry)))

unfoldable pub close : Registry → Registry
unfolding cancel_all
close registry = record registry {
  closed = true;
  entries = [];
  states = cancel_all registry.entries registry.states;
}

-- Whether the entry that is registered under the identifier is this one (`Arc::ptr_eq`).
unfoldable pub is_entry : Option ℕ → ℕ → Bool
is_entry none entry = false
is_entry (some registered) entry = registered == entry

unfoldable pub is_registered : Registry → Capability → Bool
unfolding is_entry lookup
is_registered registry c = is_entry (lookup registry.entries c.id) c.entry

unfoldable pub remove_entry : Registry → Capability → Registry
unfolding is_registered
remove_entry registry c =
    if is_registered registry c
    then record registry { entries = remove registry.entries c.id }
    else registry

abbrev pub put_state : Registry → Capability → EntryState → Registry
put_state registry c state = record registry { states = set_state registry.states c.entry state }

-- `upgraded` is whether the registry is still alive: `self.registry.upgrade()` is not `None`.
unfoldable pub complete_pending :
    Bool → Registry → Capability → Result Error Value → Result Error (Unit {0}) × Registry
unfolding is_registered
complete_pending upgraded registry c value =
    if not upgraded || registry.closed || not (is_registered registry c)
    then (err (Error_new cancelled), put_state registry c cancelled_state)
    else (
      ok tt,
      record (put_state registry c (complete value)) { entries = remove registry.entries c.id },
    )

-- The `match` of `Callback::complete` on the state of its entry.
unfoldable pub complete_at :
    Bool
    → Registry
    → Capability
    → Result Error Value
    → EntryState
    → Result Error (Unit {0}) × Registry
unfolding complete_pending
complete_at upgraded registry c value pending = complete_pending upgraded registry c value
complete_at upgraded registry c value (complete r) = (err (Error_new callback_failed), registry)
complete_at upgraded registry c value cancelled_state = (err (Error_new cancelled), registry)

unfoldable pub Callback_complete :
    Bool → Registry → Capability → Result Error Value → Result Error (Unit {0}) × Registry
unfolding complete_at
Callback_complete upgraded registry c value =
    complete_at upgraded registry c value (registry.states c.entry)

-- `Poll::Pending` is `none`.
unfoldable pub poll_state : EntryState → Option (Result Error Value)
poll_state pending = none
poll_state (complete r) = some r
poll_state cancelled_state = some (err (Error_new cancelled))

unfoldable pub poll : Registry → Capability → Option (Result Error Value)
unfolding poll_state
poll registry c = poll_state (registry.states c.entry)

-- `drop` of a future is `cancel`.
unfoldable pub cancel_at : Registry → Capability → EntryState → Bool × Registry
unfolding remove_entry
cancel_at registry c pending = (true, remove_entry (put_state registry c cancelled_state) c)
cancel_at registry c (complete r) = (false, registry)
cancel_at registry c cancelled_state = (false, registry)

unfoldable pub cancel : Registry → Capability → Bool × Registry
unfolding cancel_at
cancel registry c = cancel_at registry c (registry.states c.entry)
