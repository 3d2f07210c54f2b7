-- ===== src/Futures/Sections.antt =====
-- crates/hmcl-plugin-sdk/src/future.rs: the critical sections of calls that overlap. `cancel` is two
-- sections, and `close` is one and one more for every entry that it drained; the sections of other
-- calls come between them in any order. `complete` holds the lock of its entry throughout.
use aura_rust_runtime_host.Base.{
  ℕ, ◌<◌, ◌≡◌, ap, Bool, true, false, ◌||◌, [], ok, Result, ◌==◌, if◌then◌else◌,
}
use aura_rust_runtime_host.Codec.Errors.{Error}
use aura_rust_runtime_host.Codec.Values.{Value}
use aura_rust_runtime_host.Futures.Registry.{
  pending, cancelled_state, Registry, Registry_new, Capability, pair, cancel_pending, put_state,
  is_registered, remove_entry, Callback_complete, cancel, cancel_at,
}

unfoldable pub update {ℓ} : {A : Type ℓ} → (ℕ → A) → ℕ → A → ℕ → A
update f key a other = if key == other then a else f other

-- `ids` has the identifier of every entry that was made. An entry is `removing` while the `cancel` that
-- won it has yet to take it off the registry, and `draining` while the `close` that drained it has yet
-- to cancel it.
pub record Sections : Type 0 where
  pub registry : Registry
  pub ids : ℕ → ℕ
  pub removing : ℕ → Bool
  pub draining : ℕ → Bool

abbrev pub fresh : Sections
fresh = record {
  registry = Registry_new;
  ids = λ e. 0;
  removing = λ e. false;
  draining = λ e. false;
}

-- What the callback and the future of an entry hold.
abbrev pub capability : Sections → ℕ → Capability
capability s e = record { id = s.ids e; entry = e }

unfoldable pub begin_cancel : Sections → ℕ → Sections
begin_cancel s e = record s {
  registry = put_state s.registry (capability s e) cancelled_state;
  removing = update s.removing e true;
}

unfoldable pub end_cancel : Sections → ℕ → Sections
unfolding remove_entry
end_cancel s e = record s {
  registry = remove_entry s.registry (capability s e);
  removing = update s.removing e false;
}

unfoldable pub drain : Sections → Sections
unfolding is_registered
drain s = record s {
  registry = record (s.registry) { closed = true; entries = [] };
  draining = λ e. is_registered s.registry (capability s e) || s.draining e;
}

unfoldable pub cancel_drained : Sections → ℕ → Sections
cancel_drained s e = record s {
  registry = put_state s.registry (capability s e) (cancel_pending (s.registry.states e));
  draining = update s.draining e false;
}

-- One critical section of one call, by any thread, on an entry that was made.
pub data Step : Sections → Sections → Type 0 where
  paired :
      {s : Sections} (c : Capability) (next : Registry)
      → pair s.registry ≡ (ok c, next)
      → Step s (record s { registry = next; ids = update s.ids c.entry c.id })
  completed :
      {s : Sections} (e : ℕ) (v : Result Error Value)
      → e < s.registry.allocated
      → Step s (record s { registry = (Callback_complete true s.registry (capability s e) v).1 })
  cancel_begun :
      {s : Sections} (e : ℕ)
      → e < s.registry.allocated
      → s.registry.states e ≡ pending
      → Step s (begin_cancel s e)
  cancel_ended : {s : Sections} (e : ℕ) → s.removing e ≡ true → Step s (end_cancel s e)
  drained : {s : Sections} → Step s (drain s)
  drained_cancelled : {s : Sections} (e : ℕ) → s.draining e ≡ true → Step s (cancel_drained s e)

pub data Reaches : Sections → Sections → Type 0 where
  start : {s : Sections} → Reaches s s
  after : {r s t : Sections} → Reaches r s → Step s t → Reaches r t

-- Without a section of another call between them, the two sections of `cancel` are what it does.
cancel_sections :
    (s : Sections) (e : ℕ)
    → s.registry.states e ≡ pending
    → (cancel s.registry (capability s e)).1 ≡ (end_cancel (begin_cancel s e) e).registry
unfolding cancel cancel_at begin_cancel end_cancel
cancel_sections s e p = ap (λ x. (cancel_at s.registry (capability s e) x).1) p
