-- ===== src/Host/Upkeep.antt =====
-- crates/hmcl-rust-host-native/src/embedded.rs: every call of the engine keeps its registry.
use aura_rust_runtime_host.Base.{
  ℕ, ◌≡◌, ◌≢◌, refl, sym, ◌∙◌, true, false, Option, none, some, List, Result, ok, err, ◌==◌, arith,
  Bool-cases, inl, inr, Result-cases,
}
use mathlib.Core.Path.{subst}
use aura_rust_runtime_host.Futures.Registry.{u64_max}
use aura_rust_runtime_host.Futures.Table.{
  lookup, contains_key, insert, remove, contains_key-lookup, contains_key-remove,
  contains_key-remove_same, contains_key-insert_same, contains_key-insert_other,
}
use aura_rust_runtime_host.Host.Errors.{HostError}
use aura_rust_runtime_host.Host.Payload.{Payload, Called, shutdown_for_unload}
use aura_rust_runtime_host.Host.Engine.{
  EngineState, Answered, retain_other, register, find_payload, payload, put_back, on_payload,
  unloaded, unload_payload, Engine_close,
}
use aura_rust_runtime_host.Host.Registry.{
  listed, IsUnique, Consistent, add_payload, add_payload-Consistent, listed-retain_other_same,
  listed-retain_other, retain_other-IsUnique,
}

module _ {P : Type 0} where
  -- The key stays, whatever is behind it.
  contains_key-insert_present :
      (t : List (ℕ × Payload P)) (id j : ℕ) (p : Payload P)
      → contains_key t id ≡ true
      → contains_key (insert t id p) j ≡ contains_key t j
  contains_key-insert_present t id j p h = elim (Bool-cases (id == j)) [
    | inl e ↦
        let q : id ≡ j = ground arith in
        subst (λ x. contains_key (insert t id p) x ≡ contains_key t x) q
          (contains_key-insert_same t id p ∙ sym h)
    | inr e ↦ contains_key-insert_other t id j p (λ q. absurd (ground arith))
  ]

  put_payload-Consistent :
      (e : EngineState P) (id : ℕ) (p : Payload P)
      → contains_key e.payloads id ≡ true
      → Consistent e
      → Consistent (record e { payloads = insert e.payloads id p })
  put_payload-Consistent e id p h w = record {
    same = λ j. contains_key-insert_present e.payloads id j p h ∙ w.same j;
    unique = w.unique;
    given = λ j q. w.given j (sym (contains_key-insert_present e.payloads id j p h) ∙ q);
    positive = w.positive;
  }

  remove_payload-Consistent :
      (e : EngineState P) (id : ℕ)
      → Consistent e
      → Consistent
          (record e { payloads = remove e.payloads id; load_order = retain_other id e.load_order })
  remove_payload-Consistent e id w = record {
    same = λ j. elim (Bool-cases (id == j)) [
      | inl h ↦
          let q : id ≡ j = ground arith in
          subst
            (λ x. contains_key (remove e.payloads id) x ≡ listed x (retain_other id e.load_order)) q
            (contains_key-remove_same e.payloads id
              ∙ sym (listed-retain_other_same id e.load_order))
      | inr h ↦
          let other : id ≢ j = λ q. absurd (ground arith) in
          contains_key-remove e.payloads id j other
          ∙ w.same j
          ∙ sym (listed-retain_other id j e.load_order other)
    ];
    unique = retain_other-IsUnique id e.load_order w.unique;
    given = λ j h. elim (Bool-cases (id == j)) [
      | inl q ↦
          let same : id ≡ j = ground arith in
          let gone = contains_key-remove_same e.payloads id in
          absurd (
            gone_not_there j (subst (λ x. contains_key (remove e.payloads id) x ≡ false) same gone)
              h)
      | inr q ↦
          let other : id ≢ j = λ z. absurd (ground arith) in
          w.given j (sym (contains_key-remove e.payloads id j other) ∙ h)
    ];
    positive = w.positive;
  }
    where
      gone_not_there :
          (j : ℕ)
          → contains_key (remove e.payloads id) j ≡ false
          → contains_key (remove e.payloads id) j ≢ true
      gone_not_there j a b = absurd cc

  find_payload-eq_ok :
      (e : EngineState P) (id : ℕ) (p : Payload P) (found : Option (Payload P))
      → lookup e.payloads id ≡ found
      → find_payload id found ≡ ok p
      → contains_key e.payloads id ≡ true
  find_payload-eq_ok e id p none q h = cc
  find_payload-eq_ok e id p (some x) q h = contains_key-lookup e.payloads id x q

  payload-eq_ok :
      (e : EngineState P) (id : ℕ) (p : Payload P)
      → payload e id ≡ ok p
      → contains_key e.payloads id ≡ true
  unfolding payload
  payload-eq_ok e id p h = elim (Bool-cases e.closed) [
    | inl q ↦ let z = rw q at h in cc
    | inr q ↦ find_payload-eq_ok e id p (lookup e.payloads id) refl (rw q at h)
  ]

  put_back-Consistent :
      {A : Type 0} (e : EngineState P) (id : ℕ) (c : Called P A)
      → contains_key e.payloads id ≡ true
      → Consistent e
      → Consistent (put_back e id c).1.0
  put_back-Consistent e id (r, (p, world)) h w = put_payload-Consistent e id p h w

  pub on_payload-Consistent :
      {A : Type 0} (e : EngineState P) (world : P) (id : ℕ) (call : Payload P → P → Called P A)
      → Consistent e
      → Consistent (on_payload e world id call (payload e id)).1.0
  on_payload-Consistent e world id call w = elim (Result-cases (payload e id)) [
    | inl (p, h) ↦ rw h (put_back-Consistent e id (call p world) (payload-eq_ok e id p h) w)
    | inr (x, h) ↦ rw h w
  ]

  unloaded-Consistent :
      (id : ℕ) (a : Answered P (Unit {0})) → Consistent a.1.0 → Consistent (unloaded id a).1.0
  unfolding unloaded
  unloaded-Consistent id (ok u, (e, world)) w = remove_payload-Consistent e id w
  unloaded-Consistent id (err x, (e, world)) w = w

  pub unload_payload-Consistent :
      (e : EngineState P) (world : P) (id : ℕ)
      → Consistent e
      → Consistent (unload_payload e world id).1.0
  unfolding unload_payload
  unload_payload-Consistent e world id w = elim (Result-cases (payload e id)) [
    | inl (p, h) ↦ rw h (
        unloaded-Consistent id (put_back e id (shutdown_for_unload p world))
          (put_back-Consistent e id (shutdown_for_unload p world) (payload-eq_ok e id p h) w))
    | inr (x, h) ↦ rw h w
  ]

  pub Engine_close-Consistent :
      (e : EngineState P) (world : P) → Consistent e → Consistent (Engine_close e world).1.0
  unfolding Engine_close contains_key listed IsUnique
  Engine_close-Consistent e world w = elim (Bool-cases e.closed) [
    | inl h ↦
        rw h (record { same = w.same; unique = w.unique; given = w.given; positive = w.positive })
    | inr h ↦
        rw h (record { same = λ id. refl; unique = tt; given = λ id q. cc; positive = w.positive })
  ]

  pub register-Consistent :
      (e : EngineState P) (r : Result HostError (Payload P) × P)
      → Consistent e
      → Consistent (register e r).1.0
  unfolding register add_payload
  register-Consistent e (err x, world) w = w
  register-Consistent e (ok p, world) w = elim (Bool-cases (e.next_payload_id == u64_max)) [
    | inl h ↦ rw h w
    | inr h ↦ rw h (add_payload-Consistent e p w)
  ]
