-- ===== src/Host/Registry.antt =====
-- crates/hmcl-rust-host-native/src/embedded.rs: the map of payloads and the order they were loaded in.
use aura_rust_runtime_host.Base.{
  ℕ, suc, ◌<◌, ◌≡◌, ◌≢◌, refl, sym, ◌∙◌, Bool, true, false, ◌||◌, List, [], ◌∷◌, ◌++◌, ◌==◌, arith,
  Bool-cases, inl, inr,
}
use mathlib.Core.Path.{subst}
use aura_rust_runtime_host.Futures.Table.{
  contains_key, insert, contains_key-insert_same, contains_key-insert_other,
}
use aura_rust_runtime_host.Host.Payload.{Payload}
use aura_rust_runtime_host.Host.Engine.{EngineState, EngineState_default, retain_other}

unfoldable pub listed : ℕ → List ℕ → Bool
listed id [] = false
listed id (x ∷ xs) = (x == id) || listed id xs

unfoldable pub IsUnique : List ℕ → Type 0
IsUnique [] = Unit
IsUnique (x ∷ xs) = (listed x xs ≡ false) × IsUnique xs

pub listed-retain_other_same : (id : ℕ) (xs : List ℕ) → listed id (retain_other id xs) ≡ false
unfolding listed retain_other
listed-retain_other_same id [] = refl
listed-retain_other_same id (x ∷ xs) = ground (arith, listed-retain_other_same id xs)

pub listed-retain_other :
    (id j : ℕ) (xs : List ℕ) → id ≢ j → listed j (retain_other id xs) ≡ listed j xs
unfolding listed retain_other
listed-retain_other id j [] h = refl
listed-retain_other id j (x ∷ xs) h = ground (arith, listed-retain_other id j xs h)

pub retain_other-IsUnique : (id : ℕ) (xs : List ℕ) → IsUnique xs → IsUnique (retain_other id xs)
unfolding IsUnique retain_other
retain_other-IsUnique id [] w = w
retain_other-IsUnique id (x ∷ xs) (a, w) = elim (Bool-cases (x == id)) [
  | inl e ↦ rw e (retain_other-IsUnique id xs w)
  | inr e ↦
      let other : id ≢ x = λ q. absurd (ground arith) in
      rw e (listed-retain_other id x xs other ∙ a, retain_other-IsUnique id xs w)
]

listed-append : (j n : ℕ) (xs : List ℕ) → listed j (xs ++ n ∷ []) ≡ (listed j xs || n == j)
unfolding listed
listed-append j n [] = ground arith
listed-append j n (x ∷ xs) = let h = listed-append j n xs in ground arith

append-IsUnique :
    (n : ℕ) (xs : List ℕ) → listed n xs ≡ false → IsUnique xs → IsUnique (xs ++ n ∷ [])
unfolding IsUnique listed
append-IsUnique n [] h w = (refl, tt)
append-IsUnique n (x ∷ xs) h (a, w) =
    (listed-append x n xs ∙ ground arith, append-IsUnique n xs (ground arith) w)

-- The order lists the keys of the map, each once, and identifiers that were never given out are free.
pub record Consistent {P : Type 0} (e : EngineState P) : Type 0 where
  pub same : (id : ℕ) → contains_key e.payloads id ≡ listed id e.load_order
  pub unique : IsUnique e.load_order
  pub given : (id : ℕ) → contains_key e.payloads id ≡ true → (0 < id) × (id < e.next_payload_id)
  pub positive : 0 < e.next_payload_id

module _ {P : Type 0} where
  pub EngineState_default-Consistent : Consistent (EngineState_default P)
  unfolding contains_key listed IsUnique
  EngineState_default-Consistent = record {
    same = λ id. refl;
    unique = tt;
    given = λ id h. cc;
    positive = omega arith;
  }

  fresh-free :
      (e : EngineState P) → Consistent e → contains_key e.payloads e.next_payload_id ≡ false
  fresh-free e w = elim (Bool-cases (contains_key e.payloads e.next_payload_id)) [
    | inl h ↦ let (a, b) = w.given e.next_payload_id h in absurd (omega arith)
    | inr h ↦ h
  ]

  unfoldable pub add_payload : EngineState P → Payload P → EngineState P
  unfolding insert
  add_payload e p = record e {
    next_payload_id = suc e.next_payload_id;
    payloads = insert e.payloads e.next_payload_id p;
    load_order = e.load_order ++ e.next_payload_id ∷ [];
  }

  pub add_payload-Consistent :
      (e : EngineState P) (p : Payload P) → Consistent e → Consistent (add_payload e p)
  unfolding add_payload
  add_payload-Consistent e p w =
      let free = fresh-free e w in
      let pos = w.positive in
      record {
        same = λ id. elim (Bool-cases (e.next_payload_id == id)) [
          | inl h ↦
              let q : e.next_payload_id ≡ id = ground arith in
              subst
                (λ x.
                  contains_key (insert e.payloads e.next_payload_id p) x
                  ≡ listed x (e.load_order ++ e.next_payload_id ∷ []))
                q
                (contains_key-insert_same e.payloads e.next_payload_id p
                  ∙ sym (
                      listed-append e.next_payload_id e.next_payload_id e.load_order
                      ∙ ground arith))
          | inr h ↦
              let other : e.next_payload_id ≢ id = λ q. absurd (ground arith) in
              contains_key-insert_other e.payloads e.next_payload_id id p other
              ∙ w.same id
              ∙ sym (listed-append id e.next_payload_id e.load_order ∙ ground arith)
        ];
        unique =
            append-IsUnique e.next_payload_id e.load_order (sym (w.same e.next_payload_id) ∙ free)
              w.unique;
        given = λ id h. elim (Bool-cases (e.next_payload_id == id)) [
          | inl q ↦ (ground arith, ground arith)
          | inr q ↦
              let other : e.next_payload_id ≢ id = λ z. absurd (ground arith) in
              let (a, b) =
                w.given id
                  (sym (contains_key-insert_other e.payloads e.next_payload_id id p other) ∙ h) in
              (a, omega arith)
        ];
        positive = omega arith;
      }
