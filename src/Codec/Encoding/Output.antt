-- ===== src/Codec/Encoding/Output.antt =====
-- What a value adds to the encoder's state, and how such additions compose.
use Prim.Native.Nat.add
use aura_rust_runtime_host.Base.{
  ℕ, ◌+◌, ◌≤◌, ◌≡◌, [], ◌∷◌, ◌++◌, length, arith, List, append_assoc, append-nil, ◌∙◌, ap, refl,
}
use aura_rust_runtime_host.Codec.Bytes.{to_be_bytes}
use aura_rust_runtime_host.Codec.Values.{
  Text, Value, Items, Fields, array, map, no_items, item, no_fields, field, len_items, len_fields,
  max_total_content_bytes, max_total_values,
}
use aura_rust_runtime_host.Codec.Encoder.{Encoder}
use aura_rust_runtime_host.Codec.Format.{
  wire, wire_items, wire_fields, content, content_items, content_fields, nodes, nodes_items,
  nodes_fields, wire_text,
}

abbrev pub InBudget : Encoder → Type 0
InBudget e = (e.content_bytes ≤ max_total_content_bytes) × (e.values ≤ max_total_values)

abbrev pub wrote : Encoder → List ℕ → ℕ → ℕ → Encoder
wrote e bs c n = record {
  output = e.output ++ bs;
  content_bytes = e.content_bytes + c;
  values = e.values + n;
}

unfoldable pub after : Value → Encoder → Encoder
unfolding wire content nodes
after v e = wrote e (wire v) (content v) (nodes v)

unfoldable pub after_items : Items → Encoder → Encoder
unfolding wire_items content_items nodes_items
after_items vs e = wrote e (wire_items vs) (content_items vs) (nodes_items vs)

unfoldable pub after_fields : Fields → Encoder → Encoder
unfolding wire_fields content_fields nodes_fields
after_fields fs e = wrote e (wire_fields fs) (content_fields fs) (nodes_fields fs)

pub wrote-wrote :
    (e : Encoder) (a b : List ℕ) (c d n m : ℕ)
    → wrote (wrote e a c n) b d m ≡ wrote e (a ++ b) (c + d) (n + m)
wrote-wrote e a b c d n m = ground (arith, append_assoc e.output a b)

pub wrote-eq :
    (e : Encoder) {bs bs' : List ℕ} {c c' n n' : ℕ}
    → bs ≡ bs'
    → c ≡ c'
    → n ≡ n'
    → wrote e bs c n ≡ wrote e bs' c' n'
wrote-eq e p q r = λ i. wrote e (p i) (q i) (r i)

pub after-array :
    (vs : Items) (e : Encoder)
    → after_items vs (wrote e (0x92 ∷ 6 ∷ 0xdd ∷ to_be_bytes 4 (len_items vs)) 0 1)
      ≡ after (array vs) e
unfolding after after_items
after-array vs e =
    wrote-wrote e (0x92 ∷ 6 ∷ 0xdd ∷ to_be_bytes 4 (len_items vs)) (wire_items vs) 0
      (content_items vs) 1 (nodes_items vs)
    ∙ ap (λ t. wrote e (wire (array vs)) t (nodes (array vs))) (add.zero (content_items vs))

pub after-map :
    (fs : Fields) (e : Encoder)
    → after_fields fs (wrote e (0x92 ∷ 7 ∷ 0xdd ∷ to_be_bytes 4 (len_fields fs)) 0 1)
      ≡ after (map fs) e
unfolding after after_fields
after-map fs e =
    wrote-wrote e (0x92 ∷ 7 ∷ 0xdd ∷ to_be_bytes 4 (len_fields fs)) (wire_fields fs) 0
      (content_fields fs) 1 (nodes_fields fs)
    ∙ ap (λ t. wrote e (wire (map fs)) t (nodes (map fs))) (add.zero (content_fields fs))

pub after_items-no_items : (e : Encoder) → after_items no_items e ≡ e
unfolding after_items
after_items-no_items e = ground (arith, append-nil e.output)

pub after_items-item :
    (v : Value) (vs : Items) (e : Encoder) → after_items vs (after v e) ≡ after_items (item v vs) e
unfolding after after_items
after_items-item v vs e =
    wrote-wrote e (wire v) (wire_items vs) (content v) (content_items vs) (nodes v) (nodes_items vs)

pub after_fields-no_fields : (e : Encoder) → after_fields no_fields e ≡ e
unfolding after_fields
after_fields-no_fields e = ground (arith, append-nil e.output)

-- The state behind a key.
abbrev pub after_key : Text → Encoder → Encoder
after_key k e = wrote e (0x92 ∷ wire_text k) (length k) 0

pub after_fields-field :
    (k : Text) (v : Value) (fs : Fields) (e : Encoder)
    → after_fields fs (after v (after_key k e)) ≡ after_fields (field k v fs) e
unfolding after after_fields
after_fields-field k v fs e =
    let key = 0x92 ∷ wire_text k in
    ap (after_fields fs) (wrote-wrote e key (wire v) (length k) (content v) 0 (nodes v))
    ∙ wrote-wrote e (key ++ wire v) (wire_fields fs) (length k + content v) (content_fields fs)
        (0 + nodes v) (nodes_fields fs)
    ∙ wrote-eq e (append_assoc key (wire v) (wire_fields fs)) (omega arith) (omega arith)

-- The pieces of output that `push` appends, regrouped.
pub header_word :
    (out : List ℕ) (t m : ℕ) (l : List ℕ)
    → ((out ++ 0x92 ∷ t ∷ []) ++ m ∷ []) ++ l ≡ out ++ 0x92 ∷ t ∷ m ∷ l
header_word out t m l =
    rw (append_assoc out (0x92 ∷ t ∷ []) (m ∷ [])) (append_assoc out (0x92 ∷ t ∷ m ∷ []) l)

pub header_text :
    (out : List ℕ) (t m : ℕ) (l s : List ℕ)
    → (((out ++ 0x92 ∷ t ∷ []) ++ m ∷ []) ++ l) ++ s ≡ out ++ 0x92 ∷ t ∷ m ∷ (l ++ s)
header_text out t m l s = rw (header_word out t m l) (append_assoc out (0x92 ∷ t ∷ m ∷ l) s)

pub header_handle :
    (out a b l s : List ℕ)
    → ((((((((out ++ 0x92 ∷ 8 ∷ []) ++ 0x93 ∷ []) ++ 0xcf ∷ []) ++ a) ++ 0xcf ∷ []) ++ b)
            ++ 0xdb ∷ [])
          ++ l)
        ++ s
      ≡ out ++ 0x92 ∷ 8 ∷ 0x93 ∷ 0xcf ∷ (a ++ 0xcf ∷ (b ++ 0xdb ∷ (l ++ s)))
header_handle out a b l s = simp append_assoc

pub header_length :
    (out : List ℕ) (t n : ℕ)
    → (out ++ 0x92 ∷ t ∷ []) ++ 0xdd ∷ to_be_bytes 4 n ≡ out ++ 0x92 ∷ t ∷ 0xdd ∷ to_be_bytes 4 n
header_length out t n = append_assoc out (0x92 ∷ t ∷ []) (0xdd ∷ to_be_bytes 4 n)

pub after-content :
    (v : Value) (e : Encoder) → (after v e).content_bytes ≡ e.content_bytes + content v
unfolding after
after-content v e = refl

pub after-values : (v : Value) (e : Encoder) → (after v e).values ≡ e.values + nodes v
unfolding after
after-values v e = refl

pub after-output : (v : Value) (e : Encoder) → (after v e).output ≡ e.output ++ wire v
unfolding after
after-output v e = refl
