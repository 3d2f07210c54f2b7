-- ===== src/Codec/Handles.antt =====
-- `HandleValue::new` accepts exactly the valid handles, and the wire codes are short.
use aura_rust_runtime_host.Base.{ℕ, ◌≤◌, ◌≡◌, length, ok, arith}
use aura_rust_runtime_host.Codec.Errors.{BridgeErrorKind, invalid_argument, wire_code}
use aura_rust_runtime_host.Codec.Values.{Text, HandleValue, HandleValue_new}
use aura_rust_runtime_host.Codec.Format.{ValidHandle}

pub HandleValue_new-eq_ok :
    (h : HandleValue) → ValidHandle h → HandleValue_new h.object_id h.generation h.type_name ≡ ok h
unfolding HandleValue_new
HandleValue_new-eq_ok h v = ground arith

pub HandleValue_new-ValidHandle :
    (object_id generation : ℕ) (type_name : Text) (h : HandleValue)
    → HandleValue_new object_id generation type_name ≡ ok h
    → ValidHandle h
      × (h.object_id ≡ object_id)
      × (h.generation ≡ generation)
      × (h.type_name ≡ type_name)
unfolding HandleValue_new
HandleValue_new-ValidHandle object_id generation type_name h e = ground arith

pub length-wire_code : (k : BridgeErrorKind) → length (wire_code k) ≤ 128
unfolding wire_code
length-wire_code invalid_argument = omega arith
length-wire_code _ = omega arith
