-- ===== src/Examples/Java.antt =====
-- crates/hmcl-rust-host-native/src/jni_api.rs: a virtual machine that only has its exceptions.
use aura_rust_runtime_host.Base.{ℕ, Bool, refl, true, false, some, none}
use aura_rust_runtime_host.Base.Int.{pos}
use aura_rust_runtime_host.Codec.Bytes.{i64_bits}
use aura_rust_runtime_host.Host.Errors.{engine_closed, jni_panic}
use aura_rust_runtime_host.Host.Engine.{
  EngineState_default, enable_payload, disable_payload, unload_payload,
}
use aura_rust_runtime_host.Host.Java.{JavaEnv}
use aura_rust_runtime_host.Host.Exports.{
  enable_embedded_payload, disable_embedded_payload, unload_embedded_payload, jni_result,
}
use aura_rust_runtime_host.Host.Reports.{Exceptions, Reported, Thrown, exports-Reported}

-- The world is whether an exception is pending.
abbrev machine : JavaEnv Bool ℕ
machine = record {
  get_java_vm = λ w. (true, w);
  new_global_ref = λ w. (true, w);
  attach = λ w. (true, w);
  new_string = λ text w. (some 1, w);
  byte_array_from_slice = λ bytes w. (some 2, w);
  convert_byte_array = λ o w. (none, w);
  get_string = λ o w. (none, w);
  is_null = λ o. false;
  call_invoke = λ session text bytes w. (none, true);
  call_handle = λ method session object version w. (false, true);
  exception_check = λ w. w;
  exception_clear = λ w. false;
  throw_new = λ e w. true;
}

machine-Exceptions : Exceptions machine
machine-Exceptions = record { cleared = λ w. refl; thrown = λ e w h. refl }

exports-Reported_example :
    Reported machine tt
      (enable_payload (EngineState_default Bool) false (i64_bits (pos 3)))
      (enable_embedded_payload machine (pos 64) (pos 3) (EngineState_default Bool, false))
    × Reported machine tt
        (disable_payload (EngineState_default Bool) false (i64_bits (pos 3)))
        (disable_embedded_payload machine (pos 64) (pos 3) (EngineState_default Bool, false))
    × Reported machine tt
        (unload_payload (EngineState_default Bool) false (i64_bits (pos 3)))
        (unload_embedded_payload machine (pos 64) (pos 3) (EngineState_default Bool, false))
    × Thrown machine tt engine_closed
        (EngineState_default Bool, false)
        (enable_embedded_payload machine (pos 0) (pos 3) (EngineState_default Bool, false))
    × Thrown machine tt engine_closed
        (EngineState_default Bool, false)
        (disable_embedded_payload machine (pos 0) (pos 3) (EngineState_default Bool, false))
    × Thrown machine tt engine_closed
        (EngineState_default Bool, false)
        (unload_embedded_payload machine (pos 0) (pos 3) (EngineState_default Bool, false))
    × Thrown machine tt jni_panic
        (EngineState_default Bool, false)
        (jni_result machine tt (none, (EngineState_default Bool, false)))
exports-Reported_example =
    exports-Reported machine machine-Exceptions (pos 64) (pos 3) (EngineState_default Bool) false
      refl
