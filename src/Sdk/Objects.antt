-- ===== src/Sdk/Objects.antt =====
-- crates/hmcl-plugin-sdk/src/handle.rs: an owned reference to an object of the Host.
use aura_rust_runtime_host.Base.{ℕ, Bool, not, none, some, ok, err, bytes_eq, if◌then◌else◌}
use aura_rust_runtime_host.Codec.Errors.{Error_new, type_mismatch}
use aura_rust_runtime_host.Codec.Values.{Text, HandleValue}
use aura_rust_runtime_host.Abi.Buffers.{HandleId}
use aura_rust_runtime_host.Sdk.Context.{
  Context, Call, M, pure, refuse, ◌>>◌, record_cleanup_failure,
}
use aura_rust_runtime_host.Sdk.Calls.{
  retain_handle, ensure_release_handle, ensure_handle_callbacks, release_handle_for_drop,
}

pub record ObjectHandle : Type 0 where
  pub value : HandleValue

abbrev pub id_of : HandleValue → HandleId
id_of value = record { object = value.object_id; version = value.generation }

-- `expected` is the name of the handle's type, `T::TYPE_NAME`.
module _ {W : Type 0} (expected : Text) where
  unfoldable pub validate_type : HandleValue → M W (Unit {0})
  unfolding bytes_eq
  validate_type value =
      if not (bytes_eq value.type_name expected) then refuse (Error_new type_mismatch) else pure tt

  unfoldable pub from_owned : ℕ → HandleValue → M W ObjectHandle
  unfolding ensure_release_handle validate_type
  from_owned thread value = do
    ensure_release_handle thread
    validate_type value
    pure (record { value = value })

  unfoldable pub from_borrowed : ℕ → HandleValue → M W ObjectHandle
  unfolding ensure_handle_callbacks validate_type retain_handle
  from_borrowed thread value = do
    ensure_handle_callbacks thread
    validate_type value
    retain_handle thread (id_of value)
    pure (record { value = value })

  unfoldable pub try_clone : ℕ → ObjectHandle → M W ObjectHandle
  unfolding from_borrowed
  try_clone thread handle = from_borrowed thread handle.value

module _ {W : Type 0} where
  abbrev pub after_release : Call Bool × (Context W × W) → Call (Unit {0}) × (Context W × W)
  after_release (none, s) = (none, s)
  after_release (some (err e), s) = (some (err e), s)
  after_release (some (ok failed), (c, w)) =
      (some (ok tt), (if failed then record_cleanup_failure c else c, w))

  -- `Drop for ObjectHandle`
  unfoldable pub drop_handle : ℕ → ObjectHandle → M W (Unit {0})
  unfolding release_handle_for_drop record_cleanup_failure
  drop_handle thread handle s =
      after_release (release_handle_for_drop thread (id_of handle.value) s)
